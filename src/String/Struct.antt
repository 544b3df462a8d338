-- ===== src/String/Struct.antt =====
-- `struct cs_string` and the functions that set it up (cstructures/include/cstructures/string.h,
-- cstructures/src/string.c).
use cstructures.Prelude.{ℕ, Option, none, some}
use cstructures.Prelude.Word.{sub32}
use cstructures.Buffer.{Block, Allocator}
use cstructures.Vector.Struct.{Vector, vector_init, vector_deinit}

pub record CsString : Type 0 where
  pub buf : Vector

-- `sizeof (struct cs_string)`
abbrev pub sizeof_string : ℕ
sizeof_string = 24

-- The elements are of `sizeof(char)`.
unfoldable pub string_init : CsString
unfolding vector_init
string_init = record { buf = vector_init 1 }

-- The pointer that is returned, and the struct that was allocated: the pointer is null in either case.
unfoldable pub string_create : Allocator → Option CsString × Option CsString
unfolding string_init
string_create a = elim (a.malloc sizeof_string) [
  | none ↦ (none, none)
  | some object ↦ (none, some string_init)
]

-- The object that is freed.
unfoldable pub string_deinit : CsString → Option Block
unfolding vector_deinit
string_deinit str = vector_deinit str.buf

-- The object of the struct itself is freed after that of its bytes.
unfoldable pub string_destroy : CsString → Option Block
unfolding string_deinit
string_destroy str = string_deinit str

-- The macro: the terminator does not count.
abbrev pub string_length : CsString → ℕ
string_length str = sub32 str.buf.count 1
