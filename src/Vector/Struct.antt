-- ===== src/Vector/Struct.antt =====
-- `struct cs_vector`, its constants, and the functions that set it up or hand it back
-- (cstructures/include/cstructures/vector.h, cstructures/src/vector.c).
use cstructures.Prelude.{ℕ, Bool, Option, none, some, ◌==◌}
use cstructures.Buffer.{Block, Allocator}

-- `data` is `buf`: null, or the object that the vector owns. Pointers into it are byte offsets.
pub record Vector : Type 0 where
  pub buf : Option Block
  pub capacity : ℕ
  pub count : ℕ
  pub element_size : ℕ

-- The values 0, -1 and -2 that the functions return.
pub data Status : Type 0 where
  success : Status
  out_of_memory : Status
  size_differs : Status

-- CSTRUCTURES_VEC_MIN_CAPACITY and CSTRUCTURES_VEC_EXPAND_FACTOR, as the build sets them.
abbrev pub min_capacity : ℕ
min_capacity = 32

abbrev pub expand_factor : ℕ
expand_factor = 2

-- VECTOR_NEEDS_REALLOC
abbrev pub needs_realloc : Vector → Bool
needs_realloc v = v.count == v.capacity

-- `sizeof (struct cs_vector)`
abbrev pub sizeof_vector : ℕ
sizeof_vector = 24

unfoldable pub vector_init : ℕ → Vector
vector_init element_size = record {
  buf = none;
  capacity = 0;
  count = 0;
  element_size = element_size;
}

-- `none` is the null pointer that a failed allocation of the struct gives.
unfoldable pub vector_create : Allocator → ℕ → Option Vector
unfolding vector_init
vector_create a element_size = elim (a.malloc sizeof_vector) [
  | none ↦ none
  | some object ↦ some (vector_init element_size)
]

-- XFREE (vector->data): the object that is freed, if there is one. The struct keeps its pointer.
unfoldable pub vector_deinit : Vector → Option Block
vector_deinit v = v.buf

-- The object of the struct itself is freed after that of its elements.
unfoldable pub vector_free : Vector → Option Block
unfolding vector_deinit
vector_free v = vector_deinit v
