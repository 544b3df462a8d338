-- ===== src/BTree/Struct.antt =====
-- `struct cs_btree`, the macros that find keys and values in its object, and the functions that set
-- it up (cstructures/include/cstructures/btree.h, cstructures/src/btree.c).
use cstructures.Buffer.{decode32, Block, read, Allocator}
use cstructures.Prelude.{
  ℕ, ◌+◌, ◌*◌, Bool, Option, none, some, List, Exec, done, fault, ◌>>=◌, ◌==◌,
}
use cstructures.Prelude.Word.{mul32}

-- `data` is `buf`: null, or the object that the tree owns. Pointers to keys are key indices, and
-- pointers to values are byte offsets.
pub record BTree : Type 0 where
  pub buf : Option Block
  pub count : ℕ
  pub capacity : ℕ
  pub value_size : ℕ

-- `enum cs_btree_status`
pub data Status : Type 0 where
  not_found : Status
  exists : Status
  ok : Status
  oom : Status

-- CSTRUCTURES_BTREE_MIN_CAPACITY and CSTRUCTURES_BTREE_EXPAND_FACTOR, as the build sets them.
abbrev pub min_capacity : ℕ
min_capacity = 32

abbrev pub expand_factor : ℕ
expand_factor = 2

-- `sizeof (cs_btree_key)`, with 32-bit keys.
abbrev pub key_size : ℕ
key_size = 4

-- BTREE_KV_SIZE
abbrev pub kv_size : BTree → ℕ
kv_size t = key_size + t.value_size

-- BTREE_NEEDS_REALLOC
abbrev pub needs_realloc : BTree → Bool
needs_realloc t = t.count == t.capacity

-- The byte offset of BTREE_KEY (btree, i).
abbrev pub key_offset : ℕ → ℕ
key_offset i = i * key_size

-- The byte offset of BTREE_VALUE_CAP (btree, i, cap): the product is one of two `uint32_t`.
abbrev pub value_offset_cap : BTree → ℕ → ℕ → ℕ
value_offset_cap t i cap = cap * key_size + mul32 t.value_size i

-- BTREE_VALUE
abbrev pub value_offset : BTree → ℕ → ℕ
value_offset t i = value_offset_cap t i t.capacity

-- `*BTREE_KEY (btree, i)`
unfoldable pub read_key : BTree → ℕ → Exec ℕ
unfolding read
read_key t i = elim t.buf [
  | none ↦ fault
  | some b ↦ read b (key_offset i) key_size >>= λ k. done (decode32 k)
]

-- The `value_size` bytes that a pointer to a value points at.
unfoldable pub read_value : BTree → ℕ → Exec (List ℕ)
unfolding read
read_value t off = elim t.buf [ none ↦ fault | some b ↦ read b off t.value_size ]

unfoldable pub btree_init : ℕ → BTree
btree_init value_size = record { buf = none; count = 0; capacity = 0; value_size = value_size }

-- `sizeof (struct cs_btree)`
abbrev pub sizeof_btree : ℕ
sizeof_btree = 24

unfoldable pub btree_create : Allocator → ℕ → Status × Option BTree
unfolding btree_init
btree_create a value_size = elim (a.malloc sizeof_btree) [
  | none ↦ (oom, none)
  | some object ↦ (ok, some (btree_init value_size))
]
