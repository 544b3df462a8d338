-- ===== src/BTree/Erase.antt =====
-- Removal (cstructures/src/btree.c).
use cstructures.Prelude.{
  ℕ, ◌+◌, ◌-◌, ◌*◌, ◌/◌, ◌%◌, Bool, true, false, Option, none, some, List, Exec, done, fault, ◌>>=◌,
  ltb, leb, if◌then◌else◌, ◌&&◌,
}
use cstructures.Prelude.Word.{word, add32, mul32, sub32}
use cstructures.Buffer.{Block, memmove}
use cstructures.BTree.Struct.{
  BTree, Status, not_found, ok, key_size, key_offset, value_offset, value_offset_cap, read_key,
}
use cstructures.BTree.Search.{search_key}
use cstructures.BTree.Query.{btree_find_index_of_matching_value}

-- BTREE_INVALID_KEY
abbrev pub invalid_key : ℕ
invalid_key = word - 1

-- The two moves of `btree_erase_index`.
unfoldable pub close_entry : BTree → Block → ℕ → Exec Block
unfolding memmove
close_entry t b idx = do
  let entries_to_move = sub32 t.count idx
  b₁ ← memmove b (key_offset idx) (key_offset (idx + 1)) (entries_to_move * key_size)
  memmove b₁ (value_offset t idx) (value_offset t (add32 idx 1))
      (mul32 entries_to_move t.value_size)

unfoldable pub btree_erase_index : BTree → ℕ → Exec (ℕ × BTree)
unfolding read_key close_entry
btree_erase_index t idx = do
  key ← read_key t idx
  elim t.buf [
    | none ↦ fault
    | some b ↦ close_entry t b idx >>= λ b'.
        done (key, record t { buf = some b'; count = sub32 t.count 1 })
  ]

-- `btree_erase` once the key has been looked for.
unfoldable pub erase_found : BTree → ℕ × Bool → Exec (Status × BTree)
unfolding btree_erase_index
erase_found t (i, true) = btree_erase_index t i >>= λ r. done (ok, r.1)
erase_found t (i, false) = done (not_found, t)

unfoldable pub btree_erase : BTree → ℕ → Exec (Status × BTree)
unfolding search_key erase_found
btree_erase t key = search_key t key >>= erase_found t

-- `btree_erase_value` once the value has been looked for.
unfoldable pub erase_matching : BTree → Option ℕ → Exec (ℕ × BTree)
unfolding btree_erase_index
erase_matching t none = done (invalid_key, t)
erase_matching t (some i) = btree_erase_index t i

unfoldable pub btree_erase_value : BTree → List ℕ → Exec (ℕ × BTree)
unfolding btree_find_index_of_matching_value erase_matching
btree_erase_value t value =
    if ltb 0 t.value_size
    then btree_find_index_of_matching_value t value >>= erase_matching t
    else fault

-- The value is a pointer into the object, as a byte offset; BTREE_VALUE_TO_IDX gives its index.
unfoldable pub btree_erase_internal_value : BTree → ℕ → Exec (ℕ × BTree)
unfolding btree_erase_index
btree_erase_internal_value t off =
    let first = value_offset_cap t 0 t.capacity in
    if ltb 0 t.value_size && (leb first off && ltb off (value_offset t t.count))
    then btree_erase_index t ((off - first) / t.value_size % word)
    else fault
