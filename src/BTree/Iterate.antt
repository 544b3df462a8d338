-- ===== src/BTree/Iterate.antt =====
-- The reads of the fields, the loops BTREE_FOR_EACH and BTREE_KEYS_FOR_EACH, and the removal in a loop
-- (cstructures/include/cstructures/btree.h). The body of a loop is any function of what it keeps, of
-- the key, and of the pointer to the value, as an offset; but for the loop that
-- removes entries, it leaves the tree alone. The loops are on
-- fuel: a round for each entry and one more; to run out of it counts as a fault.
use cstructures.Prelude.{
  ℕ, zero, suc, Bool, true, false, Exec, done, fault, ◌>>=◌, ltb, ◌==◌, if◌then◌else◌,
}
use cstructures.Prelude.Word.{add32, sub32}
use cstructures.BTree.Struct.{BTree, read_key, value_offset}
use cstructures.BTree.Erase.{btree_erase_index}

unfoldable pub btree_count : BTree → ℕ
btree_count t = t.count

unfoldable pub btree_value_size : BTree → ℕ
btree_value_size t = t.value_size

unfoldable pub btree_capacity : BTree → ℕ
btree_capacity t = t.capacity

module _ {ℓ} {S : Type ℓ} (t : BTree) where
  unfoldable pub for_each_from : (S → ℕ → ℕ → Exec S) → ℕ → ℕ → S → Exec S
  unfolding btree_count read_key
  for_each_from body zero idx s = fault
  for_each_from body (suc fuel) idx s = elim (idx == btree_count t) [
    | true ↦ done s
    | false ↦ do
      k ← read_key t idx
      s' ← body s k (value_offset t idx)
      for_each_from body fuel (add32 idx 1) s'
  ]

  -- The values are not empty.
  unfoldable pub btree_for_each : (S → ℕ → ℕ → Exec S) → S → Exec S
  unfolding btree_value_size btree_count for_each_from
  btree_for_each body s =
      if ltb 0 (btree_value_size t) then for_each_from body (suc (btree_count t)) 0 s else fault

  unfoldable pub btree_keys_for_each : (S → ℕ → Exec S) → S → Exec S
  unfolding btree_count for_each_from
  btree_keys_for_each body s = for_each_from (λ s' k value. body s' k) (suc (btree_count t)) 0 s

-- BTREE_ERASE_CURRENT_ITEM_IN_FOR_LOOP: the tree and the index of the loop. Before the first entry, the
-- index wraps.
unfoldable pub erase_current_item : BTree → ℕ → Exec (BTree × ℕ)
unfolding btree_erase_index
erase_current_item t idx = btree_erase_index t idx >>= λ r. done (r.1, sub32 idx 1)

-- BTREE_KEYS_FOR_EACH around an `if` with the removal: the one body here that changes the tree. The
-- test stands for the condition of the caller.
unfoldable pub erase_if : (ℕ → Bool) → ℕ → BTree → ℕ → Exec BTree
unfolding read_key erase_current_item
erase_if test zero t idx = fault
erase_if test (suc fuel) t idx = elim (idx == t.count) [
  | true ↦ done t
  | false ↦ do
    k ← read_key t idx
    r ← if test k then erase_current_item t idx else done (t, idx)
    erase_if test fuel r.0 (add32 r.1 1)
]
