-- ===== src/BTree/Query.antt =====
-- Search by value, and the first unused key (cstructures/src/btree.c).
use cstructures.Prelude.{
  ℕ, zero, suc, ◌+◌, true, false, Option, none, some, List, Exec, done, fault, ◌>>=◌, ltb, ◌==◌,
  if◌then◌else◌,
}
use cstructures.Prelude.Word.{add32}
use cstructures.Buffer.{same_bytes}
use cstructures.BTree.Struct.{BTree, read_key, read_value, value_offset}

-- The loop, with the rounds that are left: `i` runs up to the count. The value (cs_btree_size)-1
-- that stands for no match is none.
unfoldable pub matching_from : BTree → List ℕ → ℕ → ℕ → Exec (Option ℕ)
unfolding read_value same_bytes
matching_from t value zero i = done none
matching_from t value (suc rounds) i =
    let rest = matching_from t value rounds (i + 1) in
    read_value t (value_offset t i) >>= λ current_value.
    if same_bytes current_value value then done (some i) else rest

unfoldable pub btree_find_index_of_matching_value : BTree → List ℕ → Exec (Option ℕ)
unfolding matching_from
btree_find_index_of_matching_value t value = matching_from t value t.count 0

-- The pointer to a key is its index.
unfoldable pub btree_find_key : BTree → List ℕ → Exec (Option ℕ)
unfolding btree_find_index_of_matching_value
btree_find_key t value =
    if ltb 0 t.value_size then btree_find_index_of_matching_value t value else fault

unfoldable pub btree_get_any_value : BTree → Exec (Option ℕ)
btree_get_any_value t =
    if ltb 0 t.value_size
    then done (if t.count == 0 then none else some (value_offset t 0))
    else fault

-- The loop on fuel; to run out of it counts as a fault. It reads keys past the count.
unfoldable pub unused_from : ℕ → BTree → ℕ → Exec ℕ
unfolding read_key
unused_from zero t key = fault
unused_from (suc fuel) t key = read_key t key >>= λ k. elim (k == key) [
  | true ↦ unused_from fuel t (add32 key 1)
  | false ↦ done key
]

-- A round for each key that the object could hold, and one more.
unfoldable pub btree_find_unused_key : BTree → Exec ℕ
unfolding unused_from
btree_find_unused_key t = elim t.buf [ none ↦ done 0 | some b ↦ unused_from (suc b.size) t 0 ]
