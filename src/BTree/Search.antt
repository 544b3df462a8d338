-- ===== src/BTree/Search.antt =====
-- Binary search and look-up by key (cstructures/src/btree.c).
use cstructures.Prelude.{
  ℕ, zero, suc, ◌+◌, ◌-◌, ◌/◌, Bool, true, false, Option, none, some, List, Exec, done, fault,
  ◌>>=◌, ltb, ◌==◌, if◌then◌else◌,
}
use cstructures.Buffer.{same_bytes}
use cstructures.BTree.Struct.{BTree, read_key, read_value, value_offset}

-- The loop on fuel; to run out of it counts as a fault. `len` is positive where it is reduced, so
-- `len - half - 1` does not wrap.
unfoldable pub lower_bound_loop : ℕ → BTree → ℕ → ℕ → ℕ → Exec ℕ
unfolding read_key
lower_bound_loop zero t key found len = fault
lower_bound_loop (suc fuel) t key found len = elim (ltb 0 len) [
  | false ↦ done found
  | true ↦ read_key t (found + len / 2) >>= λ middle. elim (ltb middle key) [
    | true ↦ lower_bound_loop fuel t key (found + len / 2 + 1) (len - len / 2 - 1)
    | false ↦ lower_bound_loop fuel t key found (len / 2)
  ]
]

unfoldable pub btree_find_lower_bound : BTree → ℕ → Exec ℕ
unfolding lower_bound_loop
btree_find_lower_bound t key = lower_bound_loop (suc t.count) t key 0 t.count

-- `lower_bound < BTREE_KEY_END (btree) && *lower_bound == key`
unfoldable pub holds_key : BTree → ℕ → ℕ → Exec Bool
unfolding read_key
holds_key t key i = if ltb i t.count then (read_key t i >>= λ k. done (k == key)) else done false

-- The search that every look-up starts with: the lower bound, and whether the key stands there.
unfoldable pub search_key : BTree → ℕ → Exec (ℕ × Bool)
unfolding btree_find_lower_bound holds_key
search_key t key = do i ← btree_find_lower_bound t key; found ← holds_key t key i; done (i, found)

-- What `btree_find` returns for the outcome of the search.
abbrev pub found_value : BTree → ℕ × Bool → Option ℕ
found_value t (i, true) = some (value_offset t i)
found_value t (i, false) = none

unfoldable pub btree_find : BTree → ℕ → Exec (Option ℕ)
unfolding search_key
btree_find t key =
    if ltb 0 t.value_size then (search_key t key >>= λ r. done (found_value t r)) else fault

unfoldable pub btree_key_exists : BTree → ℕ → Exec Bool
unfolding search_key
btree_key_exists t key = search_key t key >>= λ r. done r.1

-- What `btree_find_and_compare` does with the value that it found.
unfoldable pub compare_value : BTree → List ℕ → Option ℕ → Exec Bool
unfolding read_value same_bytes
compare_value t value none = done false
compare_value t value (some off) = read_value t off >>= λ x. done (same_bytes x value)

unfoldable pub btree_find_and_compare : BTree → ℕ → List ℕ → Exec Bool
unfolding btree_find compare_value
btree_find_and_compare t key value = btree_find t key >>= compare_value t value
