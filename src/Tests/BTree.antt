-- ===== src/Tests/BTree.antt =====
-- Runs of the tree's operations on concrete trees, and instances of its properties.
use cstructures.Prelude.{
  ℕ, zero, suc, ◌<◌, ◌≡◌, refl, some, List, [], ◌∷◌, done, fault, Returns, arith, Exec, ◌==◌,
}
use cstructures.BTree.Struct.{BTree, ok, oom}
use cstructures.BTree.Storage.{btree_realloc, btree_compact}
use cstructures.BTree.Search.{btree_find_lower_bound, btree_find}
use cstructures.BTree.Insert.{btree_insert_new, btree_insert_or_get, btree_set_existing}
use cstructures.BTree.Query.{btree_find_key, btree_find_unused_key}
use cstructures.BTree.Erase.{btree_erase_index, btree_erase, btree_erase_value}
use cstructures.BTree.Valid.{IsValid, key_at, entries, Refuses, OrUnchanged}
use cstructures.BTree.Proof.Read.{LowerBound, btree_find_lower_bound-LowerBound}
use cstructures.BTree.Proof.Grow.{btree_realloc-Kept}
use cstructures.BTree.Proof.Move.{Kept}
use cstructures.BTree.Proof.Find.{Points, btree_find-Points}
use cstructures.BTree.Proof.Insert.{CanDouble, FullAndRefused, Inserts, btree_insert_new-Inserts}
use cstructures.BTree.Proof.Update.{Gets, btree_insert_or_get-Gets, Sets, btree_set_existing-Sets}
use cstructures.BTree.Proof.Erase.{btree_erase_index-full}
use cstructures.BTree.Proof.EraseKey.{Erases, btree_erase-Erases}
use cstructures.BTree.Proof.Capacity.{Compacted, btree_compact-Compacted}
use cstructures.BTree.Proof.Unused.{LeastUnused, btree_find_unused_key-LeastUnused}
use cstructures.BTree.Proof.Match.{
  Matches, btree_find_key-Matches, MatchRemoved, btree_erase_value-MatchRemoved,
}
use cstructures.BTree.Iterate.{erase_if, btree_for_each, btree_keys_for_each}
use cstructures.BTree.Proof.Iterate.{visit_all, btree_for_each-visit_all}
use cstructures.BTree.Proof.Filter.{Filtered, erase_if-Filtered}
use cstructures.Buffer.{Block}
use cstructures.Tests.Memory.{object, generous, refusing}

abbrev key_bytes : List ℕ → List ℕ
key_bytes rest = 5 ∷ 0 ∷ 0 ∷ 0 ∷ 9 ∷ 0 ∷ 0 ∷ 0 ∷ rest

-- Keys 5 and 9 with values of two bytes, and no room for a third.
abbrev full_block : Block
full_block = object 12 (key_bytes (1 ∷ 2 ∷ 3 ∷ 4 ∷ []))

abbrev full : BTree
full = record { buf = some full_block; count = 2; capacity = 2; value_size = 2 }

-- The same entries, and room for two more.
abbrev roomy : BTree
roomy = record {
  buf = some (object 24 (key_bytes (0 ∷ 0 ∷ 0 ∷ 0 ∷ 0 ∷ 0 ∷ 0 ∷ 0 ∷ 1 ∷ 2 ∷ 3 ∷ 4 ∷ [])));
  count = 2;
  capacity = 4;
  value_size = 2;
}

ascends : (i j : ℕ) → i < j → j < 2 → key_at full i < key_at full j
ascends i zero p q = absurd (omega arith)
ascends zero (suc zero) p q = omega arith
ascends (suc i) (suc zero) p q = absurd (omega arith)
ascends i (suc (suc j)) p q = absurd (omega arith)

roomy-ascends : (i j : ℕ) → i < j → j < 2 → key_at roomy i < key_at roomy j
roomy-ascends i zero p q = absurd (omega arith)
roomy-ascends zero (suc zero) p q = omega arith
roomy-ascends (suc i) (suc zero) p q = absurd (omega arith)
roomy-ascends i (suc (suc j)) p q = absurd (omega arith)

full-IsValid : IsValid full
full-IsValid = record {
  room = omega arith;
  small = omega arith;
  bounded = omega arith;
  owns = (omega arith, omega arith);
  sorted = ascends;
}

roomy-IsValid : IsValid roomy
roomy-IsValid = record {
  room = omega arith;
  small = omega arith;
  bounded = omega arith;
  owns = (omega arith, omega arith);
  sorted = roomy-ascends;
}

full-CanDouble : CanDouble full
full-CanDouble e = (omega arith, omega arith)

btree_insert_new-Inserts_example :
    Returns
      (btree_insert_new generous full 7 (8 ∷ 9 ∷ []))
      (Inserts full (FullAndRefused generous full) 7 (8 ∷ 9 ∷ []))
btree_insert_new-Inserts_example =
    btree_insert_new-Inserts generous full 7 (8 ∷ 9 ∷ []) full-IsValid full-CanDouble (omega arith)
      refl

btree_insert_or_get-Gets_example :
    Returns
      (btree_insert_or_get generous full 7 (8 ∷ 9 ∷ []))
      (Gets full (FullAndRefused generous full) 7 (8 ∷ 9 ∷ []))
btree_insert_or_get-Gets_example =
    btree_insert_or_get-Gets generous full 7 (8 ∷ 9 ∷ []) full-IsValid (omega arith) full-CanDouble
      (omega arith) refl

btree_set_existing-Sets_example :
    Returns (btree_set_existing full 9 (8 ∷ 9 ∷ [])) (Sets full 9 (8 ∷ 9 ∷ []))
btree_set_existing-Sets_example =
    btree_set_existing-Sets full 9 (8 ∷ 9 ∷ []) full-IsValid (omega arith) refl

btree_find-Points_example : Returns (btree_find full 9) (Points full (some (3 ∷ 4 ∷ [])))
btree_find-Points_example = btree_find-Points full 9 full-IsValid (omega arith)

btree_find_lower_bound-LowerBound_example :
    Returns (btree_find_lower_bound full 6) (LowerBound full 6)
btree_find_lower_bound-LowerBound_example = btree_find_lower_bound-LowerBound full 6 full-IsValid

btree_erase-Erases_example : Returns (btree_erase roomy 5) (Erases roomy 5)
btree_erase-Erases_example = btree_erase-Erases roomy 5 roomy-IsValid (omega arith)

btree_erase_index-full_example : btree_erase_index full 1 ≡ fault
btree_erase_index-full_example =
    btree_erase_index-full full full_block 1 full-IsValid refl refl refl (omega arith)

btree_realloc-Kept_example :
    Returns (btree_realloc generous full 4) (OrUnchanged full (Refuses generous) (Kept full 32))
btree_realloc-Kept_example =
    btree_realloc-Kept generous full 4 full-IsValid (omega arith) (omega arith, omega arith)

btree_compact-Compacted_example : Returns (btree_compact generous roomy) (Compacted generous roomy)
btree_compact-Compacted_example =
    btree_compact-Compacted generous roomy roomy-IsValid (omega arith, omega arith)

btree_find_unused_key-LeastUnused_example : Returns (btree_find_unused_key full) (LeastUnused full)
btree_find_unused_key-LeastUnused_example =
    btree_find_unused_key-LeastUnused full 0 full-IsValid (omega arith) (omega arith)

btree_find_key-Matches_example :
    Returns (btree_find_key full (3 ∷ 4 ∷ [])) (Matches full (3 ∷ 4 ∷ []))
btree_find_key-Matches_example = btree_find_key-Matches full (3 ∷ 4 ∷ []) full-IsValid (omega arith)

btree_erase_value-MatchRemoved_example :
    Returns (btree_erase_value roomy (3 ∷ 4 ∷ [])) (MatchRemoved roomy (3 ∷ 4 ∷ []))
btree_erase_value-MatchRemoved_example =
    btree_erase_value-MatchRemoved roomy (3 ∷ 4 ∷ []) roomy-IsValid (omega arith) (omega arith)

insert_between :
    Returns
      (btree_insert_new generous full 7 (8 ∷ 9 ∷ []))
      (λ r. (r.0 ≡ ok) × (entries r.1 ≡ (5, 1 ∷ 2 ∷ []) ∷ (7, 8 ∷ 9 ∷ []) ∷ (9, 3 ∷ 4 ∷ []) ∷ []))
unfolding btree_insert_new btree_realloc
insert_between = (refl, refl)

insert_refused : btree_insert_new refusing full 7 (8 ∷ 9 ∷ []) ≡ done (oom, full)
unfolding btree_insert_new btree_realloc
insert_refused = refl

-- The allocation comes before the search, so a key that exists may be reported as out of memory.
insert_existing_refused : btree_insert_new refusing full 5 (8 ∷ 9 ∷ []) ≡ done (oom, full)
unfolding btree_insert_new btree_realloc
insert_existing_refused = refl

-- The bodies keep the keys.
abbrev note : List ℕ → ℕ → ℕ → Exec (List ℕ)
note s k value = done (k ∷ s)

abbrev note_key : List ℕ → ℕ → Exec (List ℕ)
note_key s k = done (k ∷ s)

btree_for_each-visit_all_example :
    (btree_for_each full note [] ≡ visit_all full note 0 2 [])
    × (btree_keys_for_each full note_key [] ≡ visit_all full note 0 2 [])
btree_for_each-visit_all_example = btree_for_each-visit_all full note note_key [] full-IsValid

erase_if-Filtered_example :
    Returns (erase_if (λ k. k == 5) 3 roomy 0) (Filtered (λ k. k == 5) (entries roomy))
erase_if-Filtered_example = erase_if-Filtered (λ k. k == 5) roomy roomy-IsValid (omega arith)

-- The first entry is removed, and the index wraps.
erase_if_runs : Returns (erase_if (λ k. k == 5) 3 roomy 0) (λ u. entries u ≡ (9, 3 ∷ 4 ∷ []) ∷ [])
unfolding erase_if
erase_if_runs = refl

for_each_runs : btree_for_each full note [] ≡ done (9 ∷ 5 ∷ [])
unfolding btree_for_each
for_each_runs = refl
