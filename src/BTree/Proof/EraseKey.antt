-- ===== src/BTree/Proof/EraseKey.antt =====
-- Removal by key as an update of a finite map (`btree_erase` of cstructures/src/btree.c).
use native.Mathlib.Decide.{dec_lt}
use cstructures.Prelude.{
  ℕ, suc, ◌<◌, ◌≡◌, ◌≢◌, refl, sym, ◌∙◌, ap, none, some, List, Returns, Returns->>=, arith,
  if◌then◌else◌, ◌==◌, Bool, true, false, take, drop, tabulate-split,
}
use cstructures.BTree.Struct.{BTree, Status, not_found, exists, ok, oom}
use cstructures.BTree.Search.{search_key}
use cstructures.BTree.Erase.{btree_erase_index, erase_found, btree_erase}
use cstructures.BTree.Valid.{IsValid, key_at, value_at, entry, entries, lookup}
use cstructures.BTree.Proof.Read.{Searched, search_key-Searched}
use cstructures.BTree.Proof.Find.{Searched-found, Searched-missing}
use cstructures.BTree.Proof.Lookup.{lookup-remove, lookup-tabulate_without}
use cstructures.BTree.Proof.Erase.{btree_erase_index-Removed}
use cstructures.BTree.Proof.Close.{Removed}

-- No other entry has the key of the one at `i`.
keys_apart :
    (t : BTree) (i j : ℕ) → IsValid t → i < t.count → j < t.count → j ≢ i → key_at t j ≢ key_at t i
keys_apart t i j valid p q ne e = elim (dec_lt i j) [
  | yes lt ↦ omega (arith, valid.sorted i j lt q)
  | no ge ↦ omega (arith, valid.sorted j i (omega arith) p)
]

pub lookup-Removed :
    (t u : BTree) (i j : ℕ)
    → IsValid t
    → i < t.count
    → Removed t i u
    → lookup j (entries u) ≡ (if key_at t i == j then none else lookup j (entries t))
lookup-Removed t u i j valid lt r =
    let key : ℕ = key_at t i in
    let a = take i (entries t) in
    let b = drop (suc i) (entries t) in
    ap (lookup j) r.removed
    ∙ (lookup-remove key j (value_at t i) a b (
          lookup-tabulate_without i t.count (entry t) key lt
            (λ k p q. keys_apart t i k valid lt p q))
        ∙ ap (λ e. if key == j then none else lookup j e)
            (sym (tabulate-split i t.count (entry t) lt)))

-- The outcome of the removal of `key`: a map without it, which had it; or no change, as it had not.
abbrev pub Erases : BTree → ℕ → Status × BTree → Type 0
Erases t key (ok, u) =
    IsValid u
    × ((x : List ℕ) × (lookup key (entries t) ≡ some x))
    × ((j : ℕ) → lookup j (entries u) ≡ (if key == j then none else lookup j (entries t)))
Erases t key (not_found, u) = (u ≡ t) × (lookup key (entries t) ≡ none)
Erases t key (exists, u) = ⊥
Erases t key (oom, u) = ⊥

erase_found-Erases :
    (t : BTree) (key : ℕ) (r : ℕ × Bool)
    → IsValid t
    → t.count < t.capacity
    → Searched t key r
    → Returns (erase_found t r) (Erases t key)
unfolding erase_found
erase_found-Erases t key (i, false) valid free s = (refl, Searched-missing t key i s)
erase_found-Erases t key (i, true) valid free s =
    let at = s.found refl in
    Returns->>= (btree_erase_index t i) _ (λ r. (r.0 ≡ key_at t i) × Removed t i r.1) (Erases t key)
      (btree_erase_index-Removed t i valid at.0 free)
      (λ r h. (
        h.1.valid,
        (value_at t i, Searched-found t key i s),
        λ j.
            lookup-Removed t r.1 i j valid at.0 h.1
            ∙ ap (λ k. if k == j then none else lookup j (entries t)) at.1,
      ))

-- `btree_erase` of a valid tree that is not full does not fault. It says ok, and the key, which the
-- map had, leads nowhere, all others to what they led to; or it says that the key is not found,
-- where the map does not have it, and nothing changes.
pub btree_erase-Erases :
    (t : BTree) (key : ℕ)
    → IsValid t
    → t.count < t.capacity
    → Returns (btree_erase t key) (Erases t key)
unfolding btree_erase
btree_erase-Erases t key valid free =
    Returns->>= (search_key t key) (erase_found t) (Searched t key) (Erases t key)
      (search_key-Searched t key valid) (λ r s. erase_found-Erases t key r valid free s)
