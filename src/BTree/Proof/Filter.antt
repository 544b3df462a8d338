-- ===== src/BTree/Proof/Filter.antt =====
-- A loop that removes entries leaves the others (cstructures/include/cstructures/btree.h).
use mathlib.Core.List.{append_assoc}
use cstructures.Prelude.{
  ℕ, zero, suc, ◌+◌, ◌<◌, ◌≡◌, refl, sym, ◌∙◌, ap, Bool, inl, inr, List, [], ◌∷◌, ◌++◌, done, ◌>>=◌,
  Returns, Returns->>=, Returns_and, Returns_mono, Always, Always->>=, Always_any, arith, length,
  length-append, length-tabulate, get_or, take, drop, get_or-tabulate, eq→==, ne→==, if◌then◌else◌,
  Bool-cases, Option-cases,
}
use cstructures.Prelude.Word.{add32, add32-eq}
use cstructures.BTree.Struct.{BTree, read_key}
use cstructures.BTree.Erase.{close_entry, btree_erase_index}
use cstructures.BTree.Iterate.{erase_current_item, erase_if}
use cstructures.BTree.Valid.{IsValid, key_at, entry, entries}
use cstructures.BTree.Proof.Read.{read_key-eq}
use cstructures.BTree.Proof.Close.{Removed}
use cstructures.BTree.Proof.Erase.{btree_erase_index-Removed}

-- The entries whose key does not pass the test.
abbrev pub failing : (ℕ → Bool) → List (ℕ × List ℕ) → List (ℕ × List ℕ)
failing test [] = []
failing test (e ∷ es) = if test e.0 then failing test es else e ∷ failing test es

get_or-middle {ℓ} :
    {A : Type ℓ} (xs ys : List A) (x d : A) → get_or (xs ++ x ∷ ys) (length xs) d ≡ x
get_or-middle [] ys x d = refl
get_or-middle (y ∷ xs) ys x d = get_or-middle xs ys x d

take-drop-middle {ℓ} :
    {A : Type ℓ} (xs ys : List A) (x : A)
    → take (length xs) (xs ++ x ∷ ys) ++ drop (suc (length xs)) (xs ++ x ∷ ys) ≡ xs ++ ys
take-drop-middle [] ys x = refl
take-drop-middle (y ∷ xs) ys x = ap (λ t. y ∷ t) (take-drop-middle xs ys x)

-- A removal keeps the capacity.
erase_index-capacity :
    (t : BTree) (i : ℕ) → Always (btree_erase_index t i) (λ r. r.1.capacity ≡ t.capacity)
unfolding btree_erase_index
erase_index-capacity t i =
    Always->>= (read_key t i) _ (λ k. Unit) _ (Always_any (read_key t i))
      (λ k u. elim (Option-cases t.buf) [
        | inl e ↦ rw e tt
        | inr (b, e) ↦ rw e (
            Always->>= (close_entry t b i) _ (λ b'. Unit) _ (Always_any (close_entry t b i))
              (λ b' u'. refl))
      ])

count-entries : (t : BTree) → length (entries t) ≡ t.count
count-entries t = length-tabulate t.count (entry t)

-- The tree in the loop: what was kept, and what is still to be visited.
record Visiting (t : BTree) (kept rest : List (ℕ × List ℕ)) : Type 0 where
  valid : IsValid t
  free : t.count < t.capacity
  split : entries t ≡ kept ++ rest

count-Visiting :
    (t : BTree) (kept rest : List (ℕ × List ℕ))
    → Visiting t kept rest
    → t.count ≡ length kept + length rest
count-Visiting t kept rest v = sym (count-entries t) ∙ (ap length v.split ∙ length-append kept rest)

-- The outcome of a round: the entry is removed, or it stays.
module _ (test : ℕ → Bool) (t : BTree) (kept rest : List (ℕ × List ℕ)) (e : ℕ × List ℕ)
    (v : Visiting t kept (e ∷ rest)) where
  here : key_at t (length kept) ≡ e.0
  here =
      let lt : length kept < t.count = omega (arith, count-Visiting t kept (e ∷ rest) v) in
      ap (λ p. p.0)
        (sym (get_or-tabulate t.count (entry t) (length kept) e lt)
          ∙ (ap (λ es. get_or es (length kept) e) v.split ∙ get_or-middle kept rest e e))

  removed :
      Returns
        (erase_current_item t (length kept))
        (λ r. Visiting r.0 kept rest × (add32 r.1 1 ≡ length kept))
  unfolding erase_current_item
  removed =
      let lt : length kept < t.count = omega (arith, count-Visiting t kept (e ∷ rest) v) in
      Returns->>= (btree_erase_index t (length kept)) _
        (λ r.
          ((r.0 ≡ key_at t (length kept)) × Removed t (length kept) r.1)
          × (r.1.capacity ≡ t.capacity))
        _
        (Returns_and (btree_erase_index t (length kept)) _ _
          (btree_erase_index-Removed t (length kept) v.valid lt v.free)
          (erase_index-capacity t (length kept)))
        (λ r (h, capacity). (shrunk r.1 h.1 capacity, omega (arith, lt, v.free, v.valid.small)))
    where
      shrunk :
          (u : BTree) → Removed t (length kept) u → u.capacity ≡ t.capacity → Visiting u kept rest
      shrunk u r capacity =
          let parts : entries u ≡ kept ++ rest =
            r.removed
            ∙ (ap (λ es. take (length kept) es ++ drop (suc (length kept)) es) v.split
                ∙ take-drop-middle kept rest e) in
          let count : u.count ≡ length kept + length rest =
            sym (count-entries u) ∙ (ap length parts ∙ length-append kept rest) in
          record {
            valid = r.valid;
            free = omega (arith, count, capacity, v.free, count-Visiting t kept (e ∷ rest) v);
            split = parts;
          }

  stays : Visiting t (kept ++ e ∷ []) rest
  stays = record {
    valid = v.valid;
    free = v.free;
    split = v.split ∙ sym (append_assoc kept (e ∷ []) rest);
  }

-- The state after a round, before the rest of the loop.
abbrev Next : (ℕ → Bool) → List (ℕ × List ℕ) → ℕ × List ℕ → List (ℕ × List ℕ) → BTree × ℕ → Type 0
Next test kept e rest r =
    (kept' : List (ℕ × List ℕ)) × Visiting r.0 kept' rest
    × (add32 r.1 1 ≡ length kept')
    × (kept' ++ failing test rest ≡ kept ++ failing test (e ∷ rest))

round-Next :
    (test : ℕ → Bool) (t : BTree) (kept rest : List (ℕ × List ℕ)) (e : ℕ × List ℕ)
    → Visiting t kept (e ∷ rest)
    → Returns
        (if test (key_at t (length kept))
          then erase_current_item t (length kept)
          else done (t, length kept))
        (Next test kept e rest)
round-Next test t kept rest e v = rw (here test t kept rest e v) (elim (Bool-cases (test e.0)) [
  | inl pass ↦ rw pass (
      Returns_mono (erase_current_item t (length kept)) _ _ (removed test t kept rest e v)
        (λ r h. (kept, h.0, h.1, rw pass refl)))
  | inr keep ↦ rw keep (
    kept ++ e ∷ [],
    stays test t kept rest e v,
    add32-eq (length kept) 1
          (omega (arith, count-Visiting t kept (e ∷ rest) v, v.free, v.valid.small))
        ∙ sym (length-append kept (e ∷ [])),
    append_assoc kept (e ∷ []) (failing test rest) ∙ rw keep refl,
  )
])

erase_if-more :
    (test : ℕ → Bool) (fuel : ℕ) (t : BTree) (idx : ℕ)
    → IsValid t
    → idx < t.count
    → erase_if test (suc fuel) t idx ≡ (
        (if test (key_at t idx) then erase_current_item t idx else done (t, idx)) >>= λ r.
        erase_if test fuel r.0 (add32 r.1 1))
unfolding erase_if
erase_if-more test fuel t idx valid lt =
    rw
      (
        erase_if,
        ne→== idx t.count (omega arith),
        read_key-eq t idx valid (omega (arith, valid.room)),
        ◌>>=◌,
      )
      refl

-- The outcome of the loop.
abbrev pub Filtered : (ℕ → Bool) → List (ℕ × List ℕ) → BTree → Type 0
Filtered test es u = IsValid u × (entries u ≡ failing test es)

erase_if-loop :
    (test : ℕ → Bool) (rest : List (ℕ × List ℕ)) (fuel : ℕ) (kept : List (ℕ × List ℕ)) (t : BTree)
    → length rest < fuel
    → Visiting t kept rest
    → Returns
        (erase_if test fuel t (length kept))
        (λ u. IsValid u × (entries u ≡ kept ++ failing test rest))
unfolding erase_if
erase_if-loop test rest zero kept t lt v = absurd (omega arith)
erase_if-loop test [] (suc fuel) kept t lt v =
    rw (erase_if, eq→== (length kept) t.count (omega (arith, count-Visiting t kept [] v)))
      (v.valid, v.split)
erase_if-loop test (e ∷ rest) (suc fuel) kept t lt v =
    rw
      (erase_if-more test fuel t (length kept) v.valid
        (omega (arith, count-Visiting t kept (e ∷ rest) v)))
      (Returns->>=
        (if test (key_at t (length kept))
          then erase_current_item t (length kept)
          else done (t, length kept))
        _ (Next test kept e rest) _ (round-Next test t kept rest e v)
        (λ r (kept', v', next, same). rw next (
          Returns_mono (erase_if test fuel r.0 (length kept')) _ _
            (erase_if-loop test rest fuel kept' r.0 (omega arith) v') (λ u h. (h.0, h.1 ∙ same)))))

-- A loop over the keys of a valid tree that is not full, which removes the current item where the key
-- passes a test, ends and does not fault: it visits every entry once, and leaves exactly those whose
-- key does not pass, in order. The index that wraps where the first entry is removed does no harm.
pub erase_if-Filtered :
    (test : ℕ → Bool) (t : BTree)
    → IsValid t
    → t.count < t.capacity
    → Returns (erase_if test (suc t.count) t 0) (Filtered test (entries t))
erase_if-Filtered test t valid free =
    erase_if-loop test (entries t) (suc t.count) [] t (omega (arith, count-entries t))
      (record { valid = valid; free = free; split = refl })
