-- ===== src/BTree/Proof/Lookup.antt =====
-- The entries of a tree as a finite map: what a look-up finds in a table of entries, and in a
-- sequence with one entry more or less.
use native.Mathlib.Decide.{ℕ_discrete}
use cstructures.Prelude.{
  take, drop, ℕ, zero, suc, ◌<◌, ◌≡◌, ◌≢◌, refl, ◌∙◌, ap, none, some, List, [], ◌∷◌, ◌++◌, arith,
  if◌then◌else◌, ◌==◌, tabulate, ne→==, eq→==,
}
use cstructures.BTree.Valid.{lookup}

abbrev pub Entry : Type 0
Entry = ℕ × List ℕ

pub lookup-tabulate-none :
    (n : ℕ) (f : ℕ → Entry) (k : ℕ)
    → ((i : ℕ) → i < n → (f i).0 ≢ k)
    → lookup k (tabulate n f) ≡ none
lookup-tabulate-none zero f k h = refl
lookup-tabulate-none (suc n) f k h =
    rw (ne→== (f 0).0 k (h 0 (omega arith)))
      (lookup-tabulate-none n (λ i. f (suc i)) k (λ i p. h (suc i) (omega arith)))

pub lookup-tabulate_at :
    (n : ℕ) (f : ℕ → Entry) (k i : ℕ)
    → i < n
    → (f i).0 ≡ k
    → ((j : ℕ) → j < i → (f j).0 ≢ k)
    → lookup k (tabulate n f) ≡ some (f i).1
lookup-tabulate_at zero f k i p e h = absurd (omega arith)
lookup-tabulate_at (suc n) f k zero p e h = rw (eq→== (f 0).0 k e)
lookup-tabulate_at (suc n) f k (suc i) p e h =
    rw (ne→== (f 0).0 k (h 0 (omega arith)))
      (lookup-tabulate_at n (λ j. f (suc j)) k i (omega arith) e (λ j q. h (suc j) (omega arith)))

pub lookup-append_left : (k : ℕ) (a b : List Entry) → lookup k (a ++ b) ≡ none → lookup k a ≡ none
lookup-append_left k [] b h = refl
lookup-append_left k ((j, x) ∷ a) b h = ground (arith, lookup-append_left k a b)

-- An entry whose key does not stand before it is found first.
pub lookup-insert :
    (k j : ℕ) (x : List ℕ) (a b : List Entry)
    → lookup k a ≡ none
    → lookup j (a ++ (k, x) ∷ b) ≡ (if k == j then some x else lookup j (a ++ b))
lookup-insert k j x [] b h = refl
lookup-insert k j x ((i, y) ∷ a) b h = ground (arith, lookup-insert k j x a b)

-- Without the entry, its key is not found, if it stood there once.
pub lookup-remove :
    (k j : ℕ) (x : List ℕ) (a b : List Entry)
    → lookup k (a ++ b) ≡ none
    → lookup j (a ++ b) ≡ (if k == j then none else lookup j (a ++ (k, x) ∷ b))
lookup-remove k j x [] b h = ground arith
lookup-remove k j x ((i, y) ∷ a) b h = ground (arith, lookup-remove k j x a b)

-- A key that only the entry at `i` has is not found without it.
pub lookup-tabulate_without :
    (i n : ℕ) (f : ℕ → Entry) (k : ℕ)
    → i < n
    → ((j : ℕ) → j < n → j ≢ i → (f j).0 ≢ k)
    → lookup k (take i (tabulate n f) ++ drop (suc i) (tabulate n f)) ≡ none
lookup-tabulate_without i zero f k lt h = absurd (omega arith)
lookup-tabulate_without zero (suc n) f k lt h =
    lookup-tabulate-none n (λ j. f (suc j)) k (λ j p. h (suc j) (omega arith) (omega arith))
lookup-tabulate_without (suc i) (suc n) f k lt h =
    rw (ne→== (f 0).0 k (h 0 (omega arith) (omega arith))) (
      lookup-tabulate_without i n (λ j. f (suc j)) k (omega arith)
        (λ j p q. h (suc j) (omega arith) (omega arith)))

-- What the other keys lead to, if two tables agree on the keys and on all entries but those of `k`.
pub lookup-tabulate_beside :
    (n : ℕ) (f g : ℕ → Entry) (k j : ℕ)
    → j ≢ k
    → ((i : ℕ) → i < n → (f i).0 ≡ (g i).0)
    → ((i : ℕ) → i < n → (g i).0 ≢ k → (f i).1 ≡ (g i).1)
    → lookup j (tabulate n f) ≡ lookup j (tabulate n g)
lookup-tabulate_beside zero f g k j ne p q = refl
lookup-tabulate_beside (suc n) f g k j ne p q =
    let rest =
      lookup-tabulate_beside n (λ i. f (suc i)) (λ i. g (suc i)) k j ne
        (λ i r. p (suc i) (omega arith)) (λ i r. q (suc i) (omega arith)) in
    elim (ℕ_discrete (g 0).0 j) [
      | yes e ↦
          rw (eq→== (f 0).0 j (p 0 (omega arith) ∙ e), eq→== (g 0).0 j e)
            (ap some (q 0 (omega arith) (omega arith)))
      | no d ↦ rw (ne→== (f 0).0 j (omega (arith, p 0 (omega arith))), ne→== (g 0).0 j d) rest
    ]
