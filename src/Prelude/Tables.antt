-- ===== src/Prelude/Tables.antt =====
-- How a table of values changes when its function does: the list operations that the changes are.
use Prim.Native.Nat.{ℕ, zero, suc, ◌+◌, ◌-◌, ◌≤◌, ◌<◌}
use mathlib.Core.Path.{◌≡◌, refl, sym, ◌∙◌, ap, ap₂}
use mathlib.Core.List.{[], ◌∷◌, ◌++◌, reverse, reverse-append}
use native.Mathlib.Omega.{arith}
use cstructures.Prelude.Lists.{take, drop, tabulate, tabulate_ext}

module _ {ℓ} {A : Type ℓ} where
  pub tabulate-add :
      (n m l : ℕ) (h f g : ℕ → A)
      → n + m ≡ l
      → ((k : ℕ) → k < n → h k ≡ f k)
      → ((k : ℕ) → k < m → h (n + k) ≡ g k)
      → tabulate l h ≡ tabulate n f ++ tabulate m g
  tabulate-add zero m l h f g e p q =
      let e' : l ≡ m = omega arith in rw e' (tabulate_ext m h g (λ k r. ap h (omega arith) ∙ q k r))
  tabulate-add (suc n) m zero h f g e p q = absurd (omega arith)
  tabulate-add (suc n) m (suc l) h f g e p q = ap₂ ◌∷◌ (p 0 (omega arith)) (
      tabulate-add n m l (λ k. h (suc k)) (λ k. f (suc k)) g (omega arith)
        (λ k r. p (suc k) (omega arith)) (λ k r. ap h (omega arith) ∙ q k r))

  pub tabulate-push :
      (n l : ℕ) (h f : ℕ → A) (x : A)
      → n + 1 ≡ l
      → ((k : ℕ) → k < n → h k ≡ f k)
      → h n ≡ x
      → tabulate l h ≡ tabulate n f ++ x ∷ []
  tabulate-push n l h f x e p q =
      tabulate-add n 1 l h f (λ _. x) e p (λ k r. ap h (omega arith) ∙ q)

  pub tabulate-take : (m n : ℕ) (f : ℕ → A) → m ≤ n → take m (tabulate n f) ≡ tabulate m f
  tabulate-take zero n f h = refl
  tabulate-take (suc m) zero f h = absurd (omega arith)
  tabulate-take (suc m) (suc n) f h =
      ap (λ t. f 0 ∷ t) (tabulate-take m n (λ k. f (suc k)) (omega arith))

  pub tabulate-drop : (n : ℕ) (f : ℕ → A) → drop n (tabulate n f) ≡ []
  tabulate-drop zero f = refl
  tabulate-drop (suc n) f = tabulate-drop n (λ k. f (suc k))

  -- The entry at `i` stands between those below and those above it.
  pub tabulate-split :
      (i n : ℕ) (f : ℕ → A)
      → i < n
      → tabulate n f ≡ take i (tabulate n f) ++ f i ∷ drop (suc i) (tabulate n f)
  tabulate-split i zero f lt = absurd (omega arith)
  tabulate-split zero (suc n) f lt = refl
  tabulate-split (suc i) (suc n) f lt =
      ap (λ t. f 0 ∷ t) (tabulate-split i n (λ k. f (suc k)) (omega arith))

  -- Making room for `x` at `i` and moving the rest up is insertion.
  pub tabulate-insert :
      (i n : ℕ) (h f : ℕ → A) (x : A)
      → i ≤ n
      → ((k : ℕ) → k < i → h k ≡ f k)
      → h i ≡ x
      → ((k : ℕ) → i ≤ k → k < n → h (suc k) ≡ f k)
      → tabulate (suc n) h ≡ take i (tabulate n f) ++ x ∷ drop i (tabulate n f)
  tabulate-insert zero n h f x le p q r =
      ap₂ ◌∷◌ q (tabulate_ext n (λ k. h (suc k)) f (λ k s. r k (omega arith) s))
  tabulate-insert (suc i) zero h f x le p q r = absurd (omega arith)
  tabulate-insert (suc i) (suc n) h f x le p q r = ap₂ ◌∷◌ (p 0 (omega arith)) (
      tabulate-insert i n (λ k. h (suc k)) (λ k. f (suc k)) x (omega arith)
        (λ k s. p (suc k) (omega arith)) q (λ k s t. r (suc k) (omega arith) (omega arith)))

  -- Moving the rest down over `i` is removal.
  pub tabulate-remove :
      (i n : ℕ) (h f : ℕ → A)
      → i ≤ n
      → ((k : ℕ) → k < i → h k ≡ f k)
      → ((k : ℕ) → i ≤ k → k < n → h k ≡ f (suc k))
      → tabulate n h ≡ take i (tabulate (suc n) f) ++ drop (suc i) (tabulate (suc n) f)
  tabulate-remove zero n h f le p r = tabulate_ext n h (λ k. f (suc k)) (λ k s. r k (omega arith) s)
  tabulate-remove (suc i) zero h f le p r = absurd (omega arith)
  tabulate-remove (suc i) (suc n) h f le p r = ap₂ ◌∷◌ (p 0 (omega arith)) (
      tabulate-remove i n (λ k. h (suc k)) (λ k. f (suc k)) (omega arith)
        (λ k s. p (suc k) (omega arith)) (λ k s t. r (suc k) (omega arith) (omega arith)))

  pub tabulate-reverse :
      (n : ℕ) (h f : ℕ → A)
      → ((k : ℕ) → k < n → h k ≡ f (n - 1 - k))
      → tabulate n h ≡ reverse (tabulate n f)
  tabulate-reverse zero h f p = refl
  tabulate-reverse (suc n) h f p =
      ap₂ ◌∷◌ (p 0 (omega arith) ∙ ap f (omega arith)) (
        tabulate-reverse n (λ k. h (suc k)) f (λ k r. p (suc k) (omega arith) ∙ ap f (omega arith)))
      ∙ sym (reverse-append (tabulate n f) (f n ∷ []))
      ∙ ap reverse (sym (tabulate-push n (suc n) f f (f n) (omega arith) (λ k r. refl) refl))
