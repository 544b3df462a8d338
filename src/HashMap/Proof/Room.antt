-- ===== src/HashMap/Proof/Room.antt =====
-- How many unused slots a map has, and what an insertion and a removal leave of them
-- (cstructures/src/hashmap.c).
use native.Mathlib.Decide.{ℕ_discrete}
use cstructures.Prelude.{
  ℕ, zero, suc, ◌+◌, ◌^◌, ◌≤◌, ◌<◌, ◌≡◌, ◌≢◌, refl, ◌∙◌, Bool, true, inl, inr, Option, some, List,
  arith, ◌==◌, ==_iff, eq→==, if◌then◌else◌, Bool-cases,
}
use cstructures.HashMap.Struct.{HashMap, ok, slot_unused}
use cstructures.HashMap.Valid.{slot_at, Stops}
use cstructures.HashMap.Proof.Store.{Inserted}
use cstructures.HashMap.Proof.Erase.{Erased}
use cstructures.HashMap.Proof.Cover.{unused-Stops}

-- How many numbers below `n` pass a test.
abbrev pub count : ℕ → (ℕ → Bool) → ℕ
count zero f = 0
count (suc n) f = (if f n then 1 else 0) + count n f

pub count_mono :
    (n : ℕ) (f g : ℕ → Bool) → ((q : ℕ) → q < n → f q ≡ true → g q ≡ true) → count n f ≤ count n g
count_mono zero f g h = omega arith
count_mono (suc n) f g h =
    ground (arith, count_mono n f g (λ q p. h q (omega arith)), h n (omega arith))

count_but_one :
    (n p : ℕ) (f g : ℕ → Bool)
    → ((q : ℕ) → q < n → q ≢ p → f q ≡ true → g q ≡ true)
    → count n f ≤ count n g + 1
count_but_one zero p f g h = omega arith
count_but_one (suc n) p f g h = elim (ℕ_discrete n p) [
  | yes e ↦ ground (arith, count_mono n f g (λ q r. h q (omega arith) (omega arith)))
  | no ne ↦ ground (arith, count_but_one n p f g (λ q r. h q (omega arith)), h n (omega arith) ne)
]

count_all : (n : ℕ) (f : ℕ → Bool) → ((q : ℕ) → q < n → f q ≡ true) → count n f ≡ n
count_all zero f h = refl
count_all (suc n) f h = ground (arith, count_all n f (λ q p. h q (omega arith)), h n (omega arith))

count_found : (n : ℕ) (f : ℕ → Bool) → 0 < count n f → (q : ℕ) × (q < n) × (f q ≡ true)
count_found zero f h = absurd (omega arith)
count_found (suc n) f h = elim (Bool-cases (f n)) [
  | inl e ↦ (n, omega arith, e)
  | inr e ↦ let (q, lt, e') = count_found n f (ground arith) in (q, omega arith, e')
]

abbrev pub unused : HashMap → ℕ
unused hm = count hm.table_count (λ q. slot_at hm q == slot_unused)

-- A probing that ends for any key, in a table whose size is a power of two.
pub unused_some-Stops :
    (k : ℕ) (hm : HashMap) (key : List ℕ) → hm.table_count ≡ 2 ^ k → 0 < unused hm → Stops hm key
unused_some-Stops k hm key size some_left =
    let (q, lt, e) = count_found hm.table_count (λ q. slot_at hm q == slot_unused) some_left in
    unused-Stops k hm key q size lt ((==_iff (slot_at hm q) slot_unused).0 e)

pub unused_all :
    (hm : HashMap)
    → ((q : ℕ) → q < hm.table_count → slot_at hm q ≡ slot_unused)
    → unused hm ≡ hm.table_count
unused_all hm h = count_all hm.table_count _ (λ q p. eq→== (slot_at hm q) slot_unused (h q p))

-- An insertion takes one unused slot at most.
pub Inserted-unused :
    (hm u : HashMap) (key : List ℕ) (value : Option (List ℕ))
    → Inserted hm key value (ok, u)
    → unused hm ≤ unused u + 1
Inserted-unused hm u key value
      (valid, absent, (p, has, given, slots), keeps, (table, keys, values, hash), used) =
    rw table (
      count_but_one hm.table_count p _ _ (λ q lt ne e.
        eq→== (slot_at u q) slot_unused (slots q lt ne ∙ (==_iff (slot_at hm q) slot_unused).0 e)))

-- A removal takes none.
pub Erased-unused :
    (hm u : HashMap) (key : List ℕ) (off : ℕ) → Erased hm key (some off, u) → unused hm ≤ unused u
Erased-unused hm u key off (valid, has, gone, keeps, (table, keys, values, hash), used, stay) =
    rw table (
      count_mono hm.table_count _ _ (λ q lt e.
        eq→== (slot_at u q) slot_unused (stay q lt ((==_iff (slot_at hm q) slot_unused).0 e))))
