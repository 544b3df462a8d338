-- ===== src/HashMap/Proof/Spread.antt =====
-- In a table whose size is a multiple of 2 ^ k, the first 2 ^ k rounds of a probing are at different
-- positions, so that a probing ends where fewer slots are taken (cstructures/src/hashmap.c).
use native.Mathlib.Decide.{ℕ_discrete}
use native.Mathlib.Nat.{add-mul-mod_self_left, mod-add-div'}
use cstructures.Prelude.{
  ℕ, zero, suc, ◌+◌, ◌*◌, ◌/◌, ◌%◌, ◌^◌, ◌≤◌, ◌<◌, ◌≡◌, ◌≢◌, ◌⊎◌, inl, inr, refl, sym, ◌∙◌, ap,
  Bool, true, false, List, arith, ◌==◌, ◌||◌, ==_iff, eq→==, ne→==, Bool-cases,
}
use cstructures.HashMap.Struct.{HashMap, slot_unused, hash_wrapper}
use cstructures.HashMap.Valid.{slot_at, probe, Stops}
use cstructures.HashMap.Proof.Sound.{probe-lt}
use cstructures.HashMap.Proof.Period.{triangle, probe-triangle}
use cstructures.HashMap.Proof.Cover.{Injects, probe-Injects}
use cstructures.HashMap.Proof.Room.{count, count_mono, unused}

-- The position in the large table, in the small one.
mod-factor : (x c m : ℕ) → x % (c * m) % m ≡ x % m
mod-factor x c m =
    let q = x / (c * m) in
    let e : x % (c * m) + m * (c * q) ≡ x =
      ap (λ z. x % (c * m) + z) (grind arith) ∙ mod-add-div' x (c * m) in
    sym (ap (λ z. z % m) (sym e) ∙ add-mul-mod_self_left (x % (c * m)) m (c * q))

probe-factor : (k c hash n : ℕ) → probe (c * 2 ^ k) hash n % 2 ^ k ≡ probe (2 ^ k) hash n
probe-factor k c hash n =
    ap (λ z. z % 2 ^ k) (probe-triangle (c * 2 ^ k) hash n)
    ∙ (mod-factor (hash + triangle n) c (2 ^ k) ∙ sym (probe-triangle (2 ^ k) hash n))

spread : (k c hash : ℕ) → Injects (2 ^ k) (probe (c * 2 ^ k) hash)
spread k c hash i j p q e =
    probe-Injects k hash i j p q
      (sym (probe-factor k c hash i) ∙ (ap (λ z. z % 2 ^ k) e ∙ probe-factor k c hash j))

count-le : (n : ℕ) (f : ℕ → Bool) → count n f ≤ n
count-le zero f = omega arith
count-le (suc n) f = ground (arith, count-le n f)

-- One more passes the second test.
count-less :
    (n p : ℕ) (f g : ℕ → Bool)
    → p < n
    → ((q : ℕ) → q < n → f q ≡ true → g q ≡ true)
    → f p ≡ false
    → g p ≡ true
    → count n f + 1 ≤ count n g
count-less zero p f g lt h fails passes = absurd (omega arith)
count-less (suc n) p f g lt h fails passes = elim (ℕ_discrete n p) [
  | yes same ↦
      let fails' : f n ≡ false = ap f same ∙ fails in
      let passes' : g n ≡ true = ap g same ∙ passes in
      ground (arith, fails', passes', count_mono n f g (λ q r. h q (omega arith)))
  | no ne ↦ ground (
    arith,
    count-less n p f g (omega arith) (λ q r. h q (omega arith)) fails passes,
    h n (omega arith),
  )
]

-- Different places that fail the test are beside those that pass it.
count_beside :
    (m n : ℕ) (f : ℕ → Bool) (g : ℕ → ℕ)
    → Injects m g
    → ((i : ℕ) → i < m → g i < n)
    → ((i : ℕ) → i < m → f (g i) ≡ false)
    → count n f + m ≤ n
count_beside zero n f g inj within fails = omega (arith, count-le n f)
count_beside (suc m) n f g inj within fails =
    let more : ℕ → Bool = λ q. (q == g m) || f q in
    let less =
      count-less n (g m) f more (within m (omega arith)) (λ q r e. ground (arith, e))
        (fails m (omega arith)) (ground (arith, eq→== (g m) (g m) refl)) in
    let rest =
      count_beside m n more g (λ i j p q. inj i j (omega arith) (omega arith))
        (λ i p. within i (omega arith))
        (λ i p.
          let apart : g i ≢ g m = λ e. omega (arith, inj i m (omega arith) (omega arith) e) in
          ground (arith, ne→== (g i) (g m) apart, fails i (omega arith))) in
    omega (arith, less, rest)

-- A bounded search for a place that passes.
search_passing :
    (m : ℕ) (f : ℕ → Bool) → ((i : ℕ) × (i < m) × (f i ≡ true)) ⊎ ((i : ℕ) → i < m → f i ≡ false)
search_passing zero f = inr (λ i p. absurd (omega arith))
search_passing (suc m) f = elim (Bool-cases (f m)) [
  | inl e ↦ inl (m, omega arith, e)
  | inr e ↦ elim (search_passing m f) [
    | inl (i, p, e') ↦ inl (i, omega arith, e')
    | inr fails ↦
        inr (λ i p. elim (ℕ_discrete i m) [
          | yes same ↦ ap f same ∙ e
          | no ne ↦ fails i (omega arith)
        ])
  ]
]

-- In a table of `c` times 2 ^ k slots, of which fewer than 2 ^ k are not unused, the probing for any
-- key meets an unused slot.
pub spread-Stops :
    (k c : ℕ) (hm : HashMap) (key : List ℕ)
    → hm.table_count ≡ c * 2 ^ k
    → 0 < hm.table_count
    → hm.table_count < unused hm + 2 ^ k
    → Stops hm key
spread-Stops k c hm key size slots many =
    let at : ℕ → ℕ = probe hm.table_count (hash_wrapper hm key) in
    let free : ℕ → Bool = λ q. slot_at hm q == slot_unused in
    elim (search_passing (2 ^ k) (λ i. free (at i))) [
      | inl (i, p, e) ↦ (i, (==_iff (slot_at hm (at i)) slot_unused).0 e)
      | inr taken ↦ absurd (
          omega (
            arith,
            count_beside (2 ^ k) hm.table_count free at different
                (λ i p. probe-lt hm.table_count (hash_wrapper hm key) i slots) taken,
          ))
    ]
  where
    different : Injects (2 ^ k) (probe hm.table_count (hash_wrapper hm key))
    different i j p q e = spread k c (hash_wrapper hm key) i j p q (
        ap (λ t. probe t (hash_wrapper hm key) i) (sym size)
        ∙ (e ∙ ap (λ t. probe t (hash_wrapper hm key) j) size))
