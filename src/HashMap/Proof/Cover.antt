-- ===== src/HashMap/Proof/Cover.antt =====
-- In a table whose size is a power of two, the probing for any hash comes to every position
-- (cstructures/src/hashmap.c).
use native.Mathlib.Decide.{ℕ_discrete, dec_lt}
use native.Mathlib.Nat.{mod-add-div', mul_comm}
use cstructures.Prelude.{
  ℕ, zero, suc, ◌+◌, ◌-◌, ◌*◌, ◌/◌, ◌%◌, ◌^◌, ◌≤◌, ◌<◌, ◌≡◌, ◌≢◌, ◌⊎◌, inl, inr, sym, ◌∙◌, ap, List,
  arith, ltb, if◌then◌else◌,
}
use cstructures.Prelude.Word.{entry-le, sub-mul}
use cstructures.HashMap.Struct.{HashMap, slot_unused, hash_wrapper}
use cstructures.HashMap.Valid.{slot_at, probe, Stops}
use cstructures.HashMap.Proof.Sound.{probe-lt}
use cstructures.HashMap.Proof.Period.{triangle, triangle-add, double-triangle, probe-triangle}

-- The first `n` values of `f` are different.
abbrev pub Injects : ℕ → (ℕ → ℕ) → Type 0
Injects n f = (i j : ℕ) → i < n → j < n → f i ≡ f j → i ≡ j

-- More numbers than there are below `n` are not all different and below `n`.
pigeonhole : (n : ℕ) (f : ℕ → ℕ) → ((i : ℕ) → i < suc n → f i < n) → ¬ Injects (suc n) f
pigeonhole zero f below inj = absurd (omega (arith, below 0 (omega arith)))
pigeonhole (suc n) f below inj =
    pigeonhole n lowered
      (λ i p. ground (arith, below i (omega arith), below (suc n) (omega arith), apart i p))
      (λ i j p q e. inj i j (omega arith) (omega arith) (same i j p q e))
  where
    lowered : ℕ → ℕ
    lowered i = if ltb (f (suc n)) (f i) then f i - 1 else f i

    apart : (i : ℕ) → i < suc n → f i ≢ f (suc n)
    apart i p e = omega (arith, inj i (suc n) (omega arith) (omega arith) e)

    same : (i j : ℕ) → i < suc n → j < suc n → lowered i ≡ lowered j → f i ≡ f j
    same i j p q e = ground (arith, apart i p, apart j q)

-- A bounded search.
search_below : (n q : ℕ) (f : ℕ → ℕ) → ((i : ℕ) × (i < n) × (f i ≡ q)) ⊎ ((i : ℕ) → i < n → f i ≢ q)
search_below zero q f = inr (λ i p. absurd (omega arith))
search_below (suc n) q f = elim (ℕ_discrete (f n) q) [
  | yes e ↦ inl (n, omega arith, e)
  | no ne ↦ elim (search_below n q f) [
    | inl (i, p, e) ↦ inl (i, omega arith, e)
    | inr none_below ↦ inr (λ i p. elim (ℕ_discrete i n) [
      | yes same ↦ λ e. ne (ap f (sym same) ∙ e)
      | no d ↦ none_below i (omega arith)
    ])
  ]
]

-- `n` different numbers below `n` are all of them.
covers :
    (n : ℕ) (f : ℕ → ℕ)
    → ((i : ℕ) → i < n → f i < n)
    → Injects n f
    → (q : ℕ) → q < n
    → (i : ℕ) × (i < n) × (f i ≡ q)
covers n f below inj q lt = elim (search_below n q f) [
  | inl found ↦ found
  | inr missed ↦ absurd (pigeonhole n more (λ i p. ground (arith, below i)) (different missed))
]
  where
    more : ℕ → ℕ
    more i = if ltb i n then f i else q

    different : ((i : ℕ) → i < n → f i ≢ q) → Injects (suc n) more
    different missed i j p r e = ground (arith, missed i, missed j, inj i j, λ (h : f i ≡ q). h)

-- Twice a factor is twice the product.
mul_twice : (c m n : ℕ) → n ≡ 2 * m → c * n ≡ 2 * (c * m)
mul_twice c m n e = ap (λ z. c * z) e ∙ omega arith

-- An odd factor has no part in a power of two.
odd_cancel : (k a b c : ℕ) → a % 2 ≡ 1 → a * b ≡ c * 2 ^ k → (d : ℕ) × (b ≡ d * 2 ^ k)
odd_cancel zero a b c odd e = (b, omega arith)
odd_cancel (suc k) a b c odd e =
    let x = a / 2 in
    let h = b / 2 in
    let power = mul_twice c (2 ^ k) (2 ^ suc k) (omega arith) in
    let odd_part : a * b ≡ (2 * x + 1) * b = ap (λ z. z * b) (omega arith) in
    let even : b ≡ 2 * h = omega (arith, odd_part, power, e) in
    let half : a * h ≡ c * 2 ^ k = omega (arith, mul_twice a h b even, power, e) in
    let (d, e') = odd_cancel k a h c odd half in
    (d, omega (arith, even, e', mul_twice d (2 ^ k) (2 ^ suc k) (omega arith)))

-- Numbers with one remainder differ by a multiple.
mod_diff : (x y t : ℕ) → x % t ≡ (x + y) % t → (c : ℕ) × (y ≡ c * t)
mod_diff x y t e =
    let v = x / t in
    let u = (x + y) / t in
    let p : x % t + v * t ≡ x = mod-add-div' x t in
    let q : (x + y) % t + u * t ≡ x + y = mod-add-div' (x + y) t in
    elim (dec_lt u v) [
      | yes less ↦ let r : u * t + t ≤ v * t = entry-le u v t less in (0, omega (arith, r, p, q, e))
      | no le ↦
          let r : (u - v) * t ≡ u * t - v * t = sub-mul u v t (omega arith) in
          (u - v, omega (arith, r, p, q, e))
    ]

no_multiple : (s m d : ℕ) → 0 < s → s < m → s ≢ d * m
no_multiple s m zero pos lt e = omega arith
no_multiple s m (suc d) pos lt e = omega arith

-- Two rounds less than the size of the table apart are at different positions.
probe_apart :
    (k hash i d : ℕ) → suc (i + d) < 2 ^ k → probe (2 ^ k) hash i ≢ probe (2 ^ k) hash (i + suc d)
probe_apart k hash i d lt e = contradiction
  where
    step : ℕ
    step = i * suc d + triangle (suc d)

    sum : ℕ
    sum = 2 * i + suc d + 1

    grown : hash + triangle (i + suc d) ≡ hash + triangle i + step
    grown = omega (arith, triangle-add i (suc d))

    remainder : (hash + triangle i) % 2 ^ k ≡ (hash + triangle i + step) % 2 ^ k
    remainder =
        sym (probe-triangle (2 ^ k) hash i)
        ∙ (e ∙ (probe-triangle (2 ^ k) hash (i + suc d) ∙ ap (λ x. x % 2 ^ k) grown))

    product : (c : ℕ) × (suc d * sum ≡ c * 2 ^ suc k)
    product =
        let (c, e') = mod_diff (hash + triangle i) step (2 ^ k) remainder in
        let twice : 2 * step ≡ suc d * sum = grind (arith, double-triangle (suc d)) in
        let power = mul_twice c (2 ^ k) (2 ^ suc k) (omega arith) in
        (c, omega (arith, e', twice, power))

    contradiction : ⊥
    contradiction = elim (ℕ_discrete (suc d % 2) 1) [
      | yes odd ↦
          let (q, m) = odd_cancel (suc k) (suc d) sum product.0 odd product.1 in
          no_multiple sum (2 ^ suc k) q (omega arith) (omega arith) m
      | no even ↦
          let flipped : sum * suc d ≡ product.0 * 2 ^ suc k = mul_comm sum (suc d) ∙ product.1 in
          let (q, m) = odd_cancel (suc k) sum (suc d) product.0 (omega arith) flipped in
          no_multiple (suc d) (2 ^ suc k) q (omega arith) (omega arith) m
    ]

pub probe-Injects : (k hash : ℕ) → Injects (2 ^ k) (probe (2 ^ k) hash)
probe-Injects k hash i j p q e = elim (dec_lt i j) [
  | yes lt ↦
      absurd
        (probe_apart k hash i (j - suc i) (omega arith) (e ∙ ap (probe (2 ^ k) hash) (omega arith)))
  | no le ↦ elim (dec_lt j i) [
    | yes lt ↦ absurd (
        probe_apart k hash j (i - suc j) (omega arith)
          (sym e ∙ ap (probe (2 ^ k) hash) (omega arith)))
    | no ge ↦ omega arith
  ]
]

-- The probing of a table with 2 ^ k slots comes to every slot within as many rounds as the table has
-- slots, from every hash.
pub probe-covers : (k hash q : ℕ) → q < 2 ^ k → (n : ℕ) × (n < 2 ^ k) × (probe (2 ^ k) hash n ≡ q)
probe-covers k hash q lt =
    covers (2 ^ k) (probe (2 ^ k) hash) (λ i p. probe-lt (2 ^ k) hash i (omega arith))
      (probe-Injects k hash) q lt

-- In a table with 2 ^ k slots, the probing for any key meets an unused slot, if there is one.
pub unused-Stops :
    (k : ℕ) (hm : HashMap) (key : List ℕ) (q : ℕ)
    → hm.table_count ≡ 2 ^ k
    → q < hm.table_count
    → slot_at hm q ≡ slot_unused
    → Stops hm key
unused-Stops k hm key q size lt free =
    let (n, within, e) = probe-covers k (hash_wrapper hm key) q (omega arith) in
    (n, ap (λ t. slot_at hm (probe t (hash_wrapper hm key) n)) size ∙ (ap (slot_at hm) e ∙ free))
