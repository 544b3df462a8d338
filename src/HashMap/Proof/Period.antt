-- ===== src/HashMap/Proof/Period.antt =====
-- The positions of a probing come round after twice the table, so a probing that meets an unused slot
-- meets one within that many rounds (cstructures/src/hashmap.c).
use native.Mathlib.Nat.{mod-lt, add-mul-mod_self_left, mod-add-mod, mod-add-div'}
use cstructures.Prelude.{
  ℕ, zero, suc, ◌+◌, ◌*◌, ◌/◌, ◌%◌, ◌<◌, ◌≡◌, refl, sym, ◌∙◌, ap, List, arith,
}
use cstructures.HashMap.Struct.{HashMap, slot_unused, hash_wrapper}
use cstructures.HashMap.Valid.{slot_at, probe, Stops}

-- 1 + 2 + … + n
abbrev pub triangle : ℕ → ℕ
triangle zero = 0
triangle (suc n) = triangle n + suc n

pub triangle-add : (n m : ℕ) → triangle (n + m) ≡ triangle n + n * m + triangle m
triangle-add n zero = let e : n + 0 ≡ n = omega arith in ap triangle e ∙ omega arith
triangle-add n (suc m) =
    let e : n + suc m ≡ suc (n + m) = omega arith in ap triangle e ∙ omega (arith, triangle-add n m)

pub double-triangle : (n : ℕ) → 2 * triangle n ≡ n * (n + 1)
double-triangle zero = refl
double-triangle (suc n) = omega (arith, double-triangle n)

pub probe-triangle : (t hash n : ℕ) → probe t hash n ≡ (hash + triangle n) % t
probe-triangle t hash zero = ap (λ s. s % t) (omega arith)
probe-triangle t hash (suc n) =
    ap (λ s. (s + suc n) % t) (probe-triangle t hash n)
    ∙ (mod-add-mod (hash + triangle n) t (suc n) ∙ ap (λ s. s % t) (omega arith))

probe-period : (t hash n : ℕ) → probe t hash (n + 2 * t) ≡ probe t hash n
probe-period t hash n =
    let e : hash + triangle (n + 2 * t) ≡ hash + triangle n + t * (2 * n + 2 * t + 1) =
      omega (arith, triangle-add n (2 * t), double-triangle (2 * t)) in
    probe-triangle t hash (n + 2 * t)
    ∙ (ap (λ s. s % t) e
        ∙ (add-mul-mod_self_left (hash + triangle n) t (2 * n + 2 * t + 1)
            ∙ sym (probe-triangle t hash n)))

probe-periods : (t hash n q : ℕ) → probe t hash (n + q * (2 * t)) ≡ probe t hash n
probe-periods t hash n zero = ap (probe t hash) (omega arith)
probe-periods t hash n (suc q) =
    let e : n + suc q * (2 * t) ≡ n + q * (2 * t) + 2 * t = omega arith in
    ap (probe t hash) e ∙ (probe-period t hash (n + q * (2 * t)) ∙ probe-periods t hash n q)

-- A position of the probing is met within two rounds of the table.
pub probe-mod : (t hash n : ℕ) → probe t hash n ≡ probe t hash (n % (2 * t))
probe-mod t hash n =
    let e : n ≡ n % (2 * t) + n / (2 * t) * (2 * t) = sym (mod-add-div' n (2 * t)) in
    ap (probe t hash) e ∙ probe-periods t hash (n % (2 * t)) (n / (2 * t))

-- The rounds of the loops are enough.
pub Stops-within :
    (hm : HashMap) (key : List ℕ)
    → 0 < hm.table_count
    → Stops hm key
    → (n : ℕ) × (n < 2 * hm.table_count)
      × (slot_at hm (probe hm.table_count (hash_wrapper hm key) n) ≡ slot_unused)
Stops-within hm key pos (n, free) =
    let t = hm.table_count in
    (
      n % (2 * t),
      mod-lt n (omega arith),
      ap (slot_at hm) (sym (probe-mod t (hash_wrapper hm key) n)) ∙ free,
    )
