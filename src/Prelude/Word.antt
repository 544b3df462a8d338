-- ===== src/Prelude/Word.antt =====
-- `uint32_t` arithmetic on native numbers: each operation wraps at 2 ^ 32.
use Prim.Native.Nat.{ℕ, suc, ◌+◌, ◌-◌, ◌*◌, ◌%◌, ◌^◌, ◌≤◌, ◌<◌}
use mathlib.Core.Path.{◌≡◌, ap, ◌∙◌}
use mathlib.Core.Logic.{◌≢◌, ◌⊎◌, inl, inr}
use native.Mathlib.Decide.{dec_lt}
use native.Mathlib.Omega.{arith}
use native.Mathlib.Nat.{mod-eq_of_lt}

abbrev pub word : ℕ
word = 2 ^ 32

abbrev pub add32 : ℕ → ℕ → ℕ
add32 a b = (a + b) % word

abbrev pub sub32 : ℕ → ℕ → ℕ
sub32 a b = (a + word - b) % word

abbrev pub mul32 : ℕ → ℕ → ℕ
mul32 a b = (a * b) % word

pub add32-eq : (a b : ℕ) → a + b < word → add32 a b ≡ a + b
add32-eq a b h = mod-eq_of_lt h

pub mul32-eq : (a b : ℕ) → a * b < word → mul32 a b ≡ a * b
mul32-eq a b h = mod-eq_of_lt h

pub sub32-eq : (a b : ℕ) → a < word → b ≤ a → sub32 a b ≡ a - b
sub32-eq a b h p = omega arith

pub mul-le : (a b n : ℕ) → a ≤ b → a * n ≤ b * n
mul-le a b n h = grind arith

-- Entry `i` of a table with entries of `n` bytes ends within the table.
pub entry-le : (i m n : ℕ) → i < m → i * n + n ≤ m * n
entry-le i m n h = omega (arith, mul-le (suc i) m n h)

pub offset-lt : (i k m n : ℕ) → i < m → k < n → i * n + k < m * n
offset-lt i k m n h p = omega (arith, entry-le i m n h)

-- A positive entry size: there are no more entries than bytes.
pub le-mul : (m n : ℕ) → 0 < n → m ≤ m * n
le-mul m n h = grind arith

pub request_eq : (m n : ℕ) → 0 < n → (m + 1) * n < word → mul32 (add32 m 1) n ≡ (m + 1) * n
request_eq m n p h =
    let e : add32 m 1 ≡ m + 1 = add32-eq m 1 (omega (arith, le-mul (m + 1) n p)) in
    ap (λ t. mul32 t n) e ∙ mul32-eq (m + 1) n h

-- Two different entries do not overlap.
pub entry_apart : (k i n : ℕ) → k ≢ i → (k * n + n ≤ i * n) ⊎ (i * n + n ≤ k * n)
entry_apart k i n ne = elim (dec_lt k i) [
  | yes p ↦ inl (entry-le k i n p)
  | no p ↦ inr (entry-le i k n (omega arith))
]

pub sub-mul : (m i n : ℕ) → i ≤ m → (m - i) * n ≡ m * n - i * n
sub-mul m i n h = let e : (m - i) + i ≡ m = omega arith in omega (arith, ap (λ t. t * n) e)
