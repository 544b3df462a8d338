-- ===== src/Hash/Bounds.antt =====
-- The hash of bytes has 32 bits, and the hash of aligned pointers tells near ones apart
-- (cstructures/src/hash.c).
use Prim.Native.Nat.{bit_xor, bit_xor-bitwise, digits, differ}
use native.Mathlib.Nat.{mod-lt}
use cstructures.Prelude.{
  ℕ, zero, suc, ◌/◌, ◌%◌, ◌^◌, ◌<◌, ◌≡◌, ◌≢◌, List, Exec, done, fault, arith, ap,
}
use cstructures.Prelude.Word.{word}
use cstructures.Hash.Defs.{hash32_jenkins_oaat, hash32_combine, hash32_aligned_ptr}

pub hash32_jenkins_oaat-lt : (key : List ℕ) → hash32_jenkins_oaat key < word
unfolding hash32_jenkins_oaat
hash32_jenkins_oaat-lt key = mod-lt _ (omega arith)

differ_small : (x y : ℕ) → x < 2 → y < 2 → differ x y < 2
differ_small zero y p q = q
differ_small (suc zero) zero p q = omega arith
differ_small (suc zero) (suc y) p q = omega arith
differ_small (suc (suc x)) y p q = absurd (omega arith)

digits-lt : (n a b k : ℕ) → a < 2 ^ k → b < 2 ^ k → digits (λ y. y) differ n a b < 2 ^ k
digits-lt zero a b k p q = q
digits-lt (suc n) zero b k p q = q
digits-lt (suc n) (suc a) b zero p q = absurd (omega arith)
digits-lt (suc n) (suc a) b (suc k) p q = omega (
  arith,
  digits-lt n (suc a / 2) (b / 2) k (omega arith) (omega arith),
  differ_small (suc a % 2) (b % 2) (mod-lt _ (omega arith)) (mod-lt _ (omega arith)),
)

bit_xor-lt : (a b k : ℕ) → a < 2 ^ k → b < 2 ^ k → bit_xor a b < 2 ^ k
bit_xor-lt a b k p q = simp bit_xor-bitwise (digits-lt a a b k p q)

pub hash32_combine-lt : (lhs rhs : ℕ) → lhs < word → hash32_combine lhs rhs < word
unfolding hash32_combine
hash32_combine-lt lhs rhs p = bit_xor-lt lhs _ 32 p (mod-lt _ (omega arith))

-- `hash32_aligned_ptr` gives two different pointers, which are multiples of their size and lie below
-- 32 GB, different hashes.
pub hash32_aligned_ptr-distinct :
    (p q : ℕ)
    → p % 8 ≡ 0
    → q % 8 ≡ 0
    → p < 2 ^ 35
    → q < 2 ^ 35
    → p ≢ q
    → hash32_aligned_ptr p 8 ≢ hash32_aligned_ptr q 8
unfolding hash32_aligned_ptr
hash32_aligned_ptr-distinct p q a b lt lt' ne e = omega (arith, same, ne)
  where
    value : Exec ℕ → ℕ
    value (done n) = n
    value fault = 0

    same : p / 8 % word ≡ q / 8 % word
    same = ap value e
