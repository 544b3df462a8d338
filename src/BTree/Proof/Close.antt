-- ===== src/BTree/Proof/Close.antt =====
-- The bytes and keys after the moves of a removal (`btree_erase_index` of cstructures/src/btree.c).
use native.Mathlib.Decide.{dec_lt}
use cstructures.Buffer.{decode32, bytes, moved, bytes-moved, bytes-moved_beside}
use cstructures.Prelude.{
  ℕ, suc, ◌+◌, ◌-◌, ◌*◌, ◌≤◌, ◌<◌, ◌≡◌, ◌∙◌, ap, inl, inr, ◌++◌, arith, take, drop,
}
use cstructures.Prelude.Word.{entry-le, mul-le}
use cstructures.BTree.Struct.{BTree}
use cstructures.BTree.Valid.{IsValid, key_of, value_of, entries}

-- The bytes after the two moves, which take one entry more than there is above the one that goes.
module _ (cell : ℕ → ℕ) (m c vs i : ℕ) (lt : i < m) (free : m < c) where
  abbrev pub keys_closed : ℕ → ℕ
  keys_closed = moved cell (i * 4) (i * 4 + 4) (m * 4 - i * 4)

  abbrev pub values_closed : ℕ → ℕ
  values_closed = moved keys_closed (c * 4 + i * vs) (c * 4 + (i * vs + vs)) (m * vs - i * vs)

  -- Keys stand below the values, and the moves of keys stay below them.
  key_region : (off : ℕ) → off + 4 ≤ c * 4 → bytes values_closed off 4 ≡ bytes keys_closed off 4
  key_region off p =
      bytes-moved_beside keys_closed (c * 4 + i * vs) (m * vs - i * vs) off 4
        (c * 4 + (i * vs + vs)) (inl (omega arith))

  value_region : (off : ℕ) → c * 4 ≤ off → bytes keys_closed off vs ≡ bytes cell off vs
  value_region off p =
      bytes-moved_beside cell (i * 4) (m * 4 - i * 4) off vs (i * 4 + 4) (inr (omega arith))

  pub key_low : (k : ℕ) → k < i → key_of values_closed k ≡ key_of cell k
  key_low k p = ap decode32 (
      key_region (k * 4) (omega arith)
      ∙ bytes-moved_beside cell (i * 4) (m * 4 - i * 4) (k * 4) 4 (i * 4 + 4) (inl (omega arith)))

  pub key_high : (k : ℕ) → i ≤ k → suc k < m → key_of values_closed k ≡ key_of cell (suc k)
  key_high k p q = ap decode32 (
      key_region (k * 4) (omega arith)
      ∙ (bytes-moved cell (i * 4) (m * 4 - i * 4) (k * 4) 4 (i * 4 + 4) (omega arith) (omega arith)
          ∙ ap (λ t. bytes cell t 4) (omega arith)))

  pub value_low : (k : ℕ) → k < i → value_of values_closed c vs k ≡ value_of cell c vs k
  value_low k p =
      bytes-moved_beside keys_closed (c * 4 + i * vs) (m * vs - i * vs) (c * 4 + k * vs) vs
        (c * 4 + (i * vs + vs)) (inl (omega (arith, entry-le k i vs p)))
      ∙ value_region (c * 4 + k * vs) (omega arith)

  pub value_high :
      (k : ℕ) → i ≤ k → suc k < m → value_of values_closed c vs k ≡ value_of cell c vs (suc k)
  value_high k p q =
      bytes-moved keys_closed (c * 4 + i * vs) (m * vs - i * vs) (c * 4 + k * vs) vs
        (c * 4 + (i * vs + vs)) (omega (arith, mul-le i k vs p))
        (omega (arith, entry-le (suc k) m vs q, mul-le i m vs (omega arith)))
      ∙ (ap (λ t. bytes keys_closed t vs) (omega (arith, mul-le i k vs p))
          ∙ value_region (c * 4 + suc k * vs) (omega arith))

-- `u` is a valid tree that holds the entries of `t` without the one at `i`.
pub record Removed (t : BTree) (i : ℕ) (u : BTree) : Type 0 where
  pub valid : IsValid u
  pub removed : entries u ≡ take i (entries t) ++ drop (suc i) (entries t)

-- A strictly ascending sequence stays so without one of its numbers.
pub removed-ascends :
    (f g : ℕ → ℕ) (i m : ℕ)
    → ((k : ℕ) → k < i → f k ≡ g k)
    → ((k : ℕ) → i ≤ k → suc k < m → f k ≡ g (suc k))
    → ((p q : ℕ) → p < q → q < m → g p < g q)
    → (p q : ℕ) → p < q
    → suc q < m
    → f p < f q
removed-ascends f g i m low high ascends p q lt qm = elim (dec_lt q i) [
  | yes a ↦ omega (arith, low p (omega arith), low q a, ascends p q lt (omega arith))
  | no b ↦ elim (dec_lt p i) [
    | yes a ↦ omega (arith, low p a, high q (omega arith) qm, ascends p (suc q) (omega arith) qm)
    | no a ↦ omega (
      arith,
      high p (omega arith) (omega arith),
      high q (omega arith) qm,
      ascends (suc p) (suc q) (omega arith) qm,
    )
  ]
]
