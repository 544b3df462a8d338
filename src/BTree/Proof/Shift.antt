-- ===== src/BTree/Proof/Shift.antt =====
-- The bytes and keys after the moves and copies of an insertion (`btree_insert_new` of
-- cstructures/src/btree.c).
use native.Mathlib.Decide.{dec_lt, ℕ_discrete}
use cstructures.Buffer.{
  encode32, decode32, decode32-encode32, bytes, moved, pasted, bytes-moved, bytes-moved_beside,
  bytes-pasted, bytes-pasted_beside,
}
use cstructures.Prelude.{
  ℕ, zero, suc, ◌+◌, ◌-◌, ◌*◌, ◌≤◌, ◌<◌, ◌≡◌, ◌≢◌, ◌⊎◌, refl, ◌∙◌, ap, inl, inr, List, ◌∷◌, ◌++◌,
  arith, length, take, drop, tabulate-insert,
}
use cstructures.Prelude.Word.{word, entry-le, entry_apart, mul-le}
use cstructures.BTree.Struct.{BTree}
use cstructures.BTree.Valid.{IsValid, key_of, value_of, entry, entries}

-- `u` has one entry more than `t`: `key` and `value` at `i`, with the entries from `i` on moved up.
pub record Placed (t : BTree) (i key : ℕ) (value : List ℕ) (u : BTree) : Type 0 where
  pub valid : IsValid u
  pub count : u.count ≡ t.count + 1
  pub value_size : u.value_size ≡ t.value_size
  pub here : entry u i ≡ (key, value)
  pub low : (k : ℕ) → k < i → entry u k ≡ entry t k
  pub high : (k : ℕ) → i ≤ k → k < t.count → entry u (suc k) ≡ entry t k

-- The list that the entries become.
pub entries-Placed :
    {t u : BTree} {i key : ℕ} {value : List ℕ}
    → i ≤ t.count
    → Placed t i key value u
    → entries u ≡ take i (entries t) ++ (key, value) ∷ drop i (entries t)
entries-Placed {t} {u} {i} {key} {value} le p =
    let e : u.count ≡ suc t.count = omega (arith, p.count) in
    rw e (tabulate-insert i t.count (entry u) (entry t) (key, value) le p.low p.here p.high)

-- The bytes after each of the four steps.
module _ (cell : ℕ → ℕ) (m c vs i key : ℕ) (value : List ℕ) (le : i ≤ m) (free : m < c) where
  abbrev pub keys_moved : ℕ → ℕ
  keys_moved = moved cell (i * 4 + 4) (i * 4) (m * 4 - i * 4)

  abbrev pub values_moved : ℕ → ℕ
  values_moved = moved keys_moved (c * 4 + (i * vs + vs)) (c * 4 + i * vs) (m * vs - i * vs)

  abbrev pub key_put : ℕ → ℕ
  key_put = pasted values_moved (i * 4) (encode32 key) 4

  abbrev pub value_put : ℕ → ℕ
  value_put = pasted key_put (c * 4 + i * vs) value vs

  -- A string in the key region is not touched by the writes to values.
  key_region :
      (off : ℕ)
      → off + 4 ≤ c * 4
      → (off + 4 ≤ i * 4) ⊎ (i * 4 + 4 ≤ off)
      → bytes value_put off 4 ≡ bytes keys_moved off 4
  key_region off p q =
      bytes-pasted_beside key_put (c * 4 + i * vs) vs off 4 value (inl (omega arith))
      ∙ (bytes-pasted_beside values_moved (i * 4) 4 off 4 (encode32 key) q
          ∙ bytes-moved_beside keys_moved (c * 4 + (i * vs + vs)) (m * vs - i * vs) off 4
              (c * 4 + i * vs) (inl (omega arith)))

  -- A string in the value region is not touched by the writes to keys.
  value_region :
      (j : ℕ) → j ≢ i → value_of value_put c vs j ≡ bytes values_moved (c * 4 + j * vs) vs
  value_region j ne =
      bytes-pasted_beside key_put (c * 4 + i * vs) vs (c * 4 + j * vs) vs value
        (elim (entry_apart j i vs ne) [
          | inl h ↦ inl (omega (arith, h))
          | inr h ↦ inr (omega (arith, h))
        ])
      ∙ bytes-pasted_beside values_moved (i * 4) 4 (c * 4 + j * vs) vs (encode32 key)
          (inr (omega arith))

  pub key_here : key < word → key_of value_put i ≡ key
  key_here small =
      ap decode32 (
        bytes-pasted_beside key_put (c * 4 + i * vs) vs (i * 4) 4 value (inl (omega arith))
        ∙ bytes-pasted values_moved (i * 4) 4 (encode32 key) refl)
      ∙ decode32-encode32 key small

  pub value_here : length value ≡ vs → value_of value_put c vs i ≡ value
  value_here l = bytes-pasted key_put (c * 4 + i * vs) vs value l

  pub key_low : (k : ℕ) → k < i → key_of value_put k ≡ key_of cell k
  key_low k p = ap decode32 (
      key_region (k * 4) (omega arith) (inl (omega arith))
      ∙ bytes-moved_beside cell (i * 4 + 4) (m * 4 - i * 4) (k * 4) 4 (i * 4) (inl (omega arith)))

  pub key_high : (k : ℕ) → i ≤ k → k < m → key_of value_put (suc k) ≡ key_of cell k
  key_high k p q = ap decode32 (
      key_region (suc k * 4) (omega arith) (inr (omega arith))
      ∙ (bytes-moved cell (i * 4 + 4) (m * 4 - i * 4) (suc k * 4) 4 (i * 4) (omega arith)
            (omega arith)
          ∙ ap (λ t. bytes cell t 4) (omega arith)))

  -- A value region of the moved keys is that of the object.
  above_keys : (off n : ℕ) → c * 4 ≤ off → bytes keys_moved off n ≡ bytes cell off n
  above_keys off n p =
      bytes-moved_beside cell (i * 4 + 4) (m * 4 - i * 4) off n (i * 4) (inr (omega arith))

  pub value_low : (k : ℕ) → k < i → value_of value_put c vs k ≡ value_of cell c vs k
  value_low k p =
      value_region k (omega arith)
      ∙ (bytes-moved_beside keys_moved (c * 4 + (i * vs + vs)) (m * vs - i * vs) (c * 4 + k * vs) vs
            (c * 4 + i * vs) (inl (omega (arith, entry-le k i vs p)))
          ∙ above_keys (c * 4 + k * vs) vs (omega arith))

  pub value_high : (k : ℕ) → i ≤ k → k < m → value_of value_put c vs (suc k) ≡ value_of cell c vs k
  value_high k p q =
      value_region (suc k) (omega arith)
      ∙ (bytes-moved keys_moved (c * 4 + (i * vs + vs)) (m * vs - i * vs) (c * 4 + suc k * vs) vs
            (c * 4 + i * vs) (omega (arith, mul-le i k vs p))
            (omega (arith, entry-le k m vs q, mul-le i m vs le))
          ∙ (ap (λ t. bytes keys_moved t vs) (omega (arith, mul-le i k vs p))
              ∙ above_keys (c * 4 + k * vs) vs (omega arith)))

-- A strictly ascending sequence stays so, if a number between the two parts is put between them.
module _ (f g : ℕ → ℕ) (i m x : ℕ) (low : (k : ℕ) → k < i → f k ≡ g k) (here : f i ≡ x)
    (high : (k : ℕ) → i ≤ k → k < m → f (suc k) ≡ g k)
    (ascends : (p q : ℕ) → p < q → q < m → g p < g q) (below : (j : ℕ) → j < i → g j < x)
    (above : (j : ℕ) → i ≤ j → j < m → x < g j) (le : i ≤ m) where
  after : (p q : ℕ) → p < suc q → i ≤ q → q < m → f p < f (suc q)
  after p q lt iq qm = elim (dec_lt p i) [
    | yes a ↦ omega (arith, low p a, high q iq qm, below p a, above q iq qm)
    | no na ↦ elim (ℕ_discrete p i) [
      | yes e ↦ rw e (omega (arith, here, high q iq qm, above q iq qm))
      | no ne ↦
          let k : ℕ = p - 1 in
          let at : p ≡ suc k = omega arith in
          rw at (
            omega (
              arith,
              high k (omega arith) (omega arith),
              high q iq qm,
              ascends k q (omega arith) qm,
            ))
    ]
  ]

  pub inserted-ascends : (p q : ℕ) → p < q → q < m + 1 → f p < f q
  inserted-ascends p zero lt qm = absurd (omega arith)
  inserted-ascends p (suc q) lt qm = elim (dec_lt q i) [
    | no n ↦ after p q lt (omega arith) (omega arith)
    | yes y ↦ elim (ℕ_discrete (suc q) i) [
      | yes e ↦ rw e (omega (arith, low p (omega arith), here, below p (omega arith)))
      | no ne ↦ omega (
        arith,
        low p (omega arith),
        low (suc q) (omega arith),
        ascends p (suc q) lt (omega arith),
      )
    ]
  ]
