-- ===== src/BTree/Proof/Place.antt =====
-- One new entry: the moves and copies of an insertion (`btree_insert_new` and
-- `btree_insert_or_get` of cstructures/src/btree.c).
use native.Mathlib.Decide.{dec_lt}
use cstructures.Buffer.{encode32, Block, pasted, memmove-eq, memcpy-eq, pasted_nothing}
use cstructures.Prelude.{
  ℕ, ◌+◌, ◌-◌, ◌*◌, ◌≤◌, ◌<◌, ◌≡◌, refl, ◌∙◌, Option, none, some, List, done, Returns, arith,
  lt→ltb, le→ltb, length,
}
use cstructures.Prelude.Word.{word, add32, sub32, mul32, mul32-eq, entry-le, mul-le, sub-mul}
use cstructures.BTree.Struct.{BTree}
use cstructures.BTree.Insert.{put_value, place_entry, insert_entry}
use cstructures.BTree.Valid.{IsValid, key_of, key_at, value_offset-eq}
use cstructures.BTree.Proof.Shift.{
  Placed, keys_moved, values_moved, key_put, value_put, key_here, value_here, key_low, key_high,
  value_low, value_high, inserted-ascends,
}

put_value-eq :
    (t : BTree) (b : Block) (i : ℕ) (value : List ℕ)
    → t.capacity * t.value_size < word
    → i < t.capacity
    → t.capacity * (4 + t.value_size) ≤ b.size
    → length value ≡ t.value_size
    → put_value t b i value
      ≡ done
          (record b { cell = pasted b.cell (t.capacity * 4 + i * t.value_size) value t.value_size })
unfolding put_value
put_value-eq t b i value h lt size l = elim (dec_lt 0 t.value_size) [
  | yes p ↦
      let q = entry-le i t.capacity t.value_size lt in
      rw (lt→ltb 0 t.value_size p, value_offset-eq t i h (omega arith))
        (memcpy-eq b (t.capacity * 4 + i * t.value_size) value t.value_size (omega (arith, size, q))
          (omega arith))
  | no p ↦ rw (
    le→ltb 0 t.value_size (omega arith),
    pasted_nothing b.cell (t.capacity * 4 + i * t.value_size) t.value_size value (omega arith),
  )
]

module _ (m c vs i key : ℕ) (value : List ℕ) where
  place_entry-eq :
      (b : Block)
      → let t : BTree = record { buf = some b; count = m; capacity = c; value_size = vs } in
        IsValid t
        → (le : i ≤ m) → (free : m < c) → length value ≡ vs
        → place_entry t b i key value
          ≡ done (record b { cell = value_put b.cell m c vs i key value le free })
  unfolding place_entry
  place_entry-eq b valid le free l =
      let t : BTree = record { buf = some b; count = m; capacity = c; value_size = vs } in
      let moving : sub32 m i ≡ m - i = omega (arith, valid.small) in
      let up : (i + 1) * 4 ≡ i * 4 + 4 = omega arith in
      let n : (m - i) * 4 ≡ m * 4 - i * 4 = omega arith in
      let next : add32 i 1 ≡ i + 1 = omega (arith, valid.small) in
      let upper : c * 4 + (i + 1) * vs ≡ c * 4 + (i * vs + vs) = omega arith in
      let q = mul-le i m vs le in
      let r = entry-le m c vs free in
      let size : mul32 (m - i) vs ≡ m * vs - i * vs =
        mul32-eq (m - i) vs (omega (arith, mul-le (m - i) c vs (omega arith), valid.bounded))
        ∙ sub-mul m i vs le in
      let b₁ : Block = record b { cell = keys_moved b.cell m c vs i key value le free } in
      let b₂ : Block = record b { cell = values_moved b.cell m c vs i key value le free } in
      let b₃ : Block = record b { cell = key_put b.cell m c vs i key value le free } in
      rw
        (
          moving,
          up,
          n,
          next,
          value_offset-eq t (i + 1) valid.bounded (omega arith),
          value_offset-eq t i valid.bounded (omega arith),
          upper,
          size,
          memmove-eq b (i * 4 + 4) (i * 4) (m * 4 - i * 4) (omega (arith, valid.owns))
              (omega (arith, valid.owns)),
          memmove-eq b₁ (c * 4 + (i * vs + vs)) (c * 4 + i * vs) (m * vs - i * vs)
              (omega (arith, valid.owns, q, r)) (omega (arith, valid.owns, q, r)),
          memcpy-eq b₂ (i * 4) (encode32 key) 4 (omega (arith, valid.owns)) (omega arith),
        )
        (put_value-eq t b₃ i value valid.bounded (omega arith) valid.owns.1 l)

  pub insert_entry-Placed :
      (o : Option Block)
      → let t : BTree = record { buf = o; count = m; capacity = c; value_size = vs } in
        IsValid t
        → i ≤ m
        → m < c
        → length value ≡ vs
        → key < word
        → ((j : ℕ) → j < i → key_at t j < key)
        → ((j : ℕ) → i ≤ j → j < m → key < key_at t j)
        → Returns (insert_entry t i key value) (Placed t i key value)
  unfolding insert_entry
  insert_entry-Placed none valid le free l small below above = absurd (omega arith)
  insert_entry-Placed (some b) valid le free l small below above =
      let more : add32 m 1 ≡ m + 1 = omega (arith, valid.small) in
      let low = λ (k : ℕ) (p : k < i). key_low b.cell m c vs i key value le free k p in
      let high =
        λ (k : ℕ) (p : i ≤ k) (q : k < m). key_high b.cell m c vs i key value le free k p q in
      let here = key_here b.cell m c vs i key value le free small in
      rw (place_entry-eq b valid le free l, more)
        (record {
          valid = record {
            room = omega arith;
            small = valid.small;
            bounded = valid.bounded;
            owns = valid.owns;
            sorted =
                inserted-ascends (key_of (value_put b.cell m c vs i key value le free))
                  (key_of b.cell) i m key low here high valid.sorted below above le;
          };
          count = refl;
          value_size = refl;
          here = λ j. (here j, value_here b.cell m c vs i key value le free l j);
          low = λ k p j. (low k p j, value_low b.cell m c vs i key value le free k p j);
          high = λ k p q j. (high k p q j, value_high b.cell m c vs i key value le free k p q j);
        })
