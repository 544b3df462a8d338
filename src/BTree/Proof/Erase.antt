-- ===== src/BTree/Proof/Erase.antt =====
-- Removal as an update of a finite map (`btree_erase_index` and `btree_erase` of
-- cstructures/src/btree.c), and the read behind the object that it makes in a full tree.
use cstructures.Buffer.{Block, memmove-eq}
use cstructures.Prelude.{
  ℕ, suc, ◌+◌, ◌-◌, ◌*◌, ◌<◌, ◌≡◌, refl, sym, ◌∙◌, ap, subst, Option, none, some, done, fault,
  Returns, ◌>>=◌, arith, tabulate, tabulate-remove,
}
use cstructures.Prelude.Word.{add32, sub32, mul32, mul32-eq, entry-le, mul-le, sub-mul}
use cstructures.BTree.Struct.{BTree}
use cstructures.BTree.Erase.{close_entry, btree_erase_index}
use cstructures.BTree.Valid.{IsValid, key_of, key_at, entry, value_offset-eq}
use cstructures.BTree.Proof.Read.{read_key-eq}
use cstructures.BTree.Proof.Close.{
  keys_closed, values_closed, key_low, key_high, value_low, value_high, Removed, removed-ascends,
}

module _ (m c vs i : ℕ) where
  close_entry-eq :
      (b : Block)
      → let t : BTree = record { buf = some b; count = m; capacity = c; value_size = vs } in
        IsValid t
        → (lt : i < m) → (free : m < c)
        → close_entry t b i ≡ done (record b { cell = values_closed b.cell m c vs i lt free })
  unfolding close_entry
  close_entry-eq b valid lt free =
      let t : BTree = record { buf = some b; count = m; capacity = c; value_size = vs } in
      let moving : sub32 m i ≡ m - i = omega (arith, valid.small) in
      let up : (i + 1) * 4 ≡ i * 4 + 4 = omega arith in
      let n : (m - i) * 4 ≡ m * 4 - i * 4 = omega arith in
      let next : add32 i 1 ≡ i + 1 = omega (arith, valid.small) in
      let upper : c * 4 + (i + 1) * vs ≡ c * 4 + (i * vs + vs) = omega arith in
      let q = mul-le i m vs (omega arith) in
      let r = entry-le m c vs free in
      let size : mul32 (m - i) vs ≡ m * vs - i * vs =
        mul32-eq (m - i) vs (omega (arith, mul-le (m - i) c vs (omega arith), valid.bounded))
        ∙ sub-mul m i vs (omega arith) in
      let b₁ : Block = record b { cell = keys_closed b.cell m c vs i lt free } in
      rw
        (
          moving,
          up,
          n,
          next,
          value_offset-eq t (i + 1) valid.bounded (omega arith),
          value_offset-eq t i valid.bounded (omega arith),
          upper,
          size,
          memmove-eq b (i * 4) (i * 4 + 4) (m * 4 - i * 4) (omega (arith, valid.owns))
              (omega (arith, valid.owns)),
        )
        (memmove-eq b₁ (c * 4 + i * vs) (c * 4 + (i * vs + vs)) (m * vs - i * vs)
          (omega (arith, valid.owns, q, r)) (omega (arith, valid.owns, q, r)))

  erase_index-Removed :
      (o : Option Block)
      → let t : BTree = record { buf = o; count = m; capacity = c; value_size = vs } in
        IsValid t
        → i < m
        → m < c
        → Returns (btree_erase_index t i) (λ r. (r.0 ≡ key_at t i) × Removed t i r.1)
  unfolding btree_erase_index
  erase_index-Removed none valid lt free = absurd (omega (arith, valid.owns))
  erase_index-Removed (some b) valid lt free =
      let t : BTree = record { buf = some b; count = m; capacity = c; value_size = vs } in
      let less : sub32 m 1 ≡ m - 1 = omega (arith, valid.small) in
      let whole : m ≡ suc (m - 1) = omega arith in
      let cell = values_closed b.cell m c vs i lt free in
      rw (read_key-eq t i valid (omega arith), close_entry-eq b valid lt free, less, ◌>>=◌)
        (
          refl,
          record {
            valid = record {
              room = omega arith;
              small = valid.small;
              bounded = valid.bounded;
              owns = valid.owns;
              sorted = λ p q r s.
                  removed-ascends (key_of cell) (key_of b.cell) i m
                    (λ k p. key_low b.cell m c vs i lt free k p)
                    (λ k p q. key_high b.cell m c vs i lt free k p q) valid.sorted p q r
                    (omega arith);
            };
            removed =
                let e : tabulate m (entry t) ≡ tabulate (suc (m - 1)) (entry t) =
                  ap (λ n. tabulate n (entry t)) whole in
                rw e (
                  tabulate-remove i (m - 1) _ (entry t) (omega arith)
                    (λ k p j. (
                      key_low b.cell m c vs i lt free k p j,
                      value_low b.cell m c vs i lt free k p j,
                    ))
                    (λ k p q j. (
                      key_high b.cell m c vs i lt free k p (omega arith) j,
                      value_high b.cell m c vs i lt free k p (omega arith) j,
                    )));
          },
        )

-- `btree_erase_index` of a valid tree that is not full, at an index below its count, does not fault:
-- it returns the key that stood there, and takes the entry out of the sequence.
pub btree_erase_index-Removed :
    (t : BTree) (i : ℕ)
    → IsValid t
    → i < t.count
    → t.count < t.capacity
    → Returns (btree_erase_index t i) (λ r. (r.0 ≡ key_at t i) × Removed t i r.1)
btree_erase_index-Removed t i valid lt free =
    erase_index-Removed t.count t.capacity t.value_size i t.buf valid lt free

-- The moves take one entry from behind the last. Where the tree is full, that is behind the object.
full-fault :
    (o : Option Block) (m vs i : ℕ)
    → let t : BTree = record { buf = o; count = m; capacity = m; value_size = vs } in
      IsValid t
      → ((b : Block) → o ≡ some b → b.size ≡ m * (4 + vs))
      → i < m
      → btree_erase_index t i ≡ fault
unfolding btree_erase_index
full-fault none m vs i valid exact lt = absurd (omega (arith, valid.owns))
full-fault (some b) m vs i valid exact lt =
    let t : BTree = record { buf = some b; count = m; capacity = m; value_size = vs } in
    let moving : sub32 m i ≡ m - i = omega (arith, valid.small) in
    let next : add32 i 1 ≡ i + 1 = omega (arith, valid.small) in
    let size : mul32 (m - i) vs ≡ m * vs - i * vs =
      mul32-eq (m - i) vs (omega (arith, mul-le (m - i) m vs (omega arith), valid.bounded))
      ∙ sub-mul m i vs (omega arith) in
    let total = exact b refl in
    rw
      (
        read_key-eq t i valid lt,
        moving,
        next,
        size,
        value_offset-eq t (i + 1) valid.bounded (omega arith),
        value_offset-eq t i valid.bounded (omega arith),
        ◌>>=◌,
      )
      (ground (arith, total, mul-le i m vs (omega arith)))

-- `btree_erase_index` of a valid tree that is full, whose object has exactly the size that its
-- capacity asks for, faults at every index below the count.
pub btree_erase_index-full :
    (t : BTree) (b : Block) (i : ℕ)
    → IsValid t
    → t.buf ≡ some b
    → b.size ≡ t.capacity * (4 + t.value_size)
    → t.count ≡ t.capacity
    → i < t.count
    → btree_erase_index t i ≡ fault
btree_erase_index-full t b i valid e size full lt =
    go t.buf t.count t.capacity t.value_size valid e size full lt
  where
    go :
        (o : Option Block) (m c vs : ℕ)
        → let t : BTree = record { buf = o; count = m; capacity = c; value_size = vs } in
          IsValid t
          → o ≡ some b
          → b.size ≡ c * (4 + vs)
          → m ≡ c
          → i < m
          → btree_erase_index t i ≡ fault
    go o m c vs valid e size full lt = rw (← full) (full-fault o m vs i still exact lt)
      where
        still : IsValid (record { buf = o; count = m; capacity = m; value_size = vs })
        still =
            subst (λ n. IsValid (record { buf = o; count = m; capacity = n; value_size = vs }))
              (sym full) valid

        exact : (b' : Block) → o ≡ some b' → b'.size ≡ m * (4 + vs)
        exact b' e' =
            let same : b ≡ b' = cc in
            ap (λ x. x.size) (sym same) ∙ (size ∙ ap (λ n. n * (4 + vs)) (sym full))
