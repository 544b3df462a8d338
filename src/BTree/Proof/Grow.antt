-- ===== src/BTree/Proof/Grow.antt =====
-- Reallocation keeps the entries: the move of the values to behind another capacity
-- (`btree_realloc` of cstructures/src/btree.c).
use cstructures.Buffer.{decode32, Block, Allocator, bytes-realloc}
use cstructures.Prelude.{
  ℕ, ◌+◌, ◌*◌, ◌≤◌, ◌<◌, ◌≡◌, refl, ◌∙◌, ap, inl, inr, Option, none, some, Returns, arith, le→leb,
  lt→leb, Option-cases,
}
use native.Mathlib.Decide.{dec_le}
use cstructures.Prelude.Word.{entry-le, mul-le}
use cstructures.BTree.Struct.{BTree}
use cstructures.BTree.Storage.{clamped, first_alloc, grow_block, shrink_block, btree_realloc}
use cstructures.BTree.Valid.{IsValid, key_of, value_of, key_at, Refuses, OrUnchanged}
use cstructures.BTree.Proof.Move.{
  Kept, Fits, request-eq, Kept-sorted, moved_values, moved_key, moved_value, move_values-eq,
}

module _ (a : Allocator) (m c vs : ℕ) where
  first_alloc-Kept :
      (n : ℕ)
      → let t : BTree = record { buf = none; count = m; capacity = c; value_size = vs } in
        IsValid t
        → 0 < n
        → Fits t n
        → Returns (first_alloc a t n) (OrUnchanged t (Refuses a) (Kept t n))
  unfolding first_alloc
  first_alloc-Kept n valid pos fits =
      let t : BTree = record { buf = none; count = m; capacity = c; value_size = vs } in
      elim (Option-cases (a.malloc (n * (4 + vs)))) [
        | inl e ↦ rw (request-eq t n fits, e, first_alloc) (refl, inl (_, e))
        | inr (b, e) ↦
            let size = a.malloc_size _ b e in
            rw (request-eq t n fits, e, first_alloc)
              (record {
                valid = record {
                  room = omega (arith, valid.room, valid.owns);
                  small = fits.0;
                  bounded = fits.1;
                  owns = (pos, omega arith);
                  sorted = λ i j p q. absurd (omega (arith, valid.room, valid.owns));
                };
                count = refl;
                value_size = refl;
                capacity = refl;
                keys = λ i p. absurd (omega (arith, valid.room, valid.owns));
                values = λ i p. absurd (omega (arith, valid.room, valid.owns));
              })
      ]

  grow_block-Kept :
      (b : Block) (n : ℕ)
      → let t : BTree = record { buf = some b; count = m; capacity = c; value_size = vs } in
        IsValid t
        → c ≤ n
        → Fits t n
        → Returns (grow_block a t b n) (OrUnchanged t (Refuses a) (Kept t n))
  unfolding grow_block
  grow_block-Kept b n valid le fits =
      let t : BTree = record { buf = some b; count = m; capacity = c; value_size = vs } in
      elim (Option-cases (a.realloc b (n * (4 + vs)))) [
        | inl e ↦ rw (request-eq t n fits, e, grow_block) (refl, inr (_, _, e))
        | inr (b', e) ↦
            let size = a.realloc_size b _ b' e in
            let wider = mul-le c n vs le in
            let u : BTree = record t {
              buf = some (record b' { cell = moved_values b'.cell c n vs });
              capacity = n;
            } in
            let keys : (i : ℕ) → i < m → key_at u i ≡ key_at t i = λ i p.
              moved_key b'.cell c n vs i (omega (arith, valid.room))
              ∙ ap decode32 (
                  bytes-realloc a b b' _ (i * 4) 4 e (omega (arith, valid.room))
                    (omega (arith, valid.room, valid.owns))) in
            rw
              (
                request-eq t n fits,
                e,
                move_values-eq t b' n valid.bounded (omega arith) (omega arith),
                grow_block,
              )
              (record {
                valid = record {
                  room = omega (arith, valid.room);
                  small = fits.0;
                  bounded = fits.1;
                  owns = (omega (arith, valid.owns), omega arith);
                  sorted = Kept-sorted t u refl keys valid;
                };
                count = refl;
                value_size = refl;
                capacity = refl;
                keys = keys;
                values = λ i p.
                    moved_value b'.cell c n vs i (omega (arith, valid.room))
                    ∙ bytes-realloc a b b' _ (c * 4 + i * vs) vs e
                        (omega (arith, wider, entry-le i c vs (omega (arith, valid.room))))
                        (omega (arith, valid.owns, entry-le i c vs (omega (arith, valid.room))));
              })
      ]

  -- A capacity below the old one: the outcome of the move, and of a reallocation that keeps it.
  shrink_block-Kept :
      (b : Block) (n : ℕ)
      → let t : BTree = record { buf = some b; count = m; capacity = c; value_size = vs } in
        IsValid t
        → m ≤ n
        → 0 < n
        → n < c
        → Returns (shrink_block a t b n) (OrUnchanged t (Refuses a) (Kept t n))
  unfolding shrink_block
  shrink_block-Kept b n valid le pos lt =
      let t : BTree = record { buf = some b; count = m; capacity = c; value_size = vs } in
      let shorter = mul-le n c vs (omega arith) in
      let fits : Fits t n = (omega (arith, valid.small), omega (arith, valid.bounded)) in
      let b₁ : Block = record b { cell = moved_values b.cell c n vs } in
      let u : Block → BTree = λ w. record t { buf = some w; capacity = n } in
      let key₁ : (i : ℕ) → i < m → key_of b₁.cell i ≡ key_of b.cell i =
        λ i p. moved_key b.cell c n vs i (omega arith) in
      let value₁ : (i : ℕ) → i < m → value_of b₁.cell n vs i ≡ value_of b.cell c vs i =
        λ i p. moved_value b.cell c n vs i (omega (arith, valid.room)) in
      let move =
        move_values-eq t b n valid.bounded (omega (arith, valid.owns))
          (omega (arith, valid.owns)) in
      elim (Option-cases (a.realloc b₁ (n * (4 + vs)))) [
        | inl e ↦
            rw (request-eq t n fits, move, e, shrink_block)
              (record {
                valid = record {
                  room = le;
                  small = fits.0;
                  bounded = fits.1;
                  owns = (pos, omega (arith, valid.owns));
                  sorted = Kept-sorted t (u b₁) refl key₁ valid;
                };
                count = refl;
                value_size = refl;
                capacity = refl;
                keys = key₁;
                values = value₁;
              })
        | inr (b', e) ↦
            let size = a.realloc_size b₁ _ b' e in
            let key₂ : (i : ℕ) → i < m → key_of b'.cell i ≡ key_of b.cell i = λ i p.
              ap decode32
                (bytes-realloc a b₁ b' _ (i * 4) 4 e (omega arith) (omega (arith, valid.owns)))
              ∙ key₁ i p in
            rw (request-eq t n fits, move, e, shrink_block)
              (record {
                valid = record {
                  room = le;
                  small = fits.0;
                  bounded = fits.1;
                  owns = (pos, omega arith);
                  sorted = Kept-sorted t (u b') refl key₂ valid;
                };
                count = refl;
                value_size = refl;
                capacity = refl;
                keys = key₂;
                values = λ i p.
                    bytes-realloc a b₁ b' _ (n * 4 + i * vs) vs e
                      (omega (arith, entry-le i n vs (omega arith)))
                      (omega (arith, valid.owns, entry-le i n vs (omega arith)))
                    ∙ value₁ i p;
              })
      ]

  realloc-Kept :
      (o : Option Block) (n : ℕ)
      → let t : BTree = record { buf = o; count = m; capacity = c; value_size = vs } in
        IsValid t
        → m ≤ clamped n
        → Fits t (clamped n)
        → Returns (btree_realloc a t n) (OrUnchanged t (Refuses a) (Kept t (clamped n)))
  unfolding btree_realloc
  realloc-Kept none n valid le fits = first_alloc-Kept (clamped n) valid (ground arith) fits
  realloc-Kept (some b) n valid le fits = elim (dec_le c (clamped n)) [
    | yes p ↦ rw (le→leb c (clamped n) p) (grow_block-Kept b (clamped n) valid p fits)
    | no p ↦
        rw (lt→leb c (clamped n) (omega arith))
          (shrink_block-Kept b (clamped n) valid le (ground arith) (omega arith))
  ]

-- `btree_realloc` of a valid tree, to a capacity that holds its entries and whose sizes do not
-- wrap, does not fault: it keeps every key and value and has exactly the capacity asked for, at
-- least the least one; or the allocator refused, and nothing has changed.
pub btree_realloc-Kept :
    (a : Allocator) (t : BTree) (n : ℕ)
    → IsValid t
    → t.count ≤ clamped n
    → Fits t (clamped n)
    → Returns (btree_realloc a t n) (OrUnchanged t (Refuses a) (Kept t (clamped n)))
btree_realloc-Kept a t n valid le fits =
    realloc-Kept a t.count t.capacity t.value_size t.buf n valid le fits
