-- ===== src/BTree/Proof/Capacity.antt =====
-- The functions that change the capacity (`btree_reserve` and `btree_compact` of
-- cstructures/src/btree.c).
use cstructures.Prelude.{
  ℕ, ◌≤◌, ◌<◌, ◌≡◌, ◌≢◌, ◌⊎◌, refl, inl, inr, Option, none, Returns, Returns->>=, Returns_mono,
  arith, if◌then◌else◌, ◌==◌, ltb, ne→==, false, Bool-cases,
}
use cstructures.Buffer.{Block, Allocator}
use cstructures.BTree.Struct.{BTree, Status, not_found, exists, ok, oom}
use cstructures.BTree.Storage.{clamped, btree_realloc, btree_reserve, btree_compact}
use cstructures.BTree.Valid.{IsValid, entries, Refuses, OrUnchanged, OrUnchanged-mono}
use cstructures.BTree.Proof.Grow.{btree_realloc-Kept}
use cstructures.BTree.Proof.Move.{Kept, entries-Kept, Fits}

-- A valid tree with the entries of `t`.
abbrev pub Holds : BTree → BTree → Type 0
Holds t u = IsValid u × (entries u ≡ entries t)

-- The outcome of `btree_compact`, and the object that it frees.
pub record Compacted (a : Allocator) (t : BTree) (r : Option Block × BTree) : Type 0 where
  pub holds : Holds t r.1
  pub freed : r.0 ≡ (if t.count == 0 then t.buf else none)
  pub tight :
      (r.1.capacity ≡ (if t.count == 0 then 0 else clamped t.count)) ⊎ ((r.1 ≡ t) × Refuses a)

dropped-Compacted :
    (a : Allocator) (t : BTree)
    → IsValid t
    → t.count ≢ 0
    → (r : Status × BTree) → OrUnchanged t (Refuses a) (Kept t (clamped t.count)) r
    → Compacted a t (none, r.1)
dropped-Compacted a t valid ne (ok, u) k =
    let test : t.count == 0 ≡ false = ne→== t.count 0 ne in
    record { holds = (k.valid, entries-Kept k); freed = rw test; tight = rw test (inl k.capacity) }
dropped-Compacted a t valid ne (oom, u) (e, why) =
    let test : t.count == 0 ≡ false = ne→== t.count 0 ne in
    record { holds = rw e (valid, refl); freed = rw test; tight = inr (e, why) }
dropped-Compacted a t valid ne (exists, u) h = absurd h
dropped-Compacted a t valid ne (not_found, u) h = absurd h

module _ (a : Allocator) where
  -- `btree_reserve` of a valid tree does not fault: it keeps the entries and leaves room for the
  -- size, or the size was above the capacity, the allocator refused, and nothing has changed.
  pub btree_reserve-Holds :
      (t : BTree) (n : ℕ)
      → IsValid t
      → Fits t (clamped n)
      → Returns
          (btree_reserve a t n)
          (OrUnchanged t ((t.capacity < n) × Refuses a) (λ u. Holds t u × (n ≤ u.capacity)))
  unfolding btree_reserve
  btree_reserve-Holds t n valid fits = elim (Bool-cases (ltb t.capacity n)) [
    | inr e ↦ rw e ((valid, refl), ground arith)
    | inl e ↦
        let more : t.capacity < n = ground arith in
        rw e (
          Returns_mono (btree_realloc a t n) _ _
            (btree_realloc-Kept a t n valid (ground (arith, valid.room)) fits)
            (λ r h.
              OrUnchanged-mono t _ _ _ _ r h (λ why. (more, why))
                (λ u k. ((k.valid, entries-Kept k), ground (arith, k.capacity)))))
  ]

  -- `btree_compact` of a valid tree, where the sizes of its count do not wrap, does not fault and
  -- keeps the entries. An empty tree is left without an object and with capacity 0, and its object
  -- is freed; else nothing is freed, and the capacity is the count, at least the least one, unless
  -- the allocator refused, when nothing has changed.
  pub btree_compact-Compacted :
      (t : BTree)
      → IsValid t
      → Fits t (clamped t.count)
      → Returns (btree_compact a t) (Compacted a t)
  unfolding btree_compact
  btree_compact-Compacted t valid fits = elim (Bool-cases (t.count == 0)) [
    | inl e ↦
        let empty : t.count ≡ 0 = ground arith in
        rw e (record {
          holds = (
            record {
              room = omega arith;
              small = omega arith;
              bounded = omega arith;
              owns = refl;
              sorted = λ i j p q. absurd (omega arith);
            },
            rw empty,
          );
          freed = rw e;
          tight = rw e (inl refl);
        })
    | inr e ↦
        let left : t.count ≢ 0 = ground arith in
        rw e (
          Returns->>= (btree_realloc a t t.count) _
            (OrUnchanged t (Refuses a) (Kept t (clamped t.count))) (Compacted a t)
            (btree_realloc-Kept a t t.count valid (ground arith) fits)
            (λ r h. dropped-Compacted a t valid left r h))
  ]
