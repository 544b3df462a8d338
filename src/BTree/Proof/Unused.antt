-- ===== src/BTree/Proof/Unused.antt =====
-- The search for a key that is not in use (`btree_find_unused_key` of cstructures/src/btree.c).
use native.Mathlib.Decide.{ℕ_discrete, dec_lt}
use cstructures.Prelude.{
  ℕ, zero, suc, ◌+◌, ◌≤◌, ◌<◌, ◌≡◌, ◌≢◌, sym, ◌∙◌, ap, Option, none, some, Returns, ◌>>=◌, arith,
  eq→==, ne→==,
}
use cstructures.Prelude.Word.{add32}
use cstructures.Buffer.{Block}
use cstructures.BTree.Struct.{BTree}
use cstructures.BTree.Query.{unused_from, btree_find_unused_key}
use cstructures.BTree.Valid.{IsValid, key_at, entry, entries, lookup}
use cstructures.BTree.Proof.Read.{read_key-eq}
use cstructures.BTree.Proof.Lookup.{lookup-tabulate-none, lookup-tabulate_at}

-- The least key that the map does not have.
pub record LeastUnused (t : BTree) (key : ℕ) : Type 0 where
  pub unused : lookup key (entries t) ≡ none
  pub least : (j : ℕ) → j < key → lookup j (entries t) ≢ none

-- Keys are distinct, so each is at least its index.
index-le : (t : BTree) (i : ℕ) → IsValid t → i < t.count → i ≤ key_at t i
index-le t zero valid lt = omega arith
index-le t (suc i) valid lt =
    omega (arith, index-le t i valid (omega arith), valid.sorted i (suc i) (omega arith) lt)

-- Keys 0, 1, … stand at their own index up to the first gap, and above it every key is larger.
gap-LeastUnused :
    (t : BTree) (i : ℕ)
    → IsValid t
    → i < t.count
    → ((j : ℕ) → j < i → key_at t j ≡ j)
    → i < key_at t i
    → LeastUnused t i
gap-LeastUnused t i valid lt packed gap = record {
  unused = lookup-tabulate-none t.count (entry t) i (λ j p e. elim (dec_lt j i) [
    | yes q ↦ omega (arith, packed j q)
    | no q ↦ elim (ℕ_discrete j i) [
      | yes r ↦ omega (arith, ap (key_at t) r)
      | no r ↦ omega (arith, valid.sorted i j (omega arith) p)
    ]
  ]);
  least = λ j p e. cc (
      lookup-tabulate_at t.count (entry t) j j (omega arith) (packed j p)
        (λ k q r. omega (arith, packed k (omega arith))));
}

unused_from-LeastUnused :
    (fuel : ℕ) (t : BTree) (i gap : ℕ)
    → IsValid t
    → gap < i + fuel
    → i ≤ gap
    → gap < t.count
    → key_at t gap ≢ gap
    → ((j : ℕ) → j < i → key_at t j ≡ j)
    → Returns (unused_from fuel t i) (LeastUnused t)
unfolding unused_from
unused_from-LeastUnused zero t i gap valid enough le lt ne packed = absurd (omega arith)
unused_from-LeastUnused (suc fuel) t i gap valid enough le lt ne packed =
    rw (read_key-eq t i valid (omega (arith, valid.room)), unused_from)
      (elim (ℕ_discrete (key_at t i) i) [
        | yes e ↦
            let next : add32 i 1 ≡ i + 1 = omega (arith, valid.room, valid.small) in
            let past : i ≢ gap = λ r. ne (ap (key_at t) (sym r) ∙ (e ∙ r)) in
            rw (eq→== (key_at t i) i e, next, ◌>>=◌)
              (unused_from-LeastUnused fuel t (i + 1) gap valid (omega arith) (omega (arith, past))
                lt ne
                (λ j p. elim (dec_lt j i) [
                  | yes q ↦ packed j q
                  | no q ↦ let same : j ≡ i = omega arith in rw same e
                ]))
        | no d ↦
            rw (ne→== (key_at t i) i d, ◌>>=◌)
              (gap-LeastUnused t i valid (omega arith) packed
                (omega (arith, d, index-le t i valid (omega arith))))
      ])

-- `btree_find_unused_key` of a valid tree, in which some entry has another key than its index, does
-- not fault, and returns the least key that the map does not have.
pub btree_find_unused_key-LeastUnused :
    (t : BTree) (gap : ℕ)
    → IsValid t
    → gap < t.count
    → key_at t gap ≢ gap
    → Returns (btree_find_unused_key t) (LeastUnused t)
unfolding btree_find_unused_key
btree_find_unused_key-LeastUnused t gap valid lt ne =
    go t.buf t.count t.capacity t.value_size valid lt ne
  where
    go :
        (o : Option Block) (m c n : ℕ)
        → let u : BTree = record { buf = o; count = m; capacity = c; value_size = n } in
          IsValid u
          → gap < m
          → key_at u gap ≢ gap
          → Returns (btree_find_unused_key u) (LeastUnused u)
    go none m c n valid lt ne = absurd (omega (arith, valid.room, valid.owns))
    go (some b) m c n valid lt ne =
        let u : BTree = record { buf = some b; count = m; capacity = c; value_size = n } in
        unused_from-LeastUnused (suc b.size) u 0 gap valid (omega (arith, valid.room, valid.owns))
          (omega arith) lt ne (λ j p. absurd (omega arith))
