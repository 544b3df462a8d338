-- ===== src/BTree/Proof/Read.antt =====
-- Reads of keys and values inside the object, and the binary search (`btree_find_lower_bound` of
-- cstructures/src/btree.c).
use native.Mathlib.Decide.{dec_lt}
use cstructures.Prelude.{
  ℕ, zero, suc, ◌+◌, ◌-◌, ◌*◌, ◌/◌, ◌≤◌, ◌<◌, ◌≡◌, ◌≢◌, Option, none, some, inl, inr, done, Returns,
  Returns->>=, ◌>>=◌, arith, ◌==◌, lt→ltb, le→ltb, Bool, true, false, Bool-cases,
}
use cstructures.Prelude.Word.{mul-le}
use cstructures.Buffer.{Block, read-eq}
use cstructures.BTree.Struct.{BTree, read_key}
use cstructures.BTree.Search.{lower_bound_loop, btree_find_lower_bound, holds_key, search_key}
use cstructures.BTree.Valid.{Owns, IsValid, key_at}

pub read_key-eq :
    (t : BTree) (i : ℕ) → IsValid t → i < t.capacity → read_key t i ≡ done (key_at t i)
unfolding read_key
read_key-eq t i valid lt = go t.buf t.capacity t.value_size valid.owns lt
  where
    go :
        (o : Option Block) (c n : ℕ)
        → let u : BTree = record { buf = o; count = t.count; capacity = c; value_size = n } in
          Owns o c n → i < c → read_key u i ≡ done (key_at u i)
    go none c n own p = absurd (omega arith)
    go (some b) c n own p =
        rw (read-eq b (i * 4) 4 (omega (arith, own, mul-le (suc i) c (4 + n) p)))

pub keys-le : (t : BTree) (i j : ℕ) → IsValid t → i ≤ j → j < t.count → key_at t i ≤ key_at t j
keys-le t i j valid le lt = elim (dec_lt i j) [
  | yes p ↦ omega (arith, valid.sorted i j p lt)
  | no p ↦ let e : i ≡ j = omega arith in rw e (omega arith)
]

-- `i` splits the keys into those below `key` and those not below it.
pub record LowerBound (t : BTree) (key i : ℕ) : Type 0 where
  pub within : i ≤ t.count
  pub below : (j : ℕ) → j < i → key_at t j < key
  pub above : (j : ℕ) → i ≤ j → j < t.count → key ≤ key_at t j

lower_bound_loop-LowerBound :
    (fuel : ℕ) (t : BTree) (key found len : ℕ)
    → IsValid t
    → len < fuel
    → found + len ≤ t.count
    → ((j : ℕ) → j < found → key_at t j < key)
    → ((j : ℕ) → found + len ≤ j → j < t.count → key ≤ key_at t j)
    → Returns (lower_bound_loop fuel t key found len) (LowerBound t key)
unfolding lower_bound_loop
lower_bound_loop-LowerBound zero t key found len valid enough fits below above =
    absurd (omega arith)
lower_bound_loop-LowerBound (suc fuel) t key found len valid enough fits below above =
    elim (dec_lt 0 len) [
      | no stop ↦
          rw (le→ltb 0 len (omega arith), lower_bound_loop)
            (record {
              within = omega arith;
              below = below;
              above = λ j p q. above j (omega arith) q;
            })
      | yes go ↦
          let mid : ℕ = found + len / 2 in
          let inside : mid < t.count = omega arith in
          rw
            (
              lt→ltb 0 len go,
              read_key-eq t (found + len / 2) valid (omega (arith, valid.room)),
              lower_bound_loop,
            )
            (elim (dec_lt (key_at t mid) key) [
              | yes p ↦
                  rw (lt→ltb (key_at t (found + len / 2)) key p, ◌>>=◌)
                    (lower_bound_loop-LowerBound fuel t key (found + len / 2 + 1)
                      (len - len / 2 - 1) valid (omega arith) (omega arith)
                      (λ j q. omega (arith, keys-le t j mid valid (omega arith) inside))
                      (λ j q r. above j (omega arith) r))
              | no p ↦
                  rw (le→ltb (key_at t (found + len / 2)) key (omega arith), ◌>>=◌)
                    (lower_bound_loop-LowerBound fuel t key found (len / 2) valid (omega arith)
                      (omega arith) below (λ j q r. omega (arith, keys-le t mid j valid q r)))
            ])
    ]

-- `btree_find_lower_bound` of a valid tree does not fault, and returns the index of the first key
-- that is not below the key searched for, or the count.
pub btree_find_lower_bound-LowerBound :
    (t : BTree) (key : ℕ) → IsValid t → Returns (btree_find_lower_bound t key) (LowerBound t key)
unfolding btree_find_lower_bound
btree_find_lower_bound-LowerBound t key valid =
    lower_bound_loop-LowerBound (suc t.count) t key 0 t.count valid (omega arith) (omega arith)
      (λ j p. absurd (omega arith)) (λ j p q. absurd (omega arith))

-- The outcome of a search: the lower bound, with true if the key stands there, and false if no entry
-- has it.
pub record Searched (t : BTree) (key : ℕ) (r : ℕ × Bool) : Type 0 where
  pub bound : LowerBound t key r.0
  pub found : r.1 ≡ true → (r.0 < t.count) × (key_at t r.0 ≡ key)
  pub missing : r.1 ≡ false → (j : ℕ) → j < t.count → key_at t j ≢ key

-- If the key does not stand at the lower bound, it stands nowhere.
module _ (t : BTree) (key i : ℕ) (valid : IsValid t) (b : LowerBound t key i) where
  nowhere_below : (j : ℕ) → j < i → key_at t j ≢ key
  nowhere_below j p e = omega (arith, b.below j p)

  nowhere : (i < t.count → key_at t i ≢ key) → (j : ℕ) → j < t.count → key_at t j ≢ key
  nowhere ne j p = elim (dec_lt j i) [
    | yes q ↦ nowhere_below j q
    | no q ↦ elim (dec_lt i j) [
      | no q' ↦ let e : i ≡ j = omega arith in rw (← e) (ne (omega arith))
      | yes q' ↦ λ e.
          omega
            (arith, valid.sorted i j q' p, b.above i (omega arith) (omega arith), ne (omega arith))
    ]
  ]

  holds_key-Searched : Returns (holds_key t key i) (λ f. Searched t key (i, f))
  unfolding holds_key
  holds_key-Searched = elim (dec_lt i t.count) [
    | no out ↦
        rw (le→ltb i t.count (omega arith))
          (record { bound = b; found = λ e. cc; missing = λ _. nowhere (λ p. absurd (out p)) })
    | yes p ↦
        rw (lt→ltb i t.count p, read_key-eq t i valid (omega (arith, valid.room)))
          (elim (Bool-cases (key_at t i == key)) [
            | inl e ↦ rw e (record { bound = b; found = λ _. (p, ground arith); missing = λ f. cc })
            | inr e ↦
                rw e (record {
                  bound = b;
                  found = λ f. cc;
                  missing = λ _. nowhere (λ q. ground arith);
                })
          ])
  ]

-- The search of a valid tree does not fault, and tells where the key is or that it is not there.
pub search_key-Searched :
    (t : BTree) (key : ℕ) → IsValid t → Returns (search_key t key) (Searched t key)
unfolding search_key
search_key-Searched t key valid =
    Returns->>= (btree_find_lower_bound t key) _ (LowerBound t key) (Searched t key)
      (btree_find_lower_bound-LowerBound t key valid)
      (λ i b.
        Returns->>= (holds_key t key i) _ (λ f. Searched t key (i, f)) (Searched t key)
          (holds_key-Searched t key i valid b) (λ f s. s))
