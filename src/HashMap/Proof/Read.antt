-- ===== src/HashMap/Proof/Read.antt =====
-- Reads of slots, keys and values inside the object, and the steps of the probing
-- (cstructures/src/hashmap.c).
use cstructures.Prelude.{
  ℕ, suc, ◌+◌, ◌*◌, ◌%◌, ◌<◌, ◌≡◌, ◌∙◌, ap, Option, none, some, List, done, arith,
}
use cstructures.Prelude.Word.{word, add32, mul32, mul32-eq, entry-le, mul-le}
use cstructures.Buffer.{Block, read-eq}
use cstructures.HashMap.Struct.{
  HashMap, value_offset, read_slot, read_key, read_value, hash_wrapper,
}
use cstructures.HashMap.Probe.{advance}
use cstructures.HashMap.Valid.{slot_at, key_at, value_at, probe, InUse, Owns, IsValid}
use cstructures.HashMap.Proof.Sound.{probe-lt}

-- The wrapped hash is not a reserved slot.
pub hash_wrapper-InUse : (hm : HashMap) (key : List ℕ) → InUse (hash_wrapper hm key)
unfolding hash_wrapper
hash_wrapper-InUse hm key = (ground arith, ground arith)

pub hash_wrapper-lt :
    (hm : HashMap) (key : List ℕ) → hm.hash key < word → hash_wrapper hm key < word
unfolding hash_wrapper
hash_wrapper-lt hm key h = ground arith

-- A step of the loops is a round of the probing.
pub advance-probe :
    (hm : HashMap) (hash n : ℕ)
    → IsValid hm
    → n < 2 * hm.table_count
    → advance hm (probe hm.table_count hash n) (add32 n 1) ≡ probe hm.table_count hash (suc n)
advance-probe hm hash n valid lt =
    let t = hm.table_count in
    let p = probe-lt t hash n valid.slots in
    let e : add32 (probe t hash n) (add32 n 1) ≡ probe t hash n + suc n =
      omega (arith, p, valid.small) in
    ap (λ s. s % t) e

-- Reads inside the object.
module _ (hm : HashMap) (p : ℕ) (valid : IsValid hm) (lt : p < hm.table_count) where
  pub read_slot-eq : read_slot hm p ≡ done (slot_at hm p)
  unfolding read_slot
  read_slot-eq = go hm.storage hm.table_count hm.key_size hm.value_size valid.owns lt
    where
      go :
          (o : Option Block) (t ks vs : ℕ)
          → let u : HashMap = record hm {
            storage = o;
            table_count = t;
            key_size = ks;
            value_size = vs;
          } in
            Owns o t ks vs → p < t → read_slot u p ≡ done (slot_at u p)
      go none t ks vs own q = absurd own
      go (some b) t ks vs own q =
          rw (read-eq b (p * (4 + ks)) 4 (omega (arith, entry-le p t (4 + ks) q)))

  pub read_key-eq : read_key hm p ≡ done (key_at hm p)
  unfolding read_key
  read_key-eq = go hm.storage hm.table_count hm.key_size hm.value_size valid.owns lt
    where
      go :
          (o : Option Block) (t ks vs : ℕ)
          → let u : HashMap = record hm {
            storage = o;
            table_count = t;
            key_size = ks;
            value_size = vs;
          } in
            Owns o t ks vs → p < t → read_key u p ≡ done (key_at u p)
      go none t ks vs own q = absurd own
      go (some b) t ks vs own q =
          read-eq b (p * (4 + ks) + 4) ks (omega (arith, entry-le p t (4 + ks) q))

  pub value_offset-eq : value_offset hm p ≡ hm.table_count * (4 + hm.key_size) + p * hm.value_size
  value_offset-eq =
      let q = mul-le p hm.table_count hm.value_size (omega arith) in
      let e : mul32 hm.value_size p ≡ p * hm.value_size =
        mul32-eq hm.value_size p (omega (arith, valid.bounded)) ∙ omega arith in
      omega (arith, e)

  pub read_value-eq : read_value hm (value_offset hm p) ≡ done (value_at hm p)
  unfolding read_value
  read_value-eq =
      rw value_offset-eq (go hm.storage hm.table_count hm.key_size hm.value_size valid.owns lt)
    where
      go :
          (o : Option Block) (t ks vs : ℕ)
          → let u : HashMap = record hm {
            storage = o;
            table_count = t;
            key_size = ks;
            value_size = vs;
          } in
            Owns o t ks vs → p < t → read_value u (t * (4 + ks) + p * vs) ≡ done (value_at u p)
      go none t ks vs own q = absurd own
      go (some b) t ks vs own q =
          read-eq b (t * (4 + ks) + p * vs) vs (omega (arith, entry-le p t vs q))
