-- ===== src/HashMap/Proof/Store.antt =====
-- The map after the copies of an insertion (`hashmap_insert` of cstructures/src/hashmap.c).
use cstructures.Prelude.{
  ℕ, ◌+◌, ◌*◌, ◌≤◌, ◌<◌, ◌≡◌, ◌≢◌, refl, sym, ◌∙◌, Option, none, some, List, done, arith, length,
}
use cstructures.Prelude.Word.{word, add32, mul32, mul32-eq, mul-le, entry-le}
use cstructures.Buffer.{Block, memcpy-eq, encode32}
use cstructures.HashMap.Struct.{HashMap, Status, exists, ok, oom, hash_wrapper}
use cstructures.HashMap.Insert.{write_value, store_entry}
use cstructures.HashMap.Valid.{slot_at, key_at, value_at, InUse, IsValid, Has}
use cstructures.HashMap.Proof.Sound.{Sound-insert}
use cstructures.HashMap.Proof.Entry.{
  slot_put, InUse-along, SameShape, KeepsOthers, entry-KeepsOthers,
}
use cstructures.HashMap.Proof.Put.{
  value_put, key_put, all_put, put-here, put-key_here, put-slot, put-key, put-value, put-value_here,
}
use cstructures.HashMap.Proof.Read.{hash_wrapper-InUse, hash_wrapper-lt}
use cstructures.HashMap.Proof.Probe.{Free}

-- A value that is given has the size of the map's values.
abbrev pub Sized : HashMap → Option (List ℕ) → Type 0
Sized hm value = (x : List ℕ) → value ≡ some x → length x ≡ hm.value_size

-- The outcome of an insertion: a valid map of the same sizes with one slot more in use, that has the
-- key, which it did not have, with the value if one is given; the other keys lead to what they led
-- to, and the other slots are as they were; or no change, as the map has the key.
abbrev pub Inserted : HashMap → List ℕ → Option (List ℕ) → Status × HashMap → Type 0
Inserted hm key value (exists, u) = (u ≡ hm) × ((p : ℕ) × Has hm key p)
Inserted hm key value (ok, u) =
    IsValid u
    × ((p : ℕ) → ¬ Has hm key p)
    × ((p : ℕ) × Has u key p
        × ((x : List ℕ) → value ≡ some x → value_at u p ≡ x)
        × ((q : ℕ) → q < hm.table_count → q ≢ p → slot_at u q ≡ slot_at hm q))
    × KeepsOthers hm key u
    × SameShape hm u
    × (u.slots_used ≡ add32 hm.slots_used 1)
Inserted hm key value (oom, u) = ⊥

-- The third copy.
write_value-eq :
    (t ks vs used : ℕ) (hash : List ℕ → ℕ) (b : Block) (p : ℕ) (value : Option (List ℕ))
    → let hm : HashMap = record {
      table_count = t;
      key_size = ks;
      value_size = vs;
      slots_used = used;
      hash = hash;
      storage = some b;
    } in
      t * (4 + ks) + t * vs ≤ b.size
      → t * vs < word
      → p < t
      → Sized hm value
      → write_value hm p value
        ≡ done (record hm {
          storage = some (record b { cell = value_put b.cell (t * (4 + ks) + p * vs) vs value });
        })
unfolding write_value
write_value-eq t ks vs used hash b p none fits bounded lt sized = refl
write_value-eq t ks vs used hash b p (some x) fits bounded lt sized =
    let le = mul-le p t vs (omega arith) in
    let e : mul32 vs p ≡ p * vs = mul32-eq vs p (omega arith) ∙ omega arith in
    rw (
      e,
      memcpy-eq b (t * (4 + ks) + p * vs) x vs (omega (arith, entry-le p t vs lt))
          (omega (arith, sized x refl)),
    )

module _ (t ks vs used : ℕ) (hash : List ℕ → ℕ) (b : Block) (p s : ℕ) (key : List ℕ)
    (value : Option (List ℕ)) where
  abbrev old : HashMap
  old = record {
    table_count = t;
    key_size = ks;
    value_size = vs;
    slots_used = used;
    hash = hash;
    storage = some b;
  }

  abbrev new : HashMap
  new = record {
    table_count = t;
    key_size = ks;
    value_size = vs;
    slots_used = add32 used 1;
    hash = hash;
    storage = some (record b { cell = all_put b.cell t ks vs p s key value });
  }

  pub store_entry-eq :
      IsValid old
      → p < t
      → length key ≡ ks
      → Sized old value
      → store_entry old p s key value ≡ done new
  unfolding store_entry
  store_entry-eq valid lt l sized =
      let w = entry-le p t (4 + ks) lt in
      let b₂ : Block = record b { cell = key_put b.cell t ks vs p s key value } in
      rw (
        memcpy-eq b (p * (4 + ks)) (encode32 s) 4 (omega (arith, valid.owns, w)) (omega arith),
        memcpy-eq (record b { cell = slot_put b.cell ks p s }) (p * (4 + ks) + 4) key ks
            (omega (arith, valid.owns, w)) (omega arith),
        write_value-eq t ks vs used hash b₂ p value valid.owns valid.bounded lt sized,
      )

  new-KeepsOthers :
      p < t → s < word → length key ≡ ks → ¬ InUse (slot_at old p) → KeepsOthers old key new
  new-KeepsOthers lt small l free =
      entry-KeepsOthers old new key p refl (put-slot b.cell t ks vs p s key value)
        (put-key b.cell t ks vs p s key value)
        (λ q ne. put-value b.cell t ks vs p s key value q lt ne) (λ k h. absurd (free h.1))
        (λ k h. sym h.2 ∙ put-key_here b.cell t ks vs p s key value lt l)

  new-IsValid :
      (valid : IsValid old)
      → s < word
      → s ≡ hash_wrapper old key
      → length key ≡ ks
      → Free old s p
      → ((q : ℕ) → ¬ Has old key q)
      → IsValid new
  unfolding hash_wrapper
  new-IsValid valid small e l free absent =
      let used = hash_wrapper-InUse old key in
      let lt = free.within in
      record {
        keyed = valid.keyed;
        slots = valid.slots;
        small = valid.small;
        bounded = valid.bounded;
        hashes = valid.hashes;
        owns = valid.owns;
        sound =
            Sound-insert t (hash_wrapper old) (slot_at old) (slot_at new) (key_at old) (key_at new)
              p valid.sound valid.slots (put-slot b.cell t ks vs p s key value)
              (put-key b.cell t ks vs p s key value) key
              (put-here b.cell t ks vs p s key value lt small ∙ e)
              (put-key_here b.cell t ks vs p s key value lt l) used (rw (← e) free.reached)
              (λ q lt' u k. absent q (lt', u, k));
      }

  pub stored-Inserted :
      IsValid old
      → s ≡ hash_wrapper old key
      → length key ≡ ks
      → Sized old value
      → Free old s p
      → ((q : ℕ) → ¬ Has old key q)
      → Inserted old key value (ok, new)
  stored-Inserted valid e l sized free absent =
      let small : s < word = rw e (hash_wrapper-lt old key (valid.hashes key)) in
      let lt = free.within in
      let here = put-here b.cell t ks vs p s key value lt small in
      (
        new-IsValid valid small e l free absent,
        absent,
        (
          p,
          (
            lt,
            InUse-along _ _ (sym (here ∙ e)) (hash_wrapper-InUse old key),
            put-key_here b.cell t ks vs p s key value lt l,
          ),
          λ x given. put-value_here b.cell t ks vs p s key value x given (sized x given),
          put-slot b.cell t ks vs p s key value,
        ),
        new-KeepsOthers lt small l free.free,
        (refl, refl, refl, refl),
        refl,
      )
