-- ===== src/HashMap/Proof/Erase.antt =====
-- Removal (`hashmap_erase` of cstructures/src/hashmap.c).
use native.Mathlib.Decide.{ℕ_discrete}
use cstructures.Prelude.{
  ℕ, ◌+◌, ◌*◌, ◌<◌, ◌≡◌, refl, sym, ◌∙◌, ap, Option, none, some, List, done, Returns, Returns->>=,
  ◌>>=◌, arith,
}
use cstructures.Prelude.Word.{sub32, entry-le}
use cstructures.Buffer.{Block, memcpy-eq, encode32}
use cstructures.HashMap.Struct.{HashMap, slot_unused, read_value, hash_wrapper}
use cstructures.HashMap.Find.{locate, erase_at, hashmap_erase}
use cstructures.HashMap.Valid.{slot_at, key_at, value_at, IsValid, Has, Stops}
use cstructures.HashMap.Proof.Sound.{Sound-erase}
use cstructures.HashMap.Proof.Entry.{
  slot_put, slot_put-here, slot_put-slot, slot_put-key, slot_put-value, InUse-along, SameShape,
  KeepsOthers, entry-KeepsOthers,
}
use cstructures.HashMap.Proof.Find.{Position, locate-Position}
use cstructures.HashMap.Proof.Read.{read_value-eq}

-- The outcome of a removal of `key`: a valid map of the same sizes without it and with one slot less
-- in use, in which the other keys lead to what they led to, the unused slots are the same, and the
-- pointer leads to the value that the key had; or no change, as the map does not have it.
abbrev pub Erased : HashMap → List ℕ → Option ℕ × HashMap → Type 0
Erased hm key (none, u) = (u ≡ hm) × ((p : ℕ) → ¬ Has hm key p)
Erased hm key (some off, u) =
    IsValid u
    × ((p : ℕ) × Has hm key p × (read_value u off ≡ done (value_at hm p)))
    × ((p : ℕ) → ¬ Has u key p)
    × KeepsOthers hm key u
    × SameShape hm u
    × (u.slots_used ≡ sub32 hm.slots_used 1)
    × ((q : ℕ) → q < hm.table_count → slot_at hm q ≡ slot_unused → slot_at u q ≡ slot_unused)

module _ (t ks vs used : ℕ) (hash : List ℕ → ℕ) (b : Block) (key : List ℕ) (p : ℕ) where
  abbrev old : HashMap
  old = record {
    table_count = t;
    key_size = ks;
    value_size = vs;
    slots_used = used;
    hash = hash;
    storage = some b;
  }

  abbrev new : HashMap
  new = record {
    table_count = t;
    key_size = ks;
    value_size = vs;
    slots_used = sub32 used 1;
    hash = hash;
    storage = some (record b { cell = slot_put b.cell ks p 1 });
  }

  new-KeepsOthers : Has old key p → KeepsOthers old key new
  new-KeepsOthers has =
      entry-KeepsOthers old new key p refl (λ q lt. slot_put-slot b.cell ks p 1 q)
        (λ q lt ne. slot_put-key b.cell ks p 1 q)
        (λ q ne. slot_put-value b.cell ks p 1 t vs q has.0) (λ k h. sym h.2 ∙ has.2)
        (λ k h. absurd (h.1.1 (slot_put-here b.cell ks p 1 (omega arith))))

  erased-IsValid : IsValid old → Has old key p → IsValid new
  unfolding hash_wrapper
  erased-IsValid valid has = record {
    keyed = valid.keyed;
    slots = valid.slots;
    small = valid.small;
    bounded = valid.bounded;
    hashes = valid.hashes;
    owns = valid.owns;
    sound =
        Sound-erase t (hash_wrapper old) (slot_at old) (slot_at new) (key_at old) (key_at new) p
          valid.sound valid.slots (λ q lt. slot_put-slot b.cell ks p 1 q)
          (λ q lt ne. slot_put-key b.cell ks p 1 q) (slot_put-here b.cell ks p 1 (omega arith));
  }

  erase_at-Erased : IsValid old → Has old key p → Returns (erase_at old (some p)) (Erased old key)
  unfolding erase_at
  erase_at-Erased valid has =
      let v = erased-IsValid valid has in
      rw
        (
          memcpy-eq b (p * (4 + ks)) (encode32 1) 4
              (omega (arith, valid.owns, entry-le p t (4 + ks) has.0)) (omega arith),
          ◌>>=◌,
        )
        (
          v,
          (
            p,
            has,
            read_value-eq new p v has.0 ∙ ap done (slot_put-value b.cell ks p 1 t vs p has.0),
          ),
          gone,
          new-KeepsOthers has,
          (refl, refl, refl, refl),
          refl,
          unused,
        )
    where
      unused : (q : ℕ) → q < t → slot_at old q ≡ slot_unused → slot_at new q ≡ slot_unused
      unused q lt e = elim (ℕ_discrete q p) [
        | yes same ↦ absurd (has.1.0 (ap (slot_at old) (sym same) ∙ e))
        | no d ↦ slot_put-slot b.cell ks p 1 q d ∙ e
      ]

      gone : (q : ℕ) → ¬ Has new key q
      gone q h = elim (ℕ_discrete q p) [
        | yes e ↦ h.1.1 (ap (slot_at new) e ∙ slot_put-here b.cell ks p 1 (omega arith))
        | no d ↦ d (
            valid.sound.unique q p h.0 has.0 (InUse-along _ _ (slot_put-slot b.cell ks p 1 q d) h.1)
              has.1 (sym (slot_put-key b.cell ks p 1 q) ∙ (h.2 ∙ sym has.2)))
      ]

Position-Erased :
    (hm : HashMap) (key : List ℕ) (r : Option ℕ)
    → IsValid hm
    → Position hm key r
    → Returns (erase_at hm r) (Erased hm key)
unfolding erase_at
Position-Erased hm key none valid h = (refl, h)
Position-Erased hm key (some p) valid h =
    go hm.storage hm.table_count hm.key_size hm.value_size hm.slots_used hm.hash valid h
  where
    go :
        (o : Option Block) (t ks vs used : ℕ) (hash : List ℕ → ℕ)
        → let u : HashMap = record {
          table_count = t;
          key_size = ks;
          value_size = vs;
          slots_used = used;
          hash = hash;
          storage = o;
        } in
          IsValid u → Has u key p → Returns (erase_at u (some p)) (Erased u key)
    go none t ks vs used hash valid h = absurd valid.owns
    go (some b) t ks vs used hash valid h = erase_at-Erased t ks vs used hash b key p valid h

-- `hashmap_erase` of a valid map, in which the probing for the key meets an unused slot, ends and
-- does not fault. It takes the key out of the map, keeps all other keys and values, and returns a
-- pointer to the bytes of the key's value; or it returns null and changes nothing, as the map does
-- not have the key.
pub hashmap_erase-Erased :
    (hm : HashMap) (key : List ℕ)
    → IsValid hm
    → Stops hm key
    → Returns (hashmap_erase hm key) (Erased hm key)
unfolding hashmap_erase
hashmap_erase-Erased hm key valid stops =
    Returns->>= (locate hm key) (erase_at hm) (Position hm key) (Erased hm key)
      (locate-Position hm key valid stops) (λ r h. Position-Erased hm key r valid h)
