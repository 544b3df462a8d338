-- ===== src/HashMap/Proof/Moved.antt =====
-- The map after a rehash (`resize_rehash` of cstructures/src/hashmap.c).
use cstructures.Prelude.{
  ℕ, ◌*◌, ◌^◌, ◌<◌, ◌≡◌, ◌↔◌, refl, sym, ◌∙◌, ap, subst, Bool, true, false, Option, none, some,
  List, done, ◌>>=◌, Returns, Returns->>=, arith, if◌then◌else◌,
}
use cstructures.Prelude.Word.{word, mul32, mul32-eq}
use cstructures.Buffer.{Block, Allocator}
use cstructures.HashMap.Struct.{
  HashMap, slot_unused, malloc_and_init_storage, hash_wrapper, expand_factor,
}
use cstructures.HashMap.Insert.{rehash_loop, insert_nested, resize_rehash}
use cstructures.HashMap.Valid.{slot_at, value_at, IsValid, Has}
use cstructures.HashMap.Proof.Entry.{SameShape}
use cstructures.HashMap.Proof.Init.{Allocated, malloc_and_init_storage-Allocated, empty-Sound}
use cstructures.HashMap.Proof.Room.{unused, unused_all}
use cstructures.HashMap.Proof.Rehash.{Copied}
use cstructures.HashMap.Proof.Resize.{CopiedWhole, rehash_loop-Copied}

-- The map has the key, with the value.
abbrev pub Holds : HashMap → List ℕ → List ℕ → Type 0
Holds hm key x = (p : ℕ) × Has hm key p × (value_at hm p ≡ x)

-- Two maps have the same keys with the same values.
abbrev pub SameEntries : HashMap → HashMap → Type 0
SameEntries hm u = (key x : List ℕ) → Holds hm key x ↔ Holds u key x

-- `u` is a valid map of the same entries with three times as many slots, of which more than two thirds
-- are unused.
pub record Moved (hm u : HashMap) : Type 0 where
  pub valid : IsValid u
  pub shape : SameShape (record hm { table_count = hm.table_count * 3 }) u
  pub used : u.slots_used ≡ hm.slots_used
  pub spare : hm.table_count * 2 < unused u
  pub same : SameEntries hm u

Copied-SameEntries :
    (hm nm : HashMap) (gap : ℕ) → Copied hm gap hm.table_count nm → SameEntries hm nm
Copied-SameEntries hm nm gap c key x = (there, back)
  where
    there : Holds hm key x → Holds nm key x
    there (p, has, v) =
        let (q, own, w) = c.kept p has.0 has.1 in (q, subst (λ z. Has nm z q) has.2 own, w ∙ v)

    back : Holds nm key x → Holds hm key x
    back (q, has, v) =
        let (p, lt, own) = c.only key q has in
        let (q', has', w) = c.kept p own.0 own.1 in
        let same : q' ≡ q =
          c.valid.sound.unique q' q has'.0 has.0 has'.1 has.1 (has'.2 ∙ (own.2 ∙ sym has.2)) in
        (p, own, sym w ∙ (ap (value_at nm) same ∙ v))

-- The number of entries that the struct keeps is that of before.
recounted-Moved :
    (hm nm : HashMap) (gap : ℕ)
    → gap < hm.table_count
    → Copied hm gap hm.table_count nm
    → Moved hm (record nm { slots_used = hm.slots_used })
unfolding hash_wrapper
recounted-Moved hm nm gap lt c = record {
  valid = record {
    keyed = c.valid.keyed;
    slots = c.valid.slots;
    small = c.valid.small;
    bounded = c.valid.bounded;
    hashes = c.valid.hashes;
    owns = c.valid.owns;
    sound = c.valid.sound;
  };
  shape = c.shape;
  used = refl;
  spare = ground (arith, c.few, c.spare, lt);
  same = Copied-SameEntries hm nm gap c;
}

swapped :
    (hm nm : HashMap) (t : ℕ)
    → SameShape (record hm { table_count = t }) nm
    → record hm { storage = nm.storage; table_count = t } ≡ record nm { slots_used = hm.slots_used }
swapped hm nm t (table, keys, values, hash) = rw (table, keys, values, hash) refl

-- The outcome of a rehash.
abbrev pub Rehashed : Allocator → HashMap → Bool × HashMap → Type 0
Rehashed a hm (true, u) = Moved hm u
Rehashed a hm (false, u) = (u ≡ hm) × ((n : ℕ) × (a.malloc n ≡ none))

module _ (a : Allocator) (k : ℕ) (hm : HashMap) (gap : ℕ) (valid : IsValid hm)
    (size : hm.table_count ≡ 2 ^ k) (lt : gap < hm.table_count)
    (free : slot_at hm gap ≡ slot_unused) (narrow : hm.key_size < word)
    (small : hm.table_count * 9 < word) (bounded : hm.table_count * 3 * hm.value_size < word) where
  abbrev fresh : Block → HashMap
  fresh b = record hm { table_count = hm.table_count * 3; slots_used = 0; storage = some b }

  fresh-Copied :
      (b : Block)
      → Allocated a hm.key_size hm.value_size (hm.table_count * 3) (some b)
      → Copied hm gap 0 (fresh b)
  unfolding hash_wrapper
  fresh-Copied b (fits, blank) = record {
    valid = record {
      keyed = valid.keyed;
      slots = omega (arith, valid.slots);
      small = omega arith;
      bounded = bounded;
      hashes = valid.hashes;
      owns = fits;
      sound = empty-Sound (hm.table_count * 3) _ _ _ blank;
    };
    shape = (refl, refl, refl, refl);
    few = ground arith;
    spare = omega (arith, unused_all (fresh b) blank);
    kept = λ p below used. absurd (omega arith);
    only = λ key q has. absurd (has.1.0 (blank q has.0));
  }

  resized-Rehashed :
      Returns (resize_rehash a (insert_nested a 1) hm (hm.table_count * 3)) (Rehashed a hm)
  unfolding resize_rehash
  resized-Rehashed =
      Returns->>= (malloc_and_init_storage a hm.key_size hm.value_size (hm.table_count * 3)) _
        (Allocated a hm.key_size hm.value_size (hm.table_count * 3)) (Rehashed a hm)
        (malloc_and_init_storage-Allocated a hm.key_size hm.value_size (hm.table_count * 3) narrow
          (omega arith) bounded)
        built
    where
      finished :
          (r : Bool × HashMap)
          → CopiedWhole a k hm gap valid size free r
          → Rehashed a hm (
              if r.0
              then (true, record hm { storage = r.1.storage; table_count = hm.table_count * 3 })
              else (false, hm))
      finished (b, nm) (e, c) = rw e (
          subst (Moved hm) (sym (swapped hm nm (hm.table_count * 3) c.shape))
            (recounted-Moved hm nm gap lt c))

      built :
          (o : Option Block)
          → Allocated a hm.key_size hm.value_size (hm.table_count * 3) o
          → Returns
              (elim o [
                | none ↦ done (false, hm)
                | some b ↦ rehash_loop (insert_nested a 1) hm hm.table_count 0 (fresh b) >>= λ r.
                    done (
                      if r.0
                      then (
                        true,
                        record hm { storage = r.1.storage; table_count = hm.table_count * 3 },
                      )
                      else (false, hm))
              ])
              (Rehashed a hm)
      built none h = (refl, h)
      built (some b) h =
          Returns->>= (rehash_loop (insert_nested a 1) hm hm.table_count 0 (fresh b)) _
            (CopiedWhole a k hm gap valid size free) (Rehashed a hm)
            (rehash_loop-Copied a k hm gap valid size free hm.table_count 0 (fresh b) (omega arith)
              (fresh-Copied b h))
            finished

  -- `resize_rehash` of a valid map whose table has 2 ^ k slots, one of them unused, to three times its
  -- size, where no size wraps, does not fault, and its loop ends. It gives a valid map that has the same
  -- keys with the same values, or the allocator refused and nothing has changed.
  pub resize_rehash-Rehashed :
      Returns
        (resize_rehash a (insert_nested a 1) hm (mul32 hm.table_count expand_factor))
        (Rehashed a hm)
  resize_rehash-Rehashed =
      subst (λ n. Returns (resize_rehash a (insert_nested a 1) hm n) (Rehashed a hm))
        (sym (mul32-eq hm.table_count 3 (omega arith))) resized-Rehashed
