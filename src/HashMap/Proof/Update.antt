-- ===== src/HashMap/Proof/Update.antt =====
-- Insertion with or without a rehash (`hashmap_insert` of cstructures/src/hashmap.c).
use cstructures.Prelude.{
  ℕ, ◌*◌, ◌^◌, ◌<◌, ◌≡◌, ◌≢◌, ◌↔◌, inl, inr, refl, sym, ◌∙◌, subst, Bool, true, false, Option, none,
  some, List, done, Returns, Returns->>=, Returns_mono, Returns-then, arith, length, if◌then◌else◌,
  Bool-cases,
}
use cstructures.Prelude.Word.{word, mul32}
use cstructures.Buffer.{Allocator}
use cstructures.HashMap.Struct.{HashMap, Status, exists, ok, oom, slot_unused, expand_factor}
use cstructures.HashMap.Insert.{
  is_loaded, insert_nested, resize_rehash, insert_no_rehash, hashmap_insert,
}
use cstructures.HashMap.Valid.{slot_at, value_at, IsValid}
use cstructures.HashMap.Proof.Store.{Sized, Inserted}
use cstructures.HashMap.Proof.Insert.{insert_no_rehash-Inserted, hashmap_insert-Inserted}
use cstructures.HashMap.Proof.Cover.{unused-Stops}
use cstructures.HashMap.Proof.Spread.{spread-Stops}
use cstructures.HashMap.Proof.Moved.{Holds, SameEntries, Rehashed, resize_rehash-Rehashed}

-- The outcome of an insertion, on the values that the map has under its keys: the key was there, and
-- the entries are the same; or it was not, and is there with the value that is given, and all other
-- keys have the values of before; or the allocator refused, and nothing has changed.
abbrev pub Updated : Allocator → HashMap → List ℕ → Option (List ℕ) → Status × HashMap → Type 0
Updated a hm key value (exists, u) = IsValid u × SameEntries hm u × ((x : List ℕ) × Holds hm key x)
Updated a hm key value (ok, u) =
    IsValid u
    × ((x : List ℕ) → ¬ Holds hm key x)
    × ((x : List ℕ) × Holds u key x × ((y : List ℕ) → value ≡ some y → x ≡ y))
    × ((other x : List ℕ) → other ≢ key → Holds hm other x ↔ Holds u other x)
Updated a hm key value (oom, u) = (u ≡ hm) × ((n : ℕ) × (a.malloc n ≡ none))

-- An insertion into a map of the same entries.
Inserted-Updated :
    (a : Allocator) (hm base : HashMap) (key : List ℕ) (value : Option (List ℕ))
    (r : Status × HashMap)
    → IsValid base
    → SameEntries hm base
    → Inserted base key value r
    → Updated a hm key value r
Inserted-Updated a hm base key value (oom, u) valid same h = absurd h
Inserted-Updated a hm base key value (exists, u) valid same (e, (p, has)) = (
  subst IsValid (sym e) valid,
  subst (SameEntries hm) (sym e) same,
  (value_at base p, (same key (value_at base p)).1 (p, has, refl)),
)
Inserted-Updated a hm base key value (ok, u) valid same
      (ready, absent, (p, has, given, slots), keeps, shape, more) =
    (
      ready,
      λ x held. let (q, own, v) = (same key x).0 held in absent q own,
      (value_at u p, (p, has, refl), given),
      λ other x apart. (
        λ held.
            let (q, own, v) = (same other x).0 held in
            (q, (keeps other apart q).0.0 own, (keeps other apart q).1 own ∙ v),
        λ (q, own, v).
            let old = (keeps other apart q).0.1 own in
            (same other x).1 (q, old, sym ((keeps other apart q).1 old) ∙ v),
      ),
    )

module _ (a : Allocator) (k : ℕ) (hm : HashMap) (gap : ℕ) (key : List ℕ) (value : Option (List ℕ))
    (valid : IsValid hm) (size : hm.table_count ≡ 2 ^ k) (lt : gap < hm.table_count)
    (free : slot_at hm gap ≡ slot_unused) (narrow : hm.key_size < word)
    (small : hm.table_count * 9 < word) (bounded : hm.table_count * 3 * hm.value_size < word)
    (l : length key ≡ hm.key_size) (sized : Sized hm value) where
  after_rehash :
      (r : Bool × HashMap)
      → Rehashed a hm r
      → Returns
          (if r.0 then insert_no_rehash r.1 key value else done (oom, r.1))
          (Updated a hm key value)
  after_rehash (false, u) h = h
  after_rehash (true, u) m =
      let (table, keys, values, hash) = m.shape in
      Returns_mono (insert_no_rehash u key value) (Inserted u key value) _
        (insert_no_rehash-Inserted u key value m.valid
          (spread-Stops k 3 u key (omega (arith, table, size)) m.valid.slots
            (omega (arith, table, size, m.spare)))
          (l ∙ sym keys) (λ x e. sized x e ∙ sym values))
        (λ r h. Inserted-Updated a hm u key value r m.valid m.same h)

  loaded-Updated :
      is_loaded hm ≡ true → Returns (hashmap_insert a hm key value) (Updated a hm key value)
  unfolding hashmap_insert insert_nested
  loaded-Updated loaded = Returns-then (is_loaded hm) _ _ _ loaded (
      Returns->>= (resize_rehash a (insert_nested a 1) hm (mul32 hm.table_count expand_factor)) _
        (Rehashed a hm) (Updated a hm key value)
        (resize_rehash-Rehashed a k hm gap valid size lt free narrow small bounded) after_rehash)

  -- `hashmap_insert` into a valid map whose table has 2 ^ k slots, one of them unused, where the sizes
  -- of a table three times as large do not wrap, of a key of its size and of a value of its size or
  -- none, ends and does not fault, whether the load asks for a rehash or not. It says that the key
  -- exists, where it does, and the keys and values are the same; or it says ok, and the map has the
  -- key, which it did not have, with the value, and all other keys with the values of before; or the
  -- allocator refused and nothing has changed. The map is valid again.
  pub hashmap_insert-Updated : Returns (hashmap_insert a hm key value) (Updated a hm key value)
  hashmap_insert-Updated = elim (Bool-cases (is_loaded hm)) [
    | inl loaded ↦ loaded-Updated loaded
    | inr light ↦
        Returns_mono (hashmap_insert a hm key value) (Inserted hm key value) _
          (hashmap_insert-Inserted a hm key value valid light
            (unused-Stops k hm key gap size lt free) l sized)
          (λ r h.
            Inserted-Updated a hm hm key value r valid (λ other x. (λ held. held, λ held. held)) h)
  ]
