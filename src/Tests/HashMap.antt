-- ===== src/Tests/HashMap.antt =====
-- Runs of the hash map's operations on concrete maps, and instances of its properties.
use cstructures.Prelude.{
  ℕ, zero, suc, ◌%◌, ◌<◌, ◌≡◌, ◌≢◌, refl, sym, ◌∙◌, ap, subst, none, some, List, Exec, [], ◌∷◌,
  done, fault, Returns, arith, length,
}
use native.Mathlib.Nat.{mod-lt}
use cstructures.Prelude.Word.{word}
use cstructures.HashMap.Struct.{HashMap, ok, hash_wrapper}
use cstructures.HashMap.Probe.{find_loop}
use cstructures.HashMap.Find.{hashmap_find, hashmap_erase}
use cstructures.HashMap.Insert.{hashmap_insert}
use cstructures.HashMap.Valid.{
  slot_at, key_at, value_at, InUse, Reaches, Sound, IsValid, Has, Stops,
}
use cstructures.HashMap.Proof.Find.{Found, hashmap_find-Found, hashmap_find-endless}
use cstructures.HashMap.Proof.Erase.{Erased, hashmap_erase-Erased}
use cstructures.HashMap.Proof.Insert.{hashmap_insert-Inserted}
use cstructures.HashMap.Proof.Store.{Sized, Inserted}
use cstructures.HashMap.Iterate.{hashmap_for_each}
use cstructures.HashMap.Proof.Iterate.{used_from, visit_all, hashmap_for_each-visit_all}
use cstructures.HashMap.Proof.Ends.{Ends, probing-Ends}
use cstructures.Tests.Memory.{object, generous}

-- The first byte.
abbrev pub first_byte : List ℕ → ℕ
first_byte [] = 7
first_byte (x ∷ xs) = x % word

pub first_byte-lt : (key : List ℕ) → first_byte key < word
first_byte-lt [] = omega arith
first_byte-lt (x ∷ xs) = mod-lt x (omega arith)

-- Four entries of one byte each: key 9 in slot 1, and a tombstone in slot 2.
abbrev small_map : HashMap
small_map = record {
  table_count = 4;
  key_size = 1;
  value_size = 1;
  slots_used = 1;
  hash = first_byte;
  storage = some (
      object 24 (
        0 ∷ 0 ∷ 0 ∷ 0 ∷ 0 ∷ 9 ∷ 0 ∷ 0 ∷ 0 ∷ 9 ∷ 1 ∷ 0 ∷ 0 ∷ 0 ∷ 3 ∷ 0 ∷ 0 ∷ 0 ∷ 0 ∷ 0 ∷ 0 ∷ 40 ∷ 0
        ∷ 0 ∷ []));
}

-- One entry, which is in use.
abbrev full_map : HashMap
full_map = record {
  table_count = 1;
  key_size = 1;
  value_size = 0;
  slots_used = 1;
  hash = first_byte;
  storage = some (object 5 (9 ∷ 0 ∷ 0 ∷ 0 ∷ 9 ∷ []));
}

only_slot : (p : ℕ) → p < 4 → InUse (slot_at small_map p) → p ≡ 1
only_slot zero lt u = absurd (u.0 refl)
only_slot (suc zero) lt u = refl
only_slot (suc (suc zero)) lt u = absurd (u.1 refl)
only_slot (suc (suc (suc zero))) lt u = absurd (u.0 refl)
only_slot (suc (suc (suc (suc p)))) lt u = absurd (omega arith)

small_map-Sound : Sound 4 (hash_wrapper small_map) (slot_at small_map) (key_at small_map)
unfolding hash_wrapper
small_map-Sound = record {
  hashed = λ p lt u.
      subst (λ q. slot_at small_map q ≡ hash_wrapper small_map (key_at small_map q))
        (sym (only_slot p lt u)) refl;
  reached = λ p lt u.
      subst (λ q. Reaches 4 (slot_at small_map) (slot_at small_map q) q) (sym (only_slot p lt u))
        (0, refl, λ m r. absurd (omega arith));
  unique = λ p q lt lt' u u' e. only_slot p lt u ∙ sym (only_slot q lt' u');
}

small_map-IsValid : IsValid small_map
small_map-IsValid = record {
  keyed = omega arith;
  slots = omega arith;
  small = omega arith;
  bounded = omega arith;
  hashes = first_byte-lt;
  owns = omega arith;
  sound = small_map-Sound;
}

only_place : (p : ℕ) → p < 1 → p ≡ 0
only_place p lt = omega arith

full_map-Sound : Sound 1 (hash_wrapper full_map) (slot_at full_map) (key_at full_map)
unfolding hash_wrapper
full_map-Sound = record {
  hashed = λ p lt u.
      subst (λ q. slot_at full_map q ≡ hash_wrapper full_map (key_at full_map q))
        (sym (only_place p lt)) refl;
  reached = λ p lt u.
      subst (λ q. Reaches 1 (slot_at full_map) (slot_at full_map q) q) (sym (only_place p lt))
        (0, refl, λ m r. absurd (omega arith));
  unique = λ p q lt lt' u u' e. omega arith;
}

full_map-IsValid : IsValid full_map
full_map-IsValid = record {
  keyed = omega arith;
  slots = omega arith;
  small = omega arith;
  bounded = omega arith;
  hashes = first_byte-lt;
  owns = omega arith;
  sound = full_map-Sound;
}

small_map-Stops : Stops small_map (9 ∷ [])
unfolding hash_wrapper
small_map-Stops = (2, refl)

small_map-Stops_new : Stops small_map (6 ∷ [])
unfolding hash_wrapper
small_map-Stops_new = (1, refl)

value-Sized : Sized small_map (some (41 ∷ []))
value-Sized x e = let same : 41 ∷ [] ≡ x = cc in ap length (sym same)

full_map-free : (p : ℕ) → p < 1 → slot_at full_map p ≢ 0
full_map-free p lt = subst (λ q. slot_at full_map q ≢ 0) (sym (only_place p lt)) (omega arith)

full_map-absent : (p : ℕ) → ¬ Has full_map (6 ∷ []) p
full_map-absent p (lt, u, k) =
    absurd (other (subst (λ q. key_at full_map q ≡ 6 ∷ []) (only_place p lt) k))
  where
    other : key_at full_map 0 ≢ 6 ∷ []
    other e = omega (arith, ap first_byte e)

hashmap_find-Found_example : Returns (hashmap_find small_map (9 ∷ [])) (Found small_map (9 ∷ []))
hashmap_find-Found_example = hashmap_find-Found small_map (9 ∷ []) small_map-IsValid small_map-Stops

hashmap_find-endless_example :
    find_loop 100 full_map
      (6 ∷ [])
      (hash_wrapper full_map (6 ∷ []))
      (hash_wrapper full_map (6 ∷ []) % 1)
      0
    ≡ fault
hashmap_find-endless_example =
    hashmap_find-endless 100 full_map (6 ∷ []) full_map-IsValid full_map-free full_map-absent

hashmap_erase-Erased_example :
    Returns (hashmap_erase small_map (9 ∷ [])) (Erased small_map (9 ∷ []))
hashmap_erase-Erased_example =
    hashmap_erase-Erased small_map (9 ∷ []) small_map-IsValid small_map-Stops

hashmap_insert-Inserted_example :
    Returns
      (hashmap_insert generous small_map (6 ∷ []) (some (41 ∷ [])))
      (Inserted small_map (6 ∷ []) (some (41 ∷ [])))
hashmap_insert-Inserted_example =
    hashmap_insert-Inserted generous small_map (6 ∷ []) (some (41 ∷ [])) small_map-IsValid refl
      small_map-Stops_new refl value-Sized

-- The tombstone in slot 2 is taken again.
insert_takes_tombstone :
    Returns
      (hashmap_insert generous small_map (6 ∷ []) (some (41 ∷ [])))
      (λ r. (r.0 ≡ ok) × (slot_at r.1 2 ≡ 6) × (value_at r.1 2 ≡ 41 ∷ []) × (r.1.slots_used ≡ 2))
unfolding hashmap_insert
insert_takes_tombstone = (refl, refl, refl, refl)

find_runs : hashmap_find small_map (9 ∷ []) ≡ done (some 21)
unfolding hashmap_find
find_runs = refl

-- A loaded map is rehashed into a table three times as large first.
insert_rehashes : Returns (hashmap_insert generous full_map (6 ∷ []) none) (λ r.
    (r.0 ≡ ok)
    × (r.1.table_count ≡ 3)
    × (slot_at r.1 0 ≡ 9)
    × (slot_at r.1 1 ≡ 6)
    × (r.1.slots_used ≡ 2))
unfolding hashmap_insert
insert_rehashes = (refl, refl, refl, refl, refl)

-- The body counts, and keeps the place of the key.
abbrev note : List ℕ → ℕ → ℕ → Exec (List ℕ)
note s key value = done (key ∷ s)

hashmap_for_each-visit_all_example :
    hashmap_for_each small_map note [] ≡ visit_all small_map note (used_from small_map 4 0) []
hashmap_for_each-visit_all_example = hashmap_for_each-visit_all small_map small_map-IsValid note []

for_each_runs : hashmap_for_each small_map note [] ≡ done (9 ∷ [])
unfolding hashmap_for_each
for_each_runs = refl

probing-Ends_example : Ends small_map (7 ∷ [])
probing-Ends_example = probing-Ends 2 small_map (7 ∷ []) 3 small_map-IsValid refl (omega arith) refl
