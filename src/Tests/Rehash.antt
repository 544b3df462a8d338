-- ===== src/Tests/Rehash.antt =====
-- A loaded hash map, which an insertion rehashes.
use cstructures.Prelude.{
  ℕ, zero, suc, ◌+◌, ◌<◌, ◌≡◌, refl, sym, ◌∙◌, ap, some, [], ◌∷◌, Returns, arith, length,
}
use cstructures.HashMap.Struct.{HashMap, ok, hash_wrapper}
use cstructures.HashMap.Insert.{hashmap_insert}
use cstructures.HashMap.Valid.{slot_at, key_at, value_at, InUse, Sound, IsValid}
use cstructures.HashMap.Proof.Store.{Sized}
use cstructures.HashMap.Proof.Update.{Updated, hashmap_insert-Updated}
use cstructures.Tests.HashMap.{first_byte, first_byte-lt}
use cstructures.Tests.Memory.{object, generous}

-- Four entries of one byte each: keys 9, 10 and 11 in the slots 1 to 3.
abbrev crowded_map : HashMap
crowded_map = record {
  table_count = 4;
  key_size = 1;
  value_size = 1;
  slots_used = 3;
  hash = first_byte;
  storage = some (
      object 24 (
        0 ∷ 0 ∷ 0 ∷ 0 ∷ 0 ∷ 9 ∷ 0 ∷ 0 ∷ 0 ∷ 9 ∷ 10 ∷ 0 ∷ 0 ∷ 0 ∷ 10 ∷ 11 ∷ 0 ∷ 0 ∷ 0 ∷ 11 ∷ 0 ∷ 40
        ∷ 50 ∷ 60 ∷ []));
}

-- The slot tells the place.
slot_place : (p : ℕ) → p < 4 → InUse (slot_at crowded_map p) → slot_at crowded_map p ≡ p + 8
slot_place zero lt u = absurd (u.0 refl)
slot_place (suc zero) lt u = refl
slot_place (suc (suc zero)) lt u = refl
slot_place (suc (suc (suc zero))) lt u = refl
slot_place (suc (suc (suc (suc p)))) lt u = absurd (omega arith)

slot_hash :
    (p : ℕ)
    → p < 4
    → InUse (slot_at crowded_map p)
    → slot_at crowded_map p ≡ hash_wrapper crowded_map (key_at crowded_map p)
unfolding hash_wrapper
slot_hash zero lt u = absurd (u.0 refl)
slot_hash (suc zero) lt u = refl
slot_hash (suc (suc zero)) lt u = refl
slot_hash (suc (suc (suc zero))) lt u = refl
slot_hash (suc (suc (suc (suc p)))) lt u = absurd (omega arith)

crowded_map-Sound : Sound 4 (hash_wrapper crowded_map) (slot_at crowded_map) (key_at crowded_map)
crowded_map-Sound = record {
  hashed = slot_hash;
  reached = λ p lt u. (0, omega (arith, slot_place p lt u), λ m r. absurd (omega arith));
  unique = λ p q lt lt' u u' e.
      let same = slot_hash p lt u ∙ (ap (hash_wrapper crowded_map) e ∙ sym (slot_hash q lt' u')) in
      omega (arith, slot_place p lt u, slot_place q lt' u', same);
}

crowded_map-IsValid : IsValid crowded_map
crowded_map-IsValid = record {
  keyed = omega arith;
  slots = omega arith;
  small = omega arith;
  bounded = omega arith;
  hashes = first_byte-lt;
  owns = omega arith;
  sound = crowded_map-Sound;
}

crowded-Sized : Sized crowded_map (some (41 ∷ []))
crowded-Sized x e = let same : 41 ∷ [] ≡ x = cc in ap length (sym same)

hashmap_insert-Updated_example :
    Returns
      (hashmap_insert generous crowded_map (6 ∷ []) (some (41 ∷ [])))
      (Updated generous crowded_map (6 ∷ []) (some (41 ∷ [])))
hashmap_insert-Updated_example =
    hashmap_insert-Updated generous 2 crowded_map 0 (6 ∷ []) (some (41 ∷ [])) crowded_map-IsValid
      (omega arith) (omega arith) refl (omega arith) (omega arith) (omega arith) refl crowded-Sized

-- The entries stand at other places of the larger table.
crowded_runs : Returns (hashmap_insert generous crowded_map (6 ∷ []) (some (41 ∷ []))) (λ r.
    (r.0 ≡ ok)
    × (r.1.table_count ≡ 12)
    × (value_at r.1 9 ≡ 40 ∷ [])
    × (value_at r.1 11 ≡ 60 ∷ [])
    × (value_at r.1 6 ≡ 41 ∷ [])
    × (r.1.slots_used ≡ 4))
unfolding hashmap_insert
crowded_runs = (refl, refl, refl, refl, refl, refl)
