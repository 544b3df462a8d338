-- ===== src/HashMap/Proof/Ends.antt =====
-- The search and the removal end where the size of the table is a power of two (`hashmap_find` and
-- `hashmap_erase` of cstructures/src/hashmap.c).
use cstructures.Prelude.{ℕ, ◌^◌, ◌<◌, ◌≡◌, List, Returns}
use cstructures.HashMap.Struct.{HashMap, slot_unused}
use cstructures.HashMap.Find.{hashmap_find, hashmap_erase}
use cstructures.HashMap.Valid.{slot_at, IsValid}
use cstructures.HashMap.Proof.Find.{Found, hashmap_find-Found}
use cstructures.HashMap.Proof.Erase.{Erased, hashmap_erase-Erased}
use cstructures.HashMap.Proof.Cover.{unused-Stops}

-- The search for the key and its removal return, with the outcomes that they promise.
abbrev pub Ends : HashMap → List ℕ → Type 0
Ends hm key =
    Returns (hashmap_find hm key) (Found hm key) × Returns (hashmap_erase hm key) (Erased hm key)

-- `hashmap_find` and `hashmap_erase` of a valid map whose table has 2 ^ k slots, one of them unused,
-- end for every key and do not fault. The search returns a pointer to the value of the key, or null if
-- the map does not have it; the removal takes the key out, keeps all others and returns a pointer to
-- its value, or returns null and changes nothing if the map does not have the key.
pub probing-Ends :
    (k : ℕ) (hm : HashMap) (key : List ℕ) (q : ℕ)
    → IsValid hm
    → hm.table_count ≡ 2 ^ k
    → q < hm.table_count
    → slot_at hm q ≡ slot_unused
    → Ends hm key
probing-Ends k hm key q valid size lt free =
    let stops = unused-Stops k hm key q size lt free in
    (hashmap_find-Found hm key valid stops, hashmap_erase-Erased hm key valid stops)
