-- ===== src/Memory/Valid.antt =====
-- The allocations that are live, as a list of addresses with sizes, and what it means that the
-- tracker knows them (cstructures/src/memory.c).
use cstructures.Prelude.{
  ℕ, ◌+◌, ◌≢◌, ◌⊎◌, ◌%◌, ◌^◌, ◌≤◌, ◌<◌, ◌≡◌, false, Option, none, some, List, [], ◌∷◌, length, ◌==◌,
  if◌then◌else◌,
}
use cstructures.HashMap.Struct.{HashMap}
use cstructures.HashMap.Valid.{slot_at, key_at, value_at, InUse, IsValid, Has}
use cstructures.HashMap.Proof.Room.{unused}
use cstructures.Memory.Struct.{Tracker, encode64, report_info, report_table_count}

-- The size of the live allocation at an address.
abbrev pub size_of : ℕ → List (ℕ × ℕ) → Option ℕ
size_of p [] = none
size_of p ((j, s) ∷ live) = if j == p then some s else size_of p live

abbrev pub release : ℕ → List (ℕ × ℕ) → List (ℕ × ℕ)
release p [] = []
release p ((j, s) ∷ live) = if j == p then live else (j, s) ∷ release p live

abbrev pub total : List (ℕ × ℕ) → ℕ
total [] = 0
total ((j, s) ∷ live) = s + total live

-- No address is listed twice.
abbrev pub Distinct : List (ℕ × ℕ) → Type 0
Distinct [] = Unit
Distinct ((j, s) ∷ live) = (size_of j live ≡ none) × Distinct live

-- The live allocations without the one that is reallocated.
abbrev pub without : ℕ → List (ℕ × ℕ) → List (ℕ × ℕ)
without old_p live = if old_p == 0 then live else release old_p live

abbrev pub NullOrLive : ℕ → List (ℕ × ℕ) → Type 0
NullOrLive p live = (p ≡ 0) ⊎ ((p ≢ 0) × ((s : ℕ) × (size_of p live ≡ some s)))

-- What the map has under an address.
abbrev pub Leads : HashMap → ℕ → Option ℕ → Type 0
Leads hm p none = (q : ℕ) → ¬ Has hm (encode64 p) q
Leads hm p (some s) = (q : ℕ) × Has hm (encode64 p) q × (value_at hm q ≡ report_info p s)

-- Below this number of entries, the report does not ask for a rehash.
abbrev pub report_limit : ℕ
report_limit = 2868

-- The report lists exactly the live allocations, and takes `room` addresses more: unused slots are
-- left for them, and the table is not loaded.
pub record Listed (hm : HashMap) (live : List (ℕ × ℕ)) (room : ℕ) : Type 0 where
  pub valid : IsValid hm
  pub keys : hm.key_size ≡ 8
  pub values : hm.value_size ≡ 16
  pub distinct : Distinct live
  pub bounded : (p s : ℕ) → size_of p live ≡ some s → (p < 2 ^ 64) × (s < 2 ^ 64)
  pub leads : (p : ℕ) → p < 2 ^ 64 → Leads hm p (size_of p live)
  pub only :
      (q : ℕ)
      → q < hm.table_count
      → InUse (slot_at hm q)
      → (p : ℕ) × (p < 2 ^ 64) × (key_at hm q ≡ encode64 p)
  pub counted : hm.slots_used ≡ length live
  pub table : hm.table_count ≡ report_table_count
  pub spare : room < unused hm
  pub light : length live + room ≤ report_limit

-- The tracker is on, and its counters agree with the live allocations; the storage of the report is
-- one allocation more.
pub record Tracks (m : Tracker) (live : List (ℕ × ℕ)) (room : ℕ) : Type 0 where
  pub listed : Listed m.report live room
  pub tracking : m.ignore_hm_malloc ≡ false
  pub used : m.bytes_in_use ≡ total live
  pub fits : total live < 2 ^ 64
  pub peak : m.bytes_in_use ≤ m.bytes_in_use_peak
  pub balanced : m.allocations ≡ (m.deallocations + length live + 1) % 2 ^ 64
