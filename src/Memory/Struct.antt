-- ===== src/Memory/Struct.antt =====
-- The globals of the allocation tracker, the bytes of an entry of its report, and the set-up
-- (cstructures/src/memory.c).
use cstructures.Prelude.{
  ℕ, ◌+◌, ◌-◌, ◌*◌, ◌/◌, ◌%◌, ◌^◌, Bool, true, false, none, some, List, ◌++◌, Exec, done, fault,
  ◌>>=◌, take, drop, if◌then◌else◌,
}
use cstructures.Prelude.Word.{word, mul32}
use cstructures.Buffer.{Allocator, encode32, decode32}
use cstructures.Hash.Defs.{hash32_ptr}
use cstructures.HashMap.Struct.{HashMap, exists, ok, oom, expand_factor, hashmap_init_with_options}
use cstructures.HashMap.Insert.{is_loaded}

-- `g_allocations`, `d_deallocations`, `g_ignore_hm_malloc`, `g_bytes_in_use`, `g_bytes_in_use_peak` and
-- `g_report`.
pub record Tracker : Type 0 where
  pub allocations : ℕ
  pub deallocations : ℕ
  pub ignore_hm_malloc : Bool
  pub bytes_in_use : ℕ
  pub bytes_in_use_peak : ℕ
  pub report : HashMap

-- `uintptr_t` arithmetic wraps at 2 ^ 64.
abbrev pub add64 : ℕ → ℕ → ℕ
add64 a b = (a + b) % 2 ^ 64

abbrev pub sub64 : ℕ → ℕ → ℕ
sub64 a b = (a + 2 ^ 64 - b) % 2 ^ 64

-- The bytes of a pointer or a `uintptr_t`, and back.
abbrev pub encode64 : ℕ → List ℕ
encode64 k = encode32 (k % word) ++ encode32 (k / word)

abbrev pub decode64 : List ℕ → ℕ
decode64 xs = (decode32 (take 4 xs) + word * decode32 (drop 4 xs)) % 2 ^ 64

-- `sizeof(void*)`, `sizeof(report_info_t)` and the table count of the report.
abbrev pub pointer_size : ℕ
pointer_size = 8

abbrev pub info_size : ℕ
info_size = 16

abbrev pub report_table_count : ℕ
report_table_count = 4096

-- `struct report_info_t`: `location`, then `size`.
abbrev pub report_info : ℕ → ℕ → List ℕ
report_info location size = encode64 location ++ encode64 size

abbrev pub info_location : List ℕ → ℕ
info_location info = decode64 (take 8 info)

abbrev pub info_bytes : List ℕ → ℕ
info_bytes info = decode64 (drop 8 info)

-- `hash32_ptr` on the bytes of a key, which are as many as a pointer has.
unfoldable pub report_hash : List ℕ → ℕ
unfolding hash32_ptr
report_hash key = elim (hash32_ptr (decode64 key) pointer_size) [ done hash ↦ hash | fault ↦ 0 ]

-- `++g_allocations` and `++d_deallocations`
abbrev pub allocated : Tracker → Tracker
allocated m = record m { allocations = add64 m.allocations 1 }

abbrev pub deallocated : Tracker → Tracker
deallocated m = record m { deallocations = add64 m.deallocations 1 }

-- The globals after the two outcomes of the initialization of the map. The flag stays set where it
-- failed.
abbrev pub initialized : HashMap → Tracker
initialized hm = record {
  allocations = 1;
  deallocations = 0;
  ignore_hm_malloc = false;
  bytes_in_use = 0;
  bytes_in_use_peak = 0;
  report = hm;
}

abbrev pub failed : HashMap → Tracker
failed hm = record {
  allocations = 0;
  deallocations = 0;
  ignore_hm_malloc = true;
  bytes_in_use = 0;
  bytes_in_use_peak = 0;
  report = hm;
}

module _ (a : Allocator) where
  -- The map calls `cstructures_malloc` and `cstructures_free` with the flag set, which then only
  -- count: a new storage that the rehash of an insertion gets, and one storage, the old or the new
  -- one, that it frees. A refused request is not counted.
  unfoldable pub count_rehash : HashMap → Tracker → Tracker
  count_rehash hm m =
      if is_loaded hm
      then elim (a.malloc
          ((4 + hm.key_size + hm.value_size) * mul32 hm.table_count expand_factor % 2 ^ 64)) [
            | none ↦ m
            | some storage ↦ deallocated (allocated m)
          ]
      else m

  -- The return value 0 is true. The allocation of the map's storage is counted.
  unfoldable pub memory_init : Exec (Bool × Tracker)
  unfolding hashmap_init_with_options report_hash
  memory_init =
      hashmap_init_with_options a pointer_size info_size report_table_count report_hash >>= λ r.
      done (elim r.0 [
        | ok ↦ (true, initialized r.1)
        | exists ↦ (false, failed r.1)
        | oom ↦ (false, failed r.1)
      ])
