-- ===== src/Memory/Track.antt =====
-- The calls that are tracked: `cstructures_malloc`, `cstructures_realloc` and `cstructures_free`
-- (cstructures/src/memory.c). What `malloc` and `realloc` of the C library gave is an argument, a
-- pointer as a number, zero for null. Warnings that are printed are left out.
use cstructures.Prelude.{ℕ, Option, none, some, Exec, done, ◌>>=◌, ltb, ◌==◌, if◌then◌else◌}
use cstructures.Buffer.{Allocator}
use cstructures.HashMap.Struct.{HashMap, read_value}
use cstructures.HashMap.Find.{hashmap_erase}
use cstructures.HashMap.Insert.{hashmap_insert}
use cstructures.Memory.Struct.{
  Tracker, add64, sub64, encode64, report_info, info_bytes, allocated, deallocated, count_rehash,
}

-- `g_bytes_in_use += size`, and the peak.
abbrev pub use_bytes : Tracker → ℕ → Tracker
use_bytes m size =
    let used = add64 m.bytes_in_use size in
    record m {
      bytes_in_use = used;
      bytes_in_use_peak = if ltb m.bytes_in_use_peak used then used else m.bytes_in_use_peak;
    }

-- After `hashmap_erase (&g_report, &p)`.
unfoldable pub forget_info : Tracker → Option ℕ × HashMap → Exec Tracker
unfolding read_value
forget_info m (none, hm) = done (record m { report = hm })
forget_info m (some off, hm) = read_value hm off >>= λ info.
    done (record m { bytes_in_use = sub64 m.bytes_in_use (info_bytes info); report = hm })

unfoldable pub forget : Tracker → ℕ → Exec Tracker
unfolding hashmap_erase forget_info
forget m p = hashmap_erase m.report (encode64 p) >>= forget_info m

module _ (a : Allocator) where
  -- `Record allocation info`, where the flag is not set.
  unfoldable pub record_info : Tracker → ℕ → ℕ → Exec Tracker
  unfolding hashmap_insert count_rehash
  record_info m p size = hashmap_insert a m.report (encode64 p) (some (report_info p size)) >>= λ r.
      done (count_rehash a m.report (record (use_bytes m size) { report = r.1 }))

  unfoldable pub cstructures_malloc : Tracker → ℕ → ℕ → Exec (ℕ × Tracker)
  unfolding record_info
  cstructures_malloc m size p =
      if p == 0
      then done (0, m)
      else if m.ignore_hm_malloc
      then done (p, allocated m)
      else (record_info (allocated m) p size >>= λ m'. done (p, m'))

  -- The pointer that was passed in is `old_p`, and `p` what `realloc` gave for it.
  unfoldable pub cstructures_realloc : Tracker → ℕ → ℕ → ℕ → Exec (ℕ × Tracker)
  unfolding forget record_info
  cstructures_realloc m old_p new_size p =
      (if old_p == 0 then done (allocated m) else forget m old_p) >>= λ m₁.
      (if m₁.ignore_hm_malloc then done m₁ else record_info m₁ p new_size) >>= λ m₂. done (p, m₂)

-- The pointer that `free` of the C library is called with, if it is.
unfoldable pub cstructures_free : Tracker → ℕ → Exec (Option ℕ × Tracker)
unfolding forget
cstructures_free m p = (if m.ignore_hm_malloc then done m else forget m p) >>= λ m'.
    done (if p == 0 then (none, m') else (some p, deallocated m'))
