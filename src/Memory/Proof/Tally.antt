-- ===== src/Memory/Proof/Tally.antt =====
-- What the parts of the tracked calls do to the report and the counters: the removal and the record of
-- an address (cstructures/src/memory.c).
use cstructures.Prelude.{
  ℕ, suc, ◌+◌, ◌%◌, ◌^◌, ◌≤◌, ◌<◌, ◌≡◌, refl, sym, subst, false, Option, none, some, List, ◌∷◌,
  ◌>>=◌, Returns, Returns->>=, arith, length,
}
use cstructures.Buffer.{Allocator}
use cstructures.HashMap.Struct.{HashMap, Status}
use cstructures.HashMap.Find.{hashmap_erase}
use cstructures.HashMap.Insert.{hashmap_insert}
use cstructures.Memory.Struct.{
  Tracker, add64, encode64, report_info, info_bytes, allocated, count_rehash,
}
use cstructures.Memory.Track.{use_bytes, forget_info, forget, record_info}
use cstructures.Memory.Valid.{size_of, release, total, Listed, Tracks}
use cstructures.Memory.Proof.Ledger.{total-release, release_absent, info_bytes-report_info}
use cstructures.Memory.Proof.Listed.{Listed-light, insert-Listed, Unlisted, erase-Unlisted}

-- The tracker within a call, with the numbers of allocations and deallocations.
pub record Tallied (m : Tracker) (live : List (ℕ × ℕ)) (room allocs deallocs : ℕ) : Type 0 where
  pub listed : Listed m.report live room
  pub tracking : m.ignore_hm_malloc ≡ false
  pub used : m.bytes_in_use ≡ total live
  pub fits : total live < 2 ^ 64
  pub peak : m.bytes_in_use ≤ m.bytes_in_use_peak
  pub allocs_are : m.allocations ≡ allocs
  pub deallocs_are : m.deallocations ≡ deallocs

forget_info-Tallied :
    (m : Tracker) (live : List (ℕ × ℕ)) (room p allocs deallocs : ℕ) (r : Option ℕ × HashMap)
    → Tallied m live room allocs deallocs
    → Unlisted m.report live room p r
    → Returns (forget_info m r) (λ m'. Tallied m' (release p live) room allocs deallocs)
unfolding forget_info
forget_info-Tallied m live room p allocs deallocs (none, u) t (same, absent) =
    rw (release_absent p live absent) (record {
      listed = subst (λ hm. Listed hm live room) (sym same) t.listed;
      tracking = t.tracking;
      used = t.used;
      fits = t.fits;
      peak = t.peak;
      allocs_are = t.allocs_are;
      deallocs_are = t.deallocs_are;
    })
forget_info-Tallied m live room p allocs deallocs (some off, u) t (s, e, value, l) =
    let bound = t.listed.bounded p s e in
    let sum = total-release p s live e in
    let read : info_bytes (report_info p s) ≡ s = info_bytes-report_info p s bound.1 in
    rw (value, ◌>>=◌, read)
      (record {
        listed = l;
        tracking = t.tracking;
        used = omega (arith, t.used, t.fits, sum);
        fits = omega (arith, t.fits, sum);
        peak = omega (arith, t.used, t.fits, t.peak, sum);
        allocs_are = t.allocs_are;
        deallocs_are = t.deallocs_are;
      })

pub forget-Tallied :
    (m : Tracker) (live : List (ℕ × ℕ)) (room p allocs deallocs : ℕ)
    → Tallied m live room allocs deallocs
    → p < 2 ^ 64
    → Returns (forget m p) (λ m'. Tallied m' (release p live) room allocs deallocs)
unfolding forget
forget-Tallied m live room p allocs deallocs t small =
    Returns->>= (hashmap_erase m.report (encode64 p)) (forget_info m)
      (Unlisted m.report live room p) _ (erase-Unlisted m.report live room p t.listed small)
      (λ r h. forget_info-Tallied m live room p allocs deallocs r t h)

pub record_info-Tallied :
    (a : Allocator) (m : Tracker) (live : List (ℕ × ℕ)) (room p size allocs deallocs : ℕ)
    → Tallied m live (suc room) allocs deallocs
    → p < 2 ^ 64
    → size + total live < 2 ^ 64
    → size_of p live ≡ none
    → Returns (record_info a m p size) (λ m'. Tallied m' ((p, size) ∷ live) room allocs deallocs)
unfolding record_info count_rehash
record_info-Tallied a m live room p size allocs deallocs t small fits fresh =
    Returns->>= (hashmap_insert a m.report (encode64 p) (some (report_info p size))) _
      (λ r. Listed r.1 ((p, size) ∷ live) room) _
      (insert-Listed a m.report live room p size t.listed small (omega arith) fresh) step
  where
    step :
        (r : Status × HashMap)
        → Listed r.1 ((p, size) ∷ live) room
        → Tallied
            (count_rehash a m.report (record (use_bytes m size) { report = r.1 }))
            ((p, size) ∷ live)
            room
            allocs
            deallocs
    step r l = rw (Listed-light m.report live room t.listed) (record {
      listed = l;
      tracking = t.tracking;
      used = omega (arith, t.used);
      fits = fits;
      peak = ground arith;
      allocs_are = t.allocs_are;
      deallocs_are = t.deallocs_are;
    })

module _ (m : Tracker) (live : List (ℕ × ℕ)) (room : ℕ) where
  abbrev pub enter : Tracks m live room → Tallied m live room m.allocations m.deallocations
  enter t = record {
    listed = t.listed;
    tracking = t.tracking;
    used = t.used;
    fits = t.fits;
    peak = t.peak;
    allocs_are = refl;
    deallocs_are = refl;
  }

  abbrev pub enter_allocated :
      Tracks m live room → Tallied (allocated m) live room (add64 m.allocations 1) m.deallocations
  enter_allocated t = record {
    listed = t.listed;
    tracking = t.tracking;
    used = t.used;
    fits = t.fits;
    peak = t.peak;
    allocs_are = refl;
    deallocs_are = refl;
  }

pub leave :
    (m : Tracker) (live : List (ℕ × ℕ)) (room allocs deallocs : ℕ)
    → Tallied m live room allocs deallocs
    → allocs ≡ (deallocs + length live + 1) % 2 ^ 64
    → Tracks m live room
leave m live room allocs deallocs t e = record {
  listed = t.listed;
  tracking = t.tracking;
  used = t.used;
  fits = t.fits;
  peak = t.peak;
  balanced = omega (arith, t.allocs_are, t.deallocs_are, e);
}
