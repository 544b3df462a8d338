-- ===== src/Memory/Proof/Runs.antt =====
-- A new tracker, and the tracker after any legal sequence of calls (`memory_init` and the tracked calls
-- of cstructures/src/memory.c).
use native.Mathlib.Nat.{mod-lt}
use cstructures.Prelude.{
  ℕ, ◌+◌, ◌%◌, ◌/◌, ◌≤◌, ◌<◌, ◌≡◌, refl, inl, inr, Bool, true, false, none, some, List, [], ◌∷◌,
  done, ◌>>=◌, Returns, Returns->>=, arith, length, eq→==, ne→==, if◌then◌else◌,
}
use cstructures.Prelude.Word.{word}
use cstructures.Buffer.{Allocator}
use cstructures.Hash.Bounds.{hash32_combine-lt}
use cstructures.HashMap.Struct.{HashMap, Status, exists, ok, oom, hashmap_init_with_options}
use cstructures.HashMap.Proof.Init.{Initialized, hashmap_init_with_options-Initialized}
use cstructures.HashMap.Proof.Room.{unused_all}
use cstructures.Memory.Struct.{
  Tracker, pointer_size, info_size, report_table_count, report_hash, initialized, failed,
  memory_init, decode64,
}
use cstructures.Memory.Track.{cstructures_malloc, cstructures_realloc, cstructures_free}
use cstructures.Memory.Report.{memory_get_num_allocs, memory_get_memory_usage}
use cstructures.Memory.Valid.{total, Tracks, report_limit}
use cstructures.Memory.Calls.{
  Call, malloc, realloc, free, perform, perform_all, session, live_after, live_after_all, Legal,
  AllLegal, additions,
}
use cstructures.Memory.Proof.Track.{
  cstructures_malloc-Tracks, cstructures_realloc-Tracks, cstructures_free-Tracks,
}

pub report_hash-lt : (key : List ℕ) → report_hash key < word
unfolding report_hash
report_hash-lt key =
    hash32_combine-lt (decode64 key % word) (decode64 key / word) (mod-lt _ (omega arith))

-- The outcome of the set-up: a tracker without live allocations, whose report has room for all
-- addresses up to its limit; or the flag is left set, as the allocator refused.
abbrev pub Started : Allocator → Bool × Tracker → Type 0
Started a (true, m) = Tracks m [] report_limit
Started a (false, m) =
    (m.ignore_hm_malloc ≡ true) × (m.report.storage ≡ none) × ((n : ℕ) × (a.malloc n ≡ none))

pub initialized-Tracks :
    (a : Allocator) (hm : HashMap)
    → Initialized a pointer_size info_size report_table_count report_hash (ok, hm)
    → Tracks (initialized hm) [] report_limit
initialized-Tracks a hm (valid, (keys, values, table, hash), used, clear) = record {
  listed = record {
    valid = valid;
    keys = keys;
    values = values;
    distinct = tt;
    bounded = λ p s e. cc;
    leads = λ p lt q has. has.1.0 (clear q (omega (arith, has.0, table)));
    only = λ q lt used. absurd (used.0 (clear q (omega (arith, table))));
    counted = used;
    table = table;
    spare = omega (arith, unused_all hm (λ q lt. clear q (omega (arith, table))), table);
    light = omega arith;
  };
  tracking = refl;
  used = refl;
  fits = omega arith;
  peak = omega arith;
  balanced = refl;
}

-- `memory_init` does not fault: it leaves a tracker that knows that nothing is live, or says that it
-- failed, with the flag set, as the allocator refused.
pub memory_init-Started : (a : Allocator) → Returns (memory_init a) (Started a)
unfolding memory_init
memory_init-Started a =
    Returns->>= (hashmap_init_with_options a pointer_size info_size report_table_count report_hash)
      _ (Initialized a pointer_size info_size report_table_count report_hash) (Started a)
      (hashmap_init_with_options-Initialized a pointer_size info_size report_table_count report_hash
        (omega arith) (omega arith) (omega arith) (omega arith) (omega arith) report_hash-lt)
      (λ r h. outcome r.0 r.1 h)
  where
    outcome :
        (st : Status) (hm : HashMap)
        → Initialized a pointer_size info_size report_table_count report_hash (st, hm)
        → Started a (elim st [
          | ok ↦ (true, initialized hm)
          | exists ↦ (false, failed hm)
          | oom ↦ (false, failed hm)
        ])
    outcome ok hm h = initialized-Tracks a hm h
    outcome oom hm h = (refl, h.0, h.1)
    outcome exists hm h = absurd h

-- Room that is not needed.
Tracks-weaken :
    {m : Tracker} {live : List (ℕ × ℕ)} {room less : ℕ}
    → Tracks m live room
    → less ≤ room
    → Tracks m live less
Tracks-weaken t le = record {
  listed = record {
    valid = t.listed.valid;
    keys = t.listed.keys;
    values = t.listed.values;
    distinct = t.listed.distinct;
    bounded = t.listed.bounded;
    leads = t.listed.leads;
    only = t.listed.only;
    counted = t.listed.counted;
    table = t.listed.table;
    spare = omega (arith, t.listed.spare);
    light = omega (arith, t.listed.light);
  };
  tracking = t.tracking;
  used = t.used;
  fits = t.fits;
  peak = t.peak;
  balanced = t.balanced;
}

null_answer :
    (a : Allocator) (m : Tracker) (size p : ℕ) → p ≡ 0 → cstructures_malloc a m size p ≡ done (0, m)
unfolding cstructures_malloc
null_answer a m size p e = rw (eq→== p 0 e)

module _ (a : Allocator) where
  perform-Tracks :
      (m : Tracker) (live : List (ℕ × ℕ)) (room : ℕ) (call : Call)
      → Tracks m live (additions (call ∷ []) + room)
      → Legal live call
      → Returns (perform a m call) (λ m'. Tracks m' (live_after live call) room)
  unfolding perform
  perform-Tracks m live room (malloc size p) t (inl null) =
      rw (null_answer a m size p null, eq→== p 0 null) (Tracks-weaken t (omega arith))
  perform-Tracks m live room (malloc size p) t (inr (nonnull, small, fits, fresh)) =
      Returns->>= (cstructures_malloc a m size p) _
        (λ r. (r.0 ≡ p) × Tracks r.1 ((p, size) ∷ live) room) _
        (cstructures_malloc-Tracks a m live room size p (Tracks-weaken t (omega arith)) nonnull
          small fits fresh)
        (λ r h. rw (ne→== p 0 nonnull) h.1)
  perform-Tracks m live room (realloc old_p new_size p) t (old, (nonnull, small, fits, fresh)) =
      Returns->>= (cstructures_realloc a m old_p new_size p) _ (λ r. (r.0 ≡ p) × _) _
        (cstructures_realloc-Tracks a m live room old_p new_size p (Tracks-weaken t (omega arith))
          old small fits fresh)
        (λ r h. h.1)
  perform-Tracks m live room (free p) t (nonnull, (s, is_live)) =
      Returns->>= (cstructures_free m p) _ (λ r. (r.0 ≡ some p) × _) _
        (cstructures_free-Tracks m live room p s (Tracks-weaken t (omega arith)) nonnull is_live)
        (λ r h. h.1)

additions-cons :
    (call : Call) (calls : List Call)
    → additions (call ∷ calls) ≡ additions (call ∷ []) + additions calls
additions-cons (malloc size p) calls = omega arith
additions-cons (realloc old_p new_size p) calls = omega arith
additions-cons (free p) calls = omega arith

module _ (a : Allocator) where
  -- A legal sequence of calls does not fault, from a tracker that knows the live allocations and has
  -- room for the calls that may add one. The tracker knows the live allocations after it.
  pub perform_all-Tracks :
      (calls : List Call) (m : Tracker) (live : List (ℕ × ℕ)) (room : ℕ)
      → Tracks m live (additions calls + room)
      → AllLegal live calls
      → Returns (perform_all a m calls) (λ m'. Tracks m' (live_after_all live calls) room)
  unfolding perform_all
  perform_all-Tracks [] m live room t legal = Tracks-weaken t (omega arith)
  perform_all-Tracks (call ∷ calls) m live room t (legal, later) =
      Returns->>= (perform a m call) (λ m'. perform_all a m' calls)
        (λ m'. Tracks m' (live_after live call) (additions calls + room)) _
        (perform-Tracks a m live (additions calls + room) call
          (Tracks-weaken t (omega (arith, additions-cons call calls))) legal)
        (λ m' h. perform_all-Tracks calls m' (live_after live call) room h later)

  -- What a caller may ask, once the tracker started.
  abbrev pub Answers : List (ℕ × ℕ) → Bool × Tracker → Type 0
  Answers live (true, m) =
      (memory_get_num_allocs m ≡ length live)
      × (memory_get_memory_usage m ≡ total live)
      × (memory_get_memory_usage m ≤ m.bytes_in_use_peak)
  Answers live (false, m) = (n : ℕ) × (a.malloc n ≡ none)

  -- From `memory_init` on, after any sequence of calls with at most 2868 that may add an address,
  -- nothing has faulted; the number of allocations that the tracker tells is that of the live ones,
  -- and the memory usage that it tells is the sum of their sizes, which is at most the peak. Or
  -- `memory_init` said that it failed, as the allocator refused. The caller reallocates null or
  -- what is live and frees only what is live; the C library gives pointers that are not live,
  -- `malloc` may give null and `realloc` does not, and the sizes of the live allocations do not
  -- overflow in sum.
  pub session-Answers :
      (calls : List Call)
      → additions calls ≤ report_limit
      → AllLegal [] calls
      → Returns (session a calls) (Answers (live_after_all [] calls))
  unfolding session memory_get_num_allocs memory_get_memory_usage
  session-Answers calls few legal =
      Returns->>= (memory_init a) _ (Started a) _ (memory_init-Started a) (λ r h. go r.0 r.1 h)
    where
      go :
          (b : Bool) (m : Tracker)
          → Started a (b, m)
          → Returns
              (if b then (perform_all a m calls >>= λ m'. done (true, m')) else done (b, m))
              (Answers (live_after_all [] calls))
      go false m h = h.2
      go true m h =
          Returns->>= (perform_all a m calls) _ (λ m'. Tracks m' (live_after_all [] calls) 0) _
            (perform_all-Tracks calls m [] 0 (Tracks-weaken h (omega arith)) legal)
            (λ m' t. (t.listed.counted, t.used, t.peak))
