-- ===== src/Tests/Tracker.antt =====
-- Runs of the allocation tracker, and instances of its properties.
use cstructures.Prelude.{
  ℕ, List, tabulate, ◌≡◌, refl, inl, inr, some, [], ◌∷◌, done, ◌>>=◌, Returns, result_or,
  result_or-Returns, arith,
}
use cstructures.HashMap.Struct.{HashMap}
use cstructures.HashMap.Valid.{IsValid}
use cstructures.HashMap.Proof.Init.{empty-Sound}
use cstructures.Memory.Struct.{Tracker, report_hash, initialized}
use cstructures.Memory.Track.{cstructures_malloc, cstructures_realloc, cstructures_free}
use cstructures.Memory.Report.{memory_deinit, mutated_string_and_hex_dump}
use cstructures.Memory.Valid.{Tracks}
use cstructures.Memory.Calls.{malloc, realloc, free, session}
use cstructures.Memory.Proof.Runs.{report_hash-lt, initialized-Tracks, Answers, session-Answers}
use cstructures.Memory.Proof.Track.{
  cstructures_malloc-Tracks, cstructures_realloc-Tracks, cstructures_free-Tracks,
}
use cstructures.Memory.Proof.Leaks.{Stored, Reports, memory_deinit-Reports}
use cstructures.Tests.Memory.{resized, generous}

abbrev blank_report : HashMap
blank_report = record {
  table_count = 4096;
  key_size = 8;
  value_size = 16;
  slots_used = 0;
  hash = report_hash;
  storage = some (resized (λ i. 0) 114688);
}

blank_report-IsValid : IsValid blank_report
blank_report-IsValid = record {
  keyed = omega arith;
  slots = omega arith;
  small = omega arith;
  bounded = omega arith;
  hashes = report_hash-lt;
  owns = omega arith;
  sound = empty-Sound _ _ _ _ (λ p lt. refl);
}

-- A tracker that has just started.
abbrev start : Tracker
start = initialized blank_report

start-Tracks : Tracks start [] 2868
start-Tracks =
    initialized-Tracks generous blank_report
      (blank_report-IsValid, (refl, refl, refl, refl), refl, λ p lt. refl)

cstructures_malloc-Tracks_example :
    Returns
      (cstructures_malloc generous start 16 4096)
      (λ r. (r.0 ≡ 4096) × Tracks r.1 ((4096, 16) ∷ []) 2867)
cstructures_malloc-Tracks_example =
    cstructures_malloc-Tracks generous start [] 2867 16 4096 start-Tracks (omega arith)
      (omega arith) (omega arith) refl

-- A tracker with one live allocation.
abbrev one_live : Tracker
one_live = (result_or (cstructures_malloc generous start 16 4096) (0, start)).1

one_live-Tracks : Tracks one_live ((4096, 16) ∷ []) 2867
one_live-Tracks =
    (result_or-Returns (cstructures_malloc generous start 16 4096) (0, start) _
      (cstructures_malloc-Tracks generous start [] 2867 16 4096 start-Tracks (omega arith)
        (omega arith) (omega arith) refl)).1

cstructures_free-Tracks_example :
    Returns (cstructures_free one_live 4096) (λ r. (r.0 ≡ some 4096) × Tracks r.1 [] 2867)
cstructures_free-Tracks_example =
    cstructures_free-Tracks one_live ((4096, 16) ∷ []) 2867 4096 16 one_live-Tracks (omega arith)
      refl

-- The reallocation failed.
cstructures_realloc-Tracks_example :
    Returns
      (cstructures_realloc generous one_live 4096 64 0)
      (λ r. (r.0 ≡ 0) × Tracks r.1 ((0, 64) ∷ []) 2866)
cstructures_realloc-Tracks_example =
    cstructures_realloc-Tracks generous one_live ((4096, 16) ∷ []) 2866 4096 64 0 one_live-Tracks
      (inr (omega arith, (16, refl))) (omega arith) (omega arith) refl

one_live-deallocations : one_live.deallocations ≡ 0
unfolding cstructures_malloc report_hash
one_live-deallocations = refl

-- Every object has 16 bytes.
abbrev objects : ℕ → List ℕ
objects p = tabulate 16 (λ j. j)

objects-Stored : Stored objects ((4096, 16) ∷ [])
objects-Stored p s e = ground arith

memory_deinit-Reports_example :
    Returns
      (memory_deinit generous objects one_live)
      (λ r. (r.0.0 ≡ 1) × Reports r.0.1 ((4096, 16) ∷ []) × (r.1.0 ≡ one_live.report.storage))
memory_deinit-Reports_example =
    memory_deinit-Reports generous objects one_live ((4096, 16) ∷ []) 2867 one_live-Tracks
      objects-Stored (omega arith) (omega (arith, one_live-deallocations))

session-Answers_example :
    Returns
      (session generous
        (malloc 16 4096 ∷ malloc 5 0 ∷ realloc 4096 32 8192 ∷ malloc 8 64 ∷ free 8192 ∷ []))
      (Answers generous ((64, 8) ∷ []))
session-Answers_example =
    session-Answers generous
      (malloc 16 4096 ∷ malloc 5 0 ∷ realloc 4096 32 8192 ∷ malloc 8 64 ∷ free 8192 ∷ [])
      (omega arith)
      (
        inr (omega arith, omega arith, omega arith, refl),
        (
          inl refl,
          (
            (inr (omega arith, (16, refl)), (omega arith, omega arith, omega arith, refl)),
            (inr (omega arith, omega arith, omega arith, refl), ((omega arith, (32, refl)), tt)),
          ),
        ),
      )

dump_runs :
    mutated_string_and_hex_dump generous (65 ∷ 0 ∷ 66 ∷ []) 3 ≡ done (some (65 ∷ 46 ∷ 66 ∷ 0 ∷ []))
unfolding mutated_string_and_hex_dump
dump_runs = refl

-- One allocation, of 16 bytes, that is not freed.
leak_runs :
    Returns
      (session generous (malloc 16 4096 ∷ malloc 8 64 ∷ free 64 ∷ []) >>= λ r.
        memory_deinit generous objects r.1)
      (λ r. (r.0.0 ≡ 1) × (r.0.1 ≡ (4096, 16) ∷ []))
unfolding session memory_deinit
leak_runs = (refl, refl)
