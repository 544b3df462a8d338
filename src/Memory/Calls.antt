-- ===== src/Memory/Calls.antt =====
-- Sequences of tracked calls, with the answers of the C library, and the live allocations after them
-- (cstructures/src/memory.c).
use cstructures.Prelude.{Bool, true}
use cstructures.Prelude.{
  ℕ, suc, ◌+◌, ◌^◌, ◌<◌, ◌≡◌, ◌≢◌, ◌⊎◌, none, some, List, [], ◌∷◌, Exec, done, ◌>>=◌, ◌==◌,
  if◌then◌else◌,
}
use cstructures.Buffer.{Allocator}
use cstructures.Memory.Struct.{Tracker, memory_init}
use cstructures.Memory.Track.{cstructures_malloc, cstructures_realloc, cstructures_free}
use cstructures.Memory.Valid.{size_of, release, total, without, NullOrLive}

-- A call with its arguments; the last one is the pointer that the C library gave.
pub data Call : Type 0 where
  malloc : ℕ → ℕ → Call
  realloc : ℕ → ℕ → ℕ → Call
  free : ℕ → Call

unfoldable pub perform : Allocator → Tracker → Call → Exec Tracker
unfolding cstructures_malloc cstructures_realloc cstructures_free
perform a m (malloc size p) = cstructures_malloc a m size p >>= λ r. done r.1
perform a m (realloc old_p new_size p) = cstructures_realloc a m old_p new_size p >>= λ r. done r.1
perform a m (free p) = cstructures_free m p >>= λ r. done r.1

unfoldable pub perform_all : Allocator → Tracker → List Call → Exec Tracker
unfolding perform
perform_all a m [] = done m
perform_all a m (call ∷ calls) = perform a m call >>= λ m'. perform_all a m' calls

-- `memory_init`, and then the calls, if it succeeded.
unfoldable pub session : Allocator → List Call → Exec (Bool × Tracker)
unfolding memory_init perform_all
session a calls =
    memory_init a >>= λ r. if r.0 then (perform_all a r.1 calls >>= λ m. done (true, m)) else done r

-- The live allocations after a call.
abbrev pub live_after : List (ℕ × ℕ) → Call → List (ℕ × ℕ)
live_after live (malloc size p) = if p == 0 then live else (p, size) ∷ live
live_after live (realloc old_p new_size p) = (p, new_size) ∷ without old_p live
live_after live (free p) = release p live

abbrev pub live_after_all : List (ℕ × ℕ) → List Call → List (ℕ × ℕ)
live_after_all live [] = live
live_after_all live (call ∷ calls) = live_after_all (live_after live call) calls

-- The pointer is not null, is not live, and its object fits beside the live ones.
abbrev Fresh : List (ℕ × ℕ) → ℕ → ℕ → Type 0
Fresh live size p = (p ≢ 0) × (p < 2 ^ 64) × (size + total live < 2 ^ 64) × (size_of p live ≡ none)

-- The caller reallocates and frees what is live, and the C library gives fresh pointers; `malloc` may
-- also give null.
abbrev pub Legal : List (ℕ × ℕ) → Call → Type 0
Legal live (malloc size p) = (p ≡ 0) ⊎ Fresh live size p
Legal live (realloc old_p new_size p) =
    NullOrLive old_p live × Fresh (without old_p live) new_size p
Legal live (free p) = (p ≢ 0) × ((s : ℕ) × (size_of p live ≡ some s))

abbrev pub AllLegal : List (ℕ × ℕ) → List Call → Type 0
AllLegal live [] = Unit
AllLegal live (call ∷ calls) = Legal live call × AllLegal (live_after live call) calls

-- The calls that may add an address to the report.
abbrev pub additions : List Call → ℕ
additions [] = 0
additions (malloc size p ∷ calls) = suc (additions calls)
additions (realloc old_p new_size p ∷ calls) = suc (additions calls)
additions (free p ∷ calls) = additions calls
