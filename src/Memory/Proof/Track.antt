-- ===== src/Memory/Proof/Track.antt =====
-- The tracked calls keep the tracker in agreement with the live allocations (`cstructures_malloc`,
-- `cstructures_realloc` and `cstructures_free` of cstructures/src/memory.c).
use cstructures.Prelude.{
  ℕ, suc, ◌+◌, ◌%◌, ◌^◌, ◌<◌, ◌≡◌, ◌≢◌, inl, inr, refl, ap, none, some, List, ◌∷◌, done, Returns,
  Returns->>=, Returns-else, arith, length, ne→==, eq→==, ◌==◌, if◌then◌else◌,
}
use cstructures.Buffer.{Allocator}
use cstructures.Memory.Struct.{Tracker, add64, allocated, deallocated}
use cstructures.Memory.Track.{
  forget, record_info, cstructures_malloc, cstructures_realloc, cstructures_free,
}
use cstructures.Memory.Valid.{size_of, without, NullOrLive, release, total, Tracks}
use cstructures.Memory.Proof.Ledger.{length-release}
use cstructures.Memory.Proof.Tally.{
  Tallied, forget-Tallied, record_info-Tallied, enter, enter_allocated, leave,
}

module _ (a : Allocator) where
  -- `cstructures_malloc` of a tracker that knows the live allocations, where `malloc` gave a pointer
  -- that is not among them and is not null, the sizes do not overflow, and the report has room for
  -- it, does not fault. It returns the pointer, and the tracker knows it with its size.
  pub cstructures_malloc-Tracks :
      (m : Tracker) (live : List (ℕ × ℕ)) (room size p : ℕ)
      → Tracks m live (suc room)
      → p ≢ 0
      → p < 2 ^ 64
      → size + total live < 2 ^ 64
      → size_of p live ≡ none
      → Returns
          (cstructures_malloc a m size p)
          (λ r. (r.0 ≡ p) × Tracks r.1 ((p, size) ∷ live) room)
  unfolding cstructures_malloc
  cstructures_malloc-Tracks m live room size p t nonnull small fits fresh =
      Returns-else (p == 0) (done (0, m)) _ _ (ne→== p 0 nonnull) (
        Returns-else m.ignore_hm_malloc (done (p, allocated m)) _ _ t.tracking (
          Returns->>= (record_info a (allocated m) p size) _
            (λ m'. Tallied m' ((p, size) ∷ live) room (add64 m.allocations 1) m.deallocations) _
            (record_info-Tallied a (allocated m) live room p size _ _
              (enter_allocated m live (suc room) t) small fits fresh)
            (λ m' h. (refl, leave m' ((p, size) ∷ live) room _ _ h (omega (arith, t.balanced))))))

-- `cstructures_free` of a pointer that is not null and is among the live allocations that the
-- tracker knows does not fault. It frees the pointer, and the tracker knows the other live
-- allocations.
pub cstructures_free-Tracks :
    (m : Tracker) (live : List (ℕ × ℕ)) (room p s : ℕ)
    → Tracks m live room
    → p ≢ 0
    → size_of p live ≡ some s
    → Returns (cstructures_free m p) (λ r. (r.0 ≡ some p) × Tracks r.1 (release p live) room)
unfolding cstructures_free
cstructures_free-Tracks m live room p s t nonnull is_live =
    Returns->>= (if m.ignore_hm_malloc then done m else forget m p) _
      (λ m'. Tallied m' (release p live) room m.allocations m.deallocations) _
      (Returns-else m.ignore_hm_malloc (done m) (forget m p) _ t.tracking
        (forget-Tallied m live room p _ _ (enter m live room t) (t.listed.bounded p s is_live).0))
      (λ m' h. rw (ne→== p 0 nonnull) (
        refl,
        leave (deallocated m') (release p live) room m.allocations (add64 m.deallocations 1)
            (record {
              listed = h.listed;
              tracking = h.tracking;
              used = h.used;
              fits = h.fits;
              peak = h.peak;
              allocs_are = h.allocs_are;
              deallocs_are = ap (λ d. add64 d 1) h.deallocs_are;
            })
            (omega (arith, t.balanced, length-release p s live is_live)),
      ))

-- `cstructures_realloc` of a tracker that knows the live allocations, where the old pointer is null
-- or live, the new pointer is not among the other ones that the tracker knows, the sizes do not
-- overflow, and the report has room for it, does not fault. It returns the new pointer, and the
-- tracker knows it with the new size, in place of the old one. This also holds where `realloc`
-- fails and the new pointer is null, unless the tracker knows null already: the tracker then knows
-- null with the new size, and no longer the old pointer.
pub cstructures_realloc-Tracks :
    (a : Allocator) (m : Tracker) (live : List (ℕ × ℕ)) (room old_p new_size p : ℕ)
    → Tracks m live (suc room)
    → NullOrLive old_p live
    → p < 2 ^ 64
    → new_size + total (without old_p live) < 2 ^ 64
    → size_of p (without old_p live) ≡ none
    → Returns
        (cstructures_realloc a m old_p new_size p)
        (λ r. (r.0 ≡ p) × Tracks r.1 ((p, new_size) ∷ without old_p live) room)
unfolding cstructures_realloc
cstructures_realloc-Tracks a m live room old_p new_size p t old small fits fresh =
    let (count, even, h) = forgotten old in
    Returns->>= (if old_p == 0 then done (allocated m) else forget m old_p) _
      (λ m₁. Tallied m₁ (without old_p live) (suc room) count m.deallocations) _ h
      (λ m₁ h₁.
        Returns->>= (if m₁.ignore_hm_malloc then done m₁ else record_info a m₁ p new_size) _
          (λ m₂. Tallied m₂ ((p, new_size) ∷ without old_p live) room count m.deallocations) _
          (Returns-else m₁.ignore_hm_malloc (done m₁) _ _ h₁.tracking (
            record_info-Tallied a m₁ (without old_p live) room p new_size count m.deallocations h₁
              small fits fresh))
          (λ m₂ h₂. (
            refl,
            leave m₂ ((p, new_size) ∷ without old_p live) room count m.deallocations h₂ even,
          )))
  where
    -- The first part, and the number of allocations after it.
    forgotten :
        NullOrLive old_p live
        → (count : ℕ) × (count ≡ (m.deallocations + suc (length (without old_p live)) + 1) % 2 ^ 64)
          × Returns
              (if old_p == 0 then done (allocated m) else forget m old_p)
              (λ m₁. Tallied m₁ (without old_p live) (suc room) count m.deallocations)
    forgotten (inl e) =
        rw (eq→== old_p 0 e)
          (add64 m.allocations 1, omega (arith, t.balanced), enter_allocated m live (suc room) t)
    forgotten (inr (ne, (s, is_live))) = rw (ne→== old_p 0 ne) (
      m.allocations,
      omega (arith, t.balanced, length-release old_p s live is_live),
      forget-Tallied m live (suc room) old_p m.allocations m.deallocations
          (enter m live (suc room) t) (t.listed.bounded old_p s is_live).0,
    )
