-- ===== src/Memory/Proof/Leaks.antt =====
-- What the tracker reports at the end (`memory_deinit` of cstructures/src/memory.c).
use native.Mathlib.Decide.{ℕ_discrete}
use cstructures.Prelude.{
  ℕ, ◌+◌, ◌^◌, ◌<◌, ◌≡◌, ◌≢◌, refl, sym, ◌∙◌, ap, ap₂, subst, inl, inr, Option, none, some, List,
  [], ◌∷◌, done, ◌>>=◌, Returns, Returns->>=, Returns-then, Returns-else, Returns_mono, arith,
  length, ◌==◌, eq→==, ne→==, if◌then◌else◌, Bool-cases,
}
use cstructures.HashMap.Struct.{HashMap, read_value, key_offset, value_offset}
use cstructures.HashMap.Iterate.{hashmap_count, hashmap_for_each}
use cstructures.HashMap.Valid.{slot_at, key_at, value_at, InUse, Has}
use cstructures.HashMap.Proof.Read.{read_value-eq}
use cstructures.HashMap.Proof.Iterate.{hashmap_for_each-keeps}
use cstructures.Memory.Struct.{Tracker, encode64, report_info}
use cstructures.Buffer.{Allocator}
use cstructures.Memory.Report.{mutated_string_and_hex_dump, report_line, memory_deinit}
use cstructures.Memory.Proof.Dump.{Dumped, mutated_string_and_hex_dump-Dumped}
use cstructures.Memory.Valid.{size_of, total, Distinct, Leads, Listed, Tracks}
use cstructures.Memory.Proof.Ledger.{
  total-release, encode64-ne, info_location-report_info, info_bytes-report_info,
}

-- The lines about the entries below position `i`.
record Seen (hm : HashMap) (live : List (ℕ × ℕ)) (i : ℕ) (lines : List (ℕ × ℕ)) : Type 0 where
  distinct : Distinct lines
  told : (p q : ℕ) → p < 2 ^ 64 → q < i → Has hm (encode64 p) q → size_of p lines ≡ size_of p live
  untold :
      (p : ℕ) → p < 2 ^ 64 → ((q : ℕ) → q < i → ¬ Has hm (encode64 p) q) → size_of p lines ≡ none

-- The object of a live allocation has its size.
abbrev pub Stored : (ℕ → List ℕ) → List (ℕ × ℕ) → Type 0
Stored memory live = (p s : ℕ) → size_of p live ≡ some s → length (memory p) ≡ s

module _ (hm : HashMap) (live : List (ℕ × ℕ)) (room : ℕ) (l : Listed hm live room) (a : Allocator)
    (memory : ℕ → List ℕ) (stored : Stored memory live) (fits : total live + 1 < 2 ^ 64) where
  Seen-skip :
      (i : ℕ) (lines : List (ℕ × ℕ))
      → i < hm.table_count
      → ¬ InUse (slot_at hm i)
      → Seen hm live i lines
      → Seen hm live (i + 1) lines
  Seen-skip i lines lt unused s = record {
    distinct = s.distinct;
    told = λ p q small below has. elim (ℕ_discrete q i) [
      | yes e ↦ absurd (unused (subst (λ j. InUse (slot_at hm j)) e has.1))
      | no ne ↦ s.told p q small (omega arith) has
    ];
    untold = λ p small h. s.untold p small (λ q below. h q (omega arith));
  }

  -- The entry in use at a position is that of a live allocation.
  entry_live :
      (i : ℕ)
      → i < hm.table_count
      → InUse (slot_at hm i)
      → (p s : ℕ) × (p < 2 ^ 64)
        × (key_at hm i ≡ encode64 p)
        × (size_of p live ≡ some s)
        × (value_at hm i ≡ report_info p s)
  entry_live i lt used =
      let (p, small, key) = l.only i lt used in
      found p small key (size_of p live) refl (l.leads p small)
    where
      found :
          (p : ℕ)
          → p < 2 ^ 64
          → key_at hm i ≡ encode64 p
          → (o : Option ℕ) → size_of p live ≡ o
          → Leads hm p o
          → (p s : ℕ) × (p < 2 ^ 64)
            × (key_at hm i ≡ encode64 p)
            × (size_of p live ≡ some s)
            × (value_at hm i ≡ report_info p s)
      found p small key none e h = absurd (h i (lt, used, key))
      found p small key (some s) e (q, has, v) = (
        p,
        s,
        small,
        key,
        e,
        ap (value_at hm) (l.valid.sound.unique i q lt has.0 used has.1 (key ∙ sym has.2)) ∙ v,
      )

  Seen-visit :
      (i : ℕ) (lines : List (ℕ × ℕ)) (p s : ℕ)
      → i < hm.table_count
      → InUse (slot_at hm i)
      → p < 2 ^ 64
      → key_at hm i ≡ encode64 p
      → size_of p live ≡ some s
      → Seen hm live i lines
      → Seen hm live (i + 1) ((p, s) ∷ lines)
  Seen-visit i lines p s lt used small key e seen = record {
    distinct = (
      seen.untold p small (λ q below has.
          omega (arith, l.valid.sound.unique q i has.0 lt has.1 used (has.2 ∙ sym key))),
      seen.distinct,
    );
    told = λ j q small' below has. elim (ℕ_discrete p j) [
      | yes same ↦ rw (eq→== p j same) (sym e ∙ ap (λ x. size_of x live) same)
      | no ne ↦
          rw (ne→== p j ne)
            (seen.told j q small' (other j q below has (λ z. ne (sym z)) small') has)
    ];
    untold = λ j small' h. elim (ℕ_discrete p j) [
      | yes same ↦ absurd (h i (omega arith) (lt, used, key ∙ ap encode64 same))
      | no ne ↦ rw (ne→== p j ne) (seen.untold j small' (λ q below. h q (omega arith)))
    ];
  }
    where
      other : (j q : ℕ) → q < i + 1 → Has hm (encode64 j) q → j ≢ p → j < 2 ^ 64 → q < i
      other j q below has ne small' = elim (ℕ_discrete q i) [
        | yes same ↦
            absurd (encode64-ne j p small' small ne (sym has.2 ∙ (ap (key_at hm) same ∙ key)))
        | no d ↦ omega arith
      ]

  -- The line, where the entry at a pointer is known.
  told_line :
      (lines : List (ℕ × ℕ)) (key value p s : ℕ)
      → p < 2 ^ 64
      → s < 2 ^ 64
      → read_value hm value ≡ done (report_info p s)
      → report_line a memory hm lines key value
        ≡ (mutated_string_and_hex_dump a (memory p) s >>= λ text. done ((p, s) ∷ lines))
  unfolding report_line
  told_line lines key value p s small below e =
      rw (e, ◌>>=◌)
        (ap₂ (λ p s. mutated_string_and_hex_dump a (memory p) s >>= λ text. done ((p, s) ∷ lines))
          (info_location-report_info p s small) (info_bytes-report_info p s below))

  report_line-Seen :
      (i : ℕ) (lines : List (ℕ × ℕ))
      → i < hm.table_count
      → InUse (slot_at hm i)
      → Seen hm live i lines
      → Returns
          (report_line a memory hm lines (key_offset hm i) (value_offset hm i))
          (Seen hm live (i + 1))
  report_line-Seen i lines lt used seen =
      let (p, s, small, key, e, v) = entry_live i lt used in
      let line =
        told_line lines (key_offset hm i) (value_offset hm i) p s small (l.bounded p s e).1
          (read_value-eq hm i l.valid lt ∙ ap done v) in
      subst (λ r. Returns r (Seen hm live (i + 1))) (sym line)
        (Returns->>= (mutated_string_and_hex_dump a (memory p) s) _ (Dumped a (memory p)) _
          (subst (λ n. Returns (mutated_string_and_hex_dump a (memory p) n) (Dumped a (memory p)))
            (stored p s e)
            (mutated_string_and_hex_dump-Dumped a (memory p)
              (omega (arith, stored p s e, total-release p s live e))))
          (λ text h. Seen-visit i lines p s lt used small key e seen))

  all_lines :
      Returns (hashmap_for_each hm (report_line a memory hm) []) (Seen hm live hm.table_count)
  all_lines =
      hashmap_for_each-keeps hm l.valid (report_line a memory hm) (Seen hm live) Seen-skip
        report_line-Seen []
        (record {
          distinct = tt;
          told = λ p q small below has. absurd (omega arith);
          untold = λ p small h. refl;
        })

-- The lines of a report tell each live allocation once, and nothing else.
abbrev pub Reports : List (ℕ × ℕ) → List (ℕ × ℕ) → Type 0
Reports lines live = Distinct lines × ((p : ℕ) → p < 2 ^ 64 → size_of p lines ≡ size_of p live)

Seen-Reports :
    (hm : HashMap) (live lines : List (ℕ × ℕ)) (room : ℕ)
    → Listed hm live room
    → Seen hm live hm.table_count lines
    → Reports lines live
Seen-Reports hm live lines room l s =
    (s.distinct, λ p small. at p small (size_of p live) refl (l.leads p small))
  where
    at :
        (p : ℕ)
        → p < 2 ^ 64
        → (o : Option ℕ) → size_of p live ≡ o
        → Leads hm p o
        → size_of p lines ≡ size_of p live
    at p small none e h = s.untold p small (λ q lt. h q) ∙ sym e
    at p small (some n) e (q, has, v) = s.told p q small has.0 has

no_lines : (live : List (ℕ × ℕ)) → length live ≡ 0 → Reports [] live
no_lines [] e = (tt, λ p small. refl)
no_lines (x ∷ live) e = absurd (omega arith)

-- `memory_deinit` of a tracker that knows the live allocations, each of which has an object of its
-- size, where the counters and sizes do not overflow, does not fault, whether there is room for the
-- dumps or not. It returns how many are live, its report tells each of them once with its size, and
-- nothing else, and it frees the storage of the map.
pub memory_deinit-Reports :
    (a : Allocator) (memory : ℕ → List ℕ) (m : Tracker) (live : List (ℕ × ℕ)) (room : ℕ)
    → Tracks m live room
    → Stored memory live
    → total live + 1 < 2 ^ 64
    → m.deallocations + length live < 2 ^ 64
    → Returns
        (memory_deinit a memory m)
        (λ r. (r.0.0 ≡ length live) × Reports r.0.1 live × (r.1.0 ≡ m.report.storage))
unfolding memory_deinit
memory_deinit-Reports a memory m live room t stored fits few =
    Returns->>=
      (if hashmap_count m.report == 0
        then done []
        else hashmap_for_each m.report (report_line a memory m.report) [])
      _ (λ lines. Reports lines live) _ lines (λ r h. (ground (arith, t.balanced), h, refl))
  where
    lines :
        Returns
          (if hashmap_count m.report == 0
            then done []
            else hashmap_for_each m.report (report_line a memory m.report) [])
          (λ lines. Reports lines live)
    lines = elim (Bool-cases (m.report.slots_used == 0)) [
      | inl e ↦
          Returns-then (m.report.slots_used == 0) _ _ _ e
            (no_lines live (ground (arith, t.listed.counted)))
      | inr e ↦ Returns-else (m.report.slots_used == 0) (done []) _ _ e (
          Returns_mono (hashmap_for_each m.report (report_line a memory m.report) []) _ _
            (all_lines m.report live room t.listed a memory stored fits)
            (λ r s. Seen-Reports m.report live r room t.listed s))
    ]
