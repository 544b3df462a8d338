-- ===== src/HashMap/Proof/Probe.antt =====
-- Where the probing of an insertion ends, and the place that it chooses (`hashmap_insert` of
-- cstructures/src/hashmap.c).
use native.Mathlib.Decide.{ℕ_discrete, dec_lt}
use cstructures.Prelude.{
  ℕ, zero, suc, ◌+◌, ◌*◌, ◌%◌, ◌≤◌, ◌<◌, ◌≡◌, ◌≢◌, ◌⊎◌, inl, inr, refl, sym, ◌∙◌, ap, Option, none,
  some, List, done, Returns, Returns->>=, ◌>>=◌, arith, eq→==, ne→==, Bool, true, false, Bool-cases,
}
use cstructures.Prelude.Word.{add32}
use cstructures.Buffer.{same_bytes, same_bytes_iff}
use cstructures.HashMap.Struct.{HashMap, slot_invalid, hash_wrapper}
use cstructures.HashMap.Probe.{advance, rounds, same_key, tombstone, insert_loop}
use cstructures.HashMap.Insert.{chosen}
use cstructures.HashMap.Valid.{slot_at, key_at, probe, InUse, Reaches, IsValid, Stops}
use cstructures.HashMap.Proof.Period.{Stops-within}
use cstructures.HashMap.Proof.Sound.{probe-lt}
use cstructures.HashMap.Proof.Find.{Skipped}
use cstructures.HashMap.Proof.Read.{advance-probe, read_slot-eq, read_key-eq}

-- The last tombstone among the first `n` rounds.
abbrev pub Tombstone : HashMap → ℕ → ℕ → ℕ → Type 0
Tombstone hm hash n last =
    (last ≡ slot_invalid)
    ⊎ ((j : ℕ) × (j < n) × (last ≡ probe hm.table_count hash j) × (slot_at hm last ≡ 1))

-- Where the loop ended: at the key; or at the first unused slot, with the last tombstone before it.
abbrev pub Ended : HashMap → List ℕ → ℕ → Option (ℕ × ℕ) → Type 0
Ended hm key hash none =
    (p : ℕ) × (p < hm.table_count) × (slot_at hm p ≡ hash) × (key_at hm p ≡ key)
Ended hm key hash (some (pos, last)) =
    (m : ℕ) × (pos ≡ probe hm.table_count hash m)
    × (slot_at hm pos ≡ 0)
    × ((j : ℕ) → j < m → Skipped hm key hash (probe hm.table_count hash j))
    × Tombstone hm hash m last

-- Whether a slot in use has the key.
abbrev Same : HashMap → List ℕ → ℕ → ℕ → Bool → Type 0
Same hm key hash p true = (slot_at hm p ≡ hash) × (key_at hm p ≡ key)
Same hm key hash p false = slot_at hm p ≡ hash → key_at hm p ≢ key

same_key-Same :
    (hm : HashMap) (key : List ℕ) (hash p : ℕ)
    → IsValid hm
    → p < hm.table_count
    → Returns (same_key hm key hash p (slot_at hm p)) (Same hm key hash p)
unfolding same_key
same_key-Same hm key hash p valid lt = elim (ℕ_discrete (slot_at hm p) hash) [
  | no d ↦ rw (ne→== (slot_at hm p) hash d) (λ e. absurd (d e))
  | yes e ↦
      rw (eq→== (slot_at hm p) hash e, read_key-eq hm p valid lt, ◌>>=◌)
        (elim (Bool-cases (same_bytes (key_at hm p) key)) [
          | inl y ↦ rw y (e, (same_bytes_iff _ _).0 y)
          | inr n ↦ rw n (λ _ k. cc ((same_bytes_iff (key_at hm p) key).1 k))
        ])
]

tombstone-Tombstone :
    (hm : HashMap) (hash n last : ℕ)
    → Tombstone hm hash n last
    → Tombstone hm hash (suc n) (
        tombstone hash
          (slot_at hm (probe hm.table_count hash n))
          (probe hm.table_count hash n)
          last)
tombstone-Tombstone hm hash n last h =
    let pos = probe hm.table_count hash n in
    let slot = slot_at hm pos in
    elim (ℕ_discrete slot hash) [
      | yes e ↦ rw (eq→== slot hash e) later
      | no d ↦ rw (ne→== slot hash d) (elim (ℕ_discrete slot 1) [
        | yes e ↦ rw (eq→== slot 1 e) (inr (n, omega arith, refl, e))
        | no d' ↦ rw (ne→== slot 1 d') later
      ])
    ]
  where
    later : Tombstone hm hash (suc n) last
    later = elim h [ inl e ↦ inl e | inr (j, lt, e, s) ↦ inr (j, omega arith, e, s) ]

insert_loop-Ended :
    (fuel : ℕ) (hm : HashMap) (key : List ℕ) (hash n stop last : ℕ)
    → IsValid hm
    → n ≤ stop
    → stop < n + fuel
    → n + fuel ≤ 2 * hm.table_count
    → slot_at hm (probe hm.table_count hash stop) ≡ 0
    → ((j : ℕ) → j < n → Skipped hm key hash (probe hm.table_count hash j))
    → Tombstone hm hash n last
    → Returns
        (insert_loop fuel hm key hash (probe hm.table_count hash n) n last)
        (Ended hm key hash)
unfolding insert_loop
insert_loop-Ended zero hm key hash n stop last valid le lt max free before tomb =
    absurd (omega arith)
insert_loop-Ended (suc fuel) hm key hash n stop last valid le lt max free before tomb =
    let t = hm.table_count in
    let pos = probe t hash n in
    let p = probe-lt t hash n valid.slots in
    let step : add32 n 1 ≡ suc n = omega (arith, valid.small) in
    rw (read_slot-eq hm pos valid p, ◌>>=◌)
      (elim (ℕ_discrete (slot_at hm pos) 0) [
        | yes z ↦ rw (eq→== (slot_at hm pos) 0 z) (n, refl, z, before, tomb)
        | no z ↦ rw (ne→== (slot_at hm pos) 0 z) (
            Returns->>= (same_key hm key hash pos (slot_at hm pos)) _ (Same hm key hash pos)
              (Ended hm key hash) (same_key-Same hm key hash pos valid p)
              (answer p (λ other.
                insert_loop-Ended fuel hm key hash (suc n) stop
                  (tombstone hash (slot_at hm pos) pos last) valid (omega (arith, past z))
                  (omega arith) (omega arith) free
                  (λ j q. elim (dec_lt j n) [
                    | yes r ↦ before j r
                    | no r ↦ let at : j ≡ n = omega arith in rw at (z, other)
                  ])
                  (tombstone-Tombstone hm hash n last tomb))))
      ])
  where
    past : slot_at hm (probe hm.table_count hash n) ≢ 0 → n ≢ stop
    past z e = z (ap (λ m. slot_at hm (probe hm.table_count hash m)) e ∙ free)

    mark : ℕ
    mark =
        tombstone hash (slot_at hm (probe hm.table_count hash n)) (probe hm.table_count hash n) last

    answer :
        probe hm.table_count hash n < hm.table_count
        → (Same hm key hash (probe hm.table_count hash n) false
            → Returns
                (insert_loop fuel hm key hash (probe hm.table_count hash (suc n)) (suc n) mark)
                (Ended hm key hash))
        → (same : Bool) → Same hm key hash (probe hm.table_count hash n) same
        → Returns
            (elim same [
              | true ↦ done none
              | false ↦
                  insert_loop fuel hm key hash
                    (advance hm (probe hm.table_count hash n) (add32 n 1))
                    (add32 n 1)
                    mark
            ])
            (Ended hm key hash)
    answer p rest true h = (probe hm.table_count hash n, p, h.0, h.1)
    answer p rest false h =
        let step : add32 n 1 ≡ suc n = omega (arith, valid.small) in
        rw (advance-probe hm hash n valid (omega arith), step) (rest h)

-- The place for a new entry: free, and the probing comes to it.
pub record Free (hm : HashMap) (hash p : ℕ) : Type 0 where
  pub within : p < hm.table_count
  pub free : ¬ InUse (slot_at hm p)
  pub reached : Reaches hm.table_count (slot_at hm) hash p

pub chosen-Free :
    (hm : HashMap) (key : List ℕ) (hash pos last : ℕ)
    → IsValid hm
    → Ended hm key hash (some (pos, last))
    → Free hm hash (chosen pos last)
chosen-Free hm key hash pos last valid (m, at, free, before, tomb) = elim tomb [
  | inl e ↦ rw (eq→== last slot_invalid e) (record {
    within = rw at (probe-lt hm.table_count hash m valid.slots);
    free = λ u. u.0 free;
    reached = (m, sym at, λ j lt. (before j lt).0);
  })
  | inr (j, lt, e, rip) ↦
      let inside : last < hm.table_count = rw e (probe-lt hm.table_count hash j valid.slots) in
      let other : last ≢ slot_invalid = omega (arith, inside, valid.small) in
      rw (ne→== last slot_invalid other) (record {
        within = inside;
        free = λ u. u.1 rip;
        reached = (j, sym e, λ i q. (before i (omega arith)).0);
      })
]

-- The loop of `hashmap_insert` in a valid map, in which the probing for the key stops.
pub probing-Ended :
    (hm : HashMap) (key : List ℕ)
    → IsValid hm
    → Stops hm key
    → Returns
        (insert_loop
          (rounds hm)
          hm
          key
          (hash_wrapper hm key)
          (hash_wrapper hm key % hm.table_count)
          0
          slot_invalid)
        (Ended hm key (hash_wrapper hm key))
probing-Ended hm key valid stops =
    let (stop, lt, free) = Stops-within hm key valid.slots stops in
    insert_loop-Ended (rounds hm) hm key (hash_wrapper hm key) 0 stop slot_invalid valid
      (omega arith) (omega arith) (omega arith) free (λ j p. absurd (omega arith)) (inl refl)
