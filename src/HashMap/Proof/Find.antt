-- ===== src/HashMap/Proof/Find.antt =====
-- Look-up (`hashmap_find` of cstructures/src/hashmap.c), and the search that never ends in a table
-- without unused slots.
use native.Mathlib.Decide.{ℕ_discrete, dec_lt}
use native.Mathlib.Nat.{mod-lt}
use cstructures.Prelude.{
  ℕ, zero, suc, ◌+◌, ◌*◌, ◌%◌, ◌≤◌, ◌<◌, ◌≡◌, ◌≢◌, inl, inr, refl, sym, ◌∙◌, ap, Option, none, some,
  List, done, fault, Returns, Returns_mono, Returns->>=, ◌>>=◌, arith, eq→==, ne→==, Bool-cases,
}
use cstructures.Prelude.Word.{add32}
use cstructures.Buffer.{same_bytes, same_bytes_iff}
use cstructures.HashMap.Struct.{HashMap, value_offset, read_value, hash_wrapper}
use cstructures.HashMap.Probe.{Verdict, hit, miss, next, advance, rounds, inspect, find_loop}
use cstructures.HashMap.Find.{locate, hashmap_find}
use cstructures.HashMap.Valid.{slot_at, key_at, value_at, probe, Reaches, IsValid, Has, Stops}
use cstructures.HashMap.Proof.Period.{Stops-within}
use cstructures.HashMap.Proof.Sound.{probe-lt}
use cstructures.HashMap.Proof.Read.{
  hash_wrapper-InUse, advance-probe, read_slot-eq, read_key-eq, read_value-eq,
}

-- A round that goes on.
abbrev pub Skipped : HashMap → List ℕ → ℕ → ℕ → Type 0
Skipped hm key hash p = (slot_at hm p ≢ 0) × (slot_at hm p ≡ hash → key_at hm p ≢ key)

abbrev Inspected : HashMap → List ℕ → ℕ → ℕ → Verdict → Type 0
Inspected hm key hash p hit = (slot_at hm p ≡ hash) × (key_at hm p ≡ key)
Inspected hm key hash p miss = slot_at hm p ≡ 0
Inspected hm key hash p next = Skipped hm key hash p

inspect-Inspected :
    (hm : HashMap) (key : List ℕ) (hash p : ℕ)
    → IsValid hm
    → hash ≢ 0
    → p < hm.table_count
    → Returns (inspect hm key hash p) (Inspected hm key hash p)
unfolding inspect
inspect-Inspected hm key hash p valid used lt =
    rw (read_slot-eq hm p valid lt, ◌>>=◌)
      (elim (ℕ_discrete (slot_at hm p) hash) [
        | yes e ↦
            rw (eq→== (slot_at hm p) hash e, read_key-eq hm p valid lt, ◌>>=◌)
              (elim (Bool-cases (same_bytes (key_at hm p) key)) [
                | inl y ↦ rw y (e, (same_bytes_iff _ _).0 y)
                | inr n ↦
                    rw n
                      ((λ z. used (sym e ∙ z)), λ _ k. cc ((same_bytes_iff (key_at hm p) key).1 k))
              ])
        | no d ↦ rw (ne→== (slot_at hm p) hash d) (elim (ℕ_discrete (slot_at hm p) 0) [
          | yes z ↦ rw (eq→== (slot_at hm p) 0 z) z
          | no z ↦ rw (ne→== (slot_at hm p) 0 z) (z, λ e. absurd (d e))
        ])
      ])

-- Where the search ended.
abbrev pub Located : HashMap → List ℕ → ℕ → Option ℕ → Type 0
Located hm key hash (some p) = (p < hm.table_count) × (slot_at hm p ≡ hash) × (key_at hm p ≡ key)
Located hm key hash none =
    (m : ℕ) × (slot_at hm (probe hm.table_count hash m) ≡ 0)
    × ((j : ℕ) → j < m → Skipped hm key hash (probe hm.table_count hash j))

find_loop-Located :
    (fuel : ℕ) (hm : HashMap) (key : List ℕ) (hash n stop : ℕ)
    → IsValid hm
    → hash ≢ 0
    → n ≤ stop
    → stop < n + fuel
    → n + fuel ≤ 2 * hm.table_count
    → slot_at hm (probe hm.table_count hash stop) ≡ 0
    → ((j : ℕ) → j < n → Skipped hm key hash (probe hm.table_count hash j))
    → Returns (find_loop fuel hm key hash (probe hm.table_count hash n) n) (Located hm key hash)
unfolding find_loop
find_loop-Located zero hm key hash n stop valid used le lt max free before = absurd (omega arith)
find_loop-Located (suc fuel) hm key hash n stop valid used le lt max free before =
    let t = hm.table_count in
    let p = probe-lt t hash n valid.slots in
    Returns->>= (inspect hm key hash (probe t hash n)) _ (Inspected hm key hash (probe t hash n))
      (Located hm key hash) (inspect-Inspected hm key hash (probe t hash n) valid used p)
      (verdict (λ h past.
        find_loop-Located fuel hm key hash (suc n) stop valid used (omega (arith, past))
          (omega arith) (omega arith) free
          (λ j q. elim (dec_lt j n) [
            | yes r ↦ before j r
            | no r ↦ let at : j ≡ n = omega arith in rw at h
          ])))
  where
    verdict :
        (Skipped hm key hash (probe hm.table_count hash n)
          → n ≢ stop
          → Returns
              (find_loop fuel hm key hash (probe hm.table_count hash (suc n)) (suc n))
              (Located hm key hash))
        → (v : Verdict) → Inspected hm key hash (probe hm.table_count hash n) v
        → Returns
            (elim v [
              | hit ↦ done (some (probe hm.table_count hash n))
              | miss ↦ done none
              | next ↦
                  find_loop fuel hm key hash
                    (advance hm (probe hm.table_count hash n) (add32 n 1))
                    (add32 n 1)
            ])
            (Located hm key hash)
    verdict rest hit h = (probe-lt hm.table_count hash n valid.slots, h.0, h.1)
    verdict rest miss h = (n, h, before)
    verdict rest next h =
        let step : add32 n 1 ≡ suc n = omega (arith, valid.small) in
        rw (advance-probe hm hash n valid (omega arith), step)
          (rest h (λ e. h.0 (ap (λ m. slot_at hm (probe hm.table_count hash m)) e ∙ free)))

-- The outcome of the search in the map: where the key stands, or that it stands nowhere.
abbrev pub Position : HashMap → List ℕ → Option ℕ → Type 0
Position hm key (some p) = Has hm key p
Position hm key none = (p : ℕ) → ¬ Has hm key p

pub Located-Position :
    (hm : HashMap) (key : List ℕ) (r : Option ℕ)
    → IsValid hm
    → Located hm key (hash_wrapper hm key) r
    → Position hm key r
Located-Position hm key (some p) valid (lt, e, k) =
    let u = hash_wrapper-InUse hm key in (lt, ((λ z. u.0 (sym e ∙ z)), λ z. u.1 (sym e ∙ z)), k)
Located-Position hm key none valid (m, free, before) = nowhere
  where
    nowhere : (p : ℕ) → ¬ Has hm key p
    nowhere p (lt, used, k) = go (valid.sound.reached p lt used)
      where
        hash : ℕ
        hash = hash_wrapper hm key

        slot : slot_at hm p ≡ hash_wrapper hm key
        slot = valid.sound.hashed p lt used ∙ ap (hash_wrapper hm) k

        go : Reaches hm.table_count (slot_at hm) (slot_at hm p) p → ⊥
        go (n, at, clear) = elim (dec_lt m n) [
          | yes q ↦ clear m q (ap (λ h. slot_at hm (probe hm.table_count h m)) slot ∙ free)
          | no q ↦ elim (ℕ_discrete n m) [
            | yes e ↦ used.0 (
                ap (slot_at hm) (sym (place at))
                ∙ (ap (λ i. slot_at hm (probe hm.table_count hash i)) e ∙ free))
            | no d ↦
                (before n (omega (arith, q, d))).1 (ap (slot_at hm) (place at) ∙ slot)
                  (ap (key_at hm) (place at) ∙ k)
          ]
        ]
          where
            place :
                probe hm.table_count (slot_at hm p) n ≡ p
                → probe hm.table_count (hash_wrapper hm key) n ≡ p
            place e = ap (λ h. probe hm.table_count h n) (sym slot) ∙ e

-- The search of a valid map whose probing for the key stops.
pub locate-Position :
    (hm : HashMap) (key : List ℕ)
    → IsValid hm
    → Stops hm key
    → Returns (locate hm key) (Position hm key)
unfolding locate
locate-Position hm key valid stops =
    let (stop, lt, free) = Stops-within hm key valid.slots stops in
    let hash = hash_wrapper hm key in
    Returns_mono (find_loop (rounds hm) hm key hash (hash % hm.table_count) 0) (Located hm key hash)
      (Position hm key)
      (find_loop-Located (rounds hm) hm key hash 0 stop valid (hash_wrapper-InUse hm key).0
        (omega arith) (omega arith) (omega arith) free (λ j p. absurd (omega arith)))
      (λ r h. Located-Position hm key r valid h)

-- A pointer to the value under the key, or null.
abbrev pub Found : HashMap → List ℕ → Option ℕ → Type 0
Found hm key none = (p : ℕ) → ¬ Has hm key p
Found hm key (some off) = (p : ℕ) × Has hm key p × (read_value hm off ≡ done (value_at hm p))

-- `hashmap_find` of a valid map, in which the probing for the key meets an unused slot, ends and does
-- not fault. It returns a pointer to the value of the key, or null if the map does not have the key.
pub hashmap_find-Found :
    (hm : HashMap) (key : List ℕ)
    → IsValid hm
    → Stops hm key
    → Returns (hashmap_find hm key) (Found hm key)
unfolding hashmap_find
hashmap_find-Found hm key valid stops =
    Returns->>= (locate hm key) _ (Position hm key) (Found hm key)
      (locate-Position hm key valid stops) answer
  where
    answer :
        (r : Option ℕ)
        → Position hm key r
        → Found hm key (elim r [ none ↦ none | some pos ↦ some (value_offset hm pos) ])
    answer none h = h
    answer (some p) h = (p, h, read_value-eq hm p valid h.0)

inspect-next :
    (hm : HashMap) (key : List ℕ) (hash p : ℕ)
    → IsValid hm
    → p < hm.table_count
    → Skipped hm key hash p
    → inspect hm key hash p ≡ done next
unfolding inspect
inspect-next hm key hash p valid lt (used, other) =
    rw (read_slot-eq hm p valid lt, ◌>>=◌)
      (elim (ℕ_discrete (slot_at hm p) hash) [
        | no d ↦ rw (ne→== (slot_at hm p) hash d, ne→== (slot_at hm p) 0 used)
        | yes e ↦
            rw (eq→== (slot_at hm p) hash e, read_key-eq hm p valid lt, ◌>>=◌)
              (elim (Bool-cases (same_bytes (key_at hm p) key)) [
                | inl y ↦ absurd (other e ((same_bytes_iff _ _).0 y))
                | inr n ↦ rw n
              ])
      ])

-- The search for a key in a table that has no unused slot and that does not have the key.
find_loop-stuck :
    (fuel : ℕ) (hm : HashMap) (key : List ℕ) (hash pos i : ℕ)
    → IsValid hm
    → ((p : ℕ) → p < hm.table_count → Skipped hm key hash p)
    → pos < hm.table_count
    → find_loop fuel hm key hash pos i ≡ fault
unfolding find_loop
find_loop-stuck zero hm key hash pos i valid skipped lt = refl
find_loop-stuck (suc fuel) hm key hash pos i valid skipped lt =
    let rest =
      find_loop-stuck fuel hm key hash (advance hm pos (add32 i 1)) (add32 i 1) valid skipped
        (mod-lt _ valid.slots) in
    rw (inspect-next hm key hash pos valid lt (skipped pos lt), ◌>>=◌) rest

-- In a valid map without an unused slot, which does not have the key, the probing of `hashmap_find`
-- does not end in any number of rounds.
pub hashmap_find-endless :
    (fuel : ℕ) (hm : HashMap) (key : List ℕ)
    → IsValid hm
    → ((p : ℕ) → p < hm.table_count → slot_at hm p ≢ 0)
    → ((p : ℕ) → ¬ Has hm key p)
    → find_loop fuel hm key (hash_wrapper hm key) (hash_wrapper hm key % hm.table_count) 0 ≡ fault
hashmap_find-endless fuel hm key valid none_free absent =
    let u = hash_wrapper-InUse hm key in
    find_loop-stuck fuel hm key (hash_wrapper hm key) (hash_wrapper hm key % hm.table_count) 0 valid
      (λ p lt.
        (none_free p lt, λ e k. absent p (lt, ((λ z. u.0 (sym e ∙ z)), λ z. u.1 (sym e ∙ z)), k)))
      (mod-lt _ valid.slots)
