-- ===== src/HashMap/Proof/Sound.antt =====
-- A sound table stays so, if an entry becomes a tombstone or a free entry is taken for a new key.
use native.Mathlib.Nat.{mod-lt}
use native.Mathlib.Decide.{ℕ_discrete}
use cstructures.Prelude.{ℕ, zero, suc, ◌+◌, ◌<◌, ◌≡◌, ◌≢◌, sym, ◌∙◌, ap, subst, List, arith}
use cstructures.HashMap.Valid.{probe, InUse, Reaches, Sound}

pub probe-lt : (t hash n : ℕ) → 0 < t → probe t hash n < t
probe-lt t hash zero pos = mod-lt hash pos
probe-lt t hash (suc n) pos = mod-lt (probe t hash n + suc n) pos

-- A change of slots that empties none keeps what is reached.
Reaches-keeps :
    (t : ℕ) (slot slot' : ℕ → ℕ) (hash p : ℕ)
    → 0 < t
    → ((q : ℕ) → q < t → slot q ≢ 0 → slot' q ≢ 0)
    → Reaches t slot hash p
    → Reaches t slot' hash p
Reaches-keeps t slot slot' hash p pos keeps (n, at, before) =
    (n, at, λ m lt. keeps (probe t hash m) (probe-lt t hash m pos) (before m lt))

module _ (t : ℕ) (hash : List ℕ → ℕ) (slot slot' : ℕ → ℕ) (key key' : ℕ → List ℕ) (p : ℕ)
    (sound : Sound t hash slot key) (pos : 0 < t)
    (slots : (q : ℕ) → q < t → q ≢ p → slot' q ≡ slot q)
    (keys : (q : ℕ) → q < t → q ≢ p → key' q ≡ key q) where
  -- Only entry `p` changes, and its slot does not become unused.
  not_emptied : slot' p ≢ 0 → (q : ℕ) → q < t → slot q ≢ 0 → slot' q ≢ 0
  not_emptied here q lt ne = elim (ℕ_discrete q p) [
    | yes e ↦ λ z. here (ap slot' (sym e) ∙ z)
    | no d ↦ λ z. ne (sym (slots q lt d) ∙ z)
  ]

  in_use : (q : ℕ) → q < t → q ≢ p → InUse (slot' q) → InUse (slot q)
  in_use q lt d (u, r) = ((λ z. u (slots q lt d ∙ z)), λ z. r (slots q lt d ∙ z))

  pub Sound-erase : slot' p ≡ 1 → Sound t hash slot' key'
  Sound-erase rip = record {
    hashed = λ q lt u.
        slots q lt (other q u)
        ∙ (sound.hashed q lt (in_use q lt (other q u) u) ∙ ap hash (sym (keys q lt (other q u))));
    reached = λ q lt u.
        subst (λ h. Reaches t slot' h q) (sym (slots q lt (other q u)))
          (Reaches-keeps t slot slot' (slot q) q pos (not_emptied (omega (arith, rip)))
            (sound.reached q lt (in_use q lt (other q u) u)));
    unique = λ q r lt lt' u u' e.
        sound.unique q r lt lt' (in_use q lt (other q u) u) (in_use r lt' (other r u') u')
          (sym (keys q lt (other q u)) ∙ (e ∙ keys r lt' (other r u')));
  }
    where
      other : (q : ℕ) → InUse (slot' q) → q ≢ p
      other q u e = u.1 (ap slot' e ∙ rip)

  pub Sound-insert :
      (k : List ℕ)
      → slot' p ≡ hash k
      → key' p ≡ k
      → InUse (hash k)
      → Reaches t slot (hash k) p
      → ((q : ℕ) → q < t → InUse (slot q) → key q ≢ k)
      → Sound t hash slot' key'
  Sound-insert k taken named used reach absent = record {
    hashed = λ q lt u. elim (ℕ_discrete q p) [
      | yes e ↦ ap slot' e ∙ (taken ∙ ap hash (sym named ∙ ap key' (sym e)))
      | no d ↦ slots q lt d ∙ (sound.hashed q lt (in_use q lt d u) ∙ ap hash (sym (keys q lt d)))
    ];
    reached = λ q lt u. elim (ℕ_discrete q p) [
      | yes e ↦
          subst (λ r. Reaches t slot' (slot' r) r) (sym e)
            (subst (λ h. Reaches t slot' h p) (sym taken)
              (Reaches-keeps t slot slot' (hash k) p pos (not_emptied filled) reach))
      | no d ↦
          subst (λ h. Reaches t slot' h q) (sym (slots q lt d))
            (Reaches-keeps t slot slot' (slot q) q pos (not_emptied filled)
              (sound.reached q lt (in_use q lt d u)))
    ];
    unique = λ q r lt lt' u u' e. elim (ℕ_discrete q p) [
      | yes a ↦ elim (ℕ_discrete r p) [
        | yes b ↦ a ∙ sym b
        | no b ↦
            absurd (
              absent r lt' (in_use r lt' b u') (sym (keys r lt' b) ∙ (sym e ∙ (ap key' a ∙ named))))
      ]
      | no a ↦ elim (ℕ_discrete r p) [
        | yes b ↦
            absurd (absent q lt (in_use q lt a u) (sym (keys q lt a) ∙ (e ∙ (ap key' b ∙ named))))
        | no b ↦
            sound.unique q r lt lt' (in_use q lt a u) (in_use r lt' b u')
              (sym (keys q lt a) ∙ (e ∙ keys r lt' b))
      ]
    ];
  }
    where
      filled : slot' p ≢ 0
      filled z = used.0 (sym taken ∙ z)
