-- ===== src/String/Proof/Chars.antt =====
-- Characters of a buffer, the search for one, and the write of a terminator (the parts of `cs_stringok`
-- of cstructures/src/string.c).
use native.Mathlib.Nat.{add-zero}
use cstructures.Prelude.{
  ℕ, zero, suc, ◌+◌, ◌≤◌, ◌<◌, ◌≡◌, ◌≢◌, ◌⊎◌, inl, inr, Bool-cases, refl, sym, ◌∙◌, ap, Option,
  none, some, List, [], ◌∷◌, done, ◌>>=◌, arith, length, ◌==◌, eq→==, ne→==, if◌then◌else◌,
}
use cstructures.Buffer.{Block, read-eq, memcpy-eq, pasted}
use cstructures.String.Tokens.{char_at, strchr_from, strchr, nonempty, next_token}

pub char_at-eq : (b : Block) (off : ℕ) → off < b.size → char_at b off ≡ done (b.cell off)
unfolding char_at
char_at-eq b off lt = rw (read-eq b off 1 (omega arith), ◌>>=◌, add-zero)

-- The characters of a word stand from an offset on.
abbrev pub Spells : (ℕ → ℕ) → ℕ → List ℕ → Type 0
Spells cell off [] = Unit
Spells cell off (c ∷ cs) = (cell off ≡ c) × Spells cell (off + 1) cs

-- A word that the delimiter does not split and no terminator ends.
abbrev pub Whole : ℕ → List ℕ → Type 0
Whole d [] = Unit
Whole d (c ∷ cs) = ((c ≢ d) × (c ≢ 0)) × Whole d cs

pub Spells-kept :
    (cell cell' : ℕ → ℕ) (off : ℕ) (w : List ℕ)
    → ((j : ℕ) → off ≤ j → j < off + length w → cell' j ≡ cell j)
    → Spells cell off w
    → Spells cell' off w
Spells-kept cell cell' off [] h s = tt
Spells-kept cell cell' off (c ∷ cs) h s = (
  h off (omega arith) (omega arith) ∙ s.0,
  Spells-kept cell cell' (off + 1) cs (λ j p q. h j (omega arith) (omega arith)) s.1,
)

module _ (b : Block) (d end : ℕ) where
  -- The search from a word on that is followed by the delimiter or by the terminator.
  strchr_from-eq :
      (w : List ℕ) (fuel off : ℕ)
      → length w < fuel
      → off + length w ≡ end
      → end < b.size
      → Spells b.cell off w
      → Whole d w
      → (b.cell end ≡ d) ⊎ (b.cell end ≡ 0)
      → strchr_from fuel b off d ≡ done (if b.cell end == d then some end else none)
  unfolding strchr_from
  strchr_from-eq w zero off lt e within s p stop = absurd (omega arith)
  strchr_from-eq [] (suc fuel) off lt e within s p stop =
      let here : off ≡ end = omega arith in
      rw (here, char_at-eq b end within, ◌>>=◌)
        (elim (Bool-cases (b.cell end == d)) [
          | inl same ↦ rw same (ap (λ z. done (some z)) here)
          | inr other ↦
              let last : b.cell end ≡ 0 = ground (arith, stop) in
              rw (other, eq→== (b.cell end) 0 last) refl
        ])
  strchr_from-eq (c ∷ cs) (suc fuel) off lt e within s p stop =
      rw
        (
          char_at-eq b off (omega arith),
          ◌>>=◌,
          ne→== (b.cell off) d (λ z. p.0.0 (sym s.0 ∙ z)),
          ne→== (b.cell off) 0 (λ z. p.0.1 (sym s.0 ∙ z)),
        )
        (strchr_from-eq cs fuel (off + 1) (omega arith) (omega arith) within s.1 p.1 stop)

  pub strchr-eq :
      (w : List ℕ) (off : ℕ)
      → off + length w ≡ end
      → end < b.size
      → Spells b.cell off w
      → Whole d w
      → (b.cell end ≡ d) ⊎ (b.cell end ≡ 0)
      → strchr b off d ≡ done (if b.cell end == d then some end else none)
  unfolding strchr
  strchr-eq w off e within s p stop =
      strchr_from-eq w (suc b.size) off (omega arith) e within s p stop

-- The buffer with a terminator at `end`.
abbrev pub ended_at : Block → ℕ → Block
ended_at b end = record b { cell = pasted b.cell end (0 ∷ []) 1 }

-- `*saveptr` and the buffer after a word that ends at `end`.
abbrev pub saved : Block → ℕ → ℕ → Option ℕ
saved b d end = if b.cell end == d then some (end + 1) else none

abbrev pub cut : Block → ℕ → ℕ → Block
cut b d end = if b.cell end == d then ended_at b end else b

-- The token that starts at `off` with a character that is not the terminator.
pub next_token-eq :
    (b : Block) (off d end : ℕ) (c : ℕ) (w : List ℕ)
    → off < end
    → end < b.size
    → Spells b.cell off (c ∷ w)
    → Whole d (c ∷ w)
    → (b.cell end ≡ d) ⊎ (b.cell end ≡ 0)
    → next_token b off d (if b.cell end == d then some end else none)
      ≡ done (some off, (saved b d end, cut b d end))
unfolding next_token nonempty
next_token-eq b off d end c w before within s p stop = elim (Bool-cases (b.cell end == d)) [
  | inl same ↦
      let first : (ended_at b end).cell off ≡ c = ground (arith, s.0) in
      rw
        (
          same,
          memcpy-eq b end (0 ∷ []) 1 (omega arith) (omega arith),
          ◌>>=◌,
          char_at-eq (ended_at b end) off (omega arith),
          first,
          ne→== c 0 p.0.1,
        )
        refl
  | inr other ↦ rw (other, char_at-eq b off (omega arith), ◌>>=◌, s.0, ne→== c 0 p.0.1) refl
]
