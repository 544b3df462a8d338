-- ===== src/String/Proof/Tokens.antt =====
-- A string that is joined of words is split into them (`cs_stringok` of cstructures/src/string.c).
use cstructures.Prelude.{
  ℕ, zero, suc, ◌+◌, ◌≤◌, ◌<◌, ◌≡◌, ◌≢◌, ◌⊎◌, inl, inr, refl, sym, ◌∙◌, ap, Bool, true, false,
  Option, none, some, List, [], ◌∷◌, Exec, done, fault, ◌>>=◌, Returns, Returns->>=, arith, length,
  ◌==◌, eq→==, ne→==, if◌then◌else◌,
}
use cstructures.Buffer.{Block}
use cstructures.String.Struct.{CsString}
use cstructures.String.Tokens.{cs_stringok}
use cstructures.String.Proof.Chars.{
  Spells, Whole, Spells-kept, strchr-eq, saved, cut, ended_at, next_token-eq,
}

-- The string that owns an object.
abbrev pub over : CsString → Block → CsString
over str b = record { buf = record (str.buf) { buf = some b } }

-- A call at the start of a word: it returns the word, and leaves a terminator behind it.
pub cs_stringok-word :
    (first : Bool) (d : ℕ) (str : CsString) (b : Block) (saveptr : Option ℕ) (off end c : ℕ)
    (w : List ℕ)
    → str.buf.buf ≡ some b
    → (if first then some 0 else saveptr) ≡ some off
    → off + length (c ∷ w) ≡ end
    → end < b.size
    → Spells b.cell off (c ∷ w)
    → Whole d (c ∷ w)
    → (b.cell end ≡ d) ⊎ (b.cell end ≡ 0)
    → cs_stringok first d str saveptr ≡ done (some off, (saved b d end, over str (cut b d end)))
unfolding cs_stringok
cs_stringok-word first d str b saveptr off end c w own at e within s p stop =
    rw
      (
        cs_stringok,
        at,
        own,
        strchr-eq b d end (c ∷ w) off e within s p stop,
        ◌>>=◌,
        next_token-eq b off d end c w (omega arith) within s p stop,
      )
      refl

-- Calls until one returns null, first with the string: the pointers that they return. There is a round
-- for every token and one more.
unfoldable pub split : ℕ → Bool → ℕ → CsString → Option ℕ → Exec (List ℕ × CsString)
unfolding cs_stringok
split zero first d str saveptr = fault
split (suc fuel) first d str saveptr = cs_stringok first d str saveptr >>= λ r. elim r.0 [
  | none ↦ done ([], r.1.1)
  | some p ↦ split fuel false d r.1.1 r.1.0 >>= λ q. done (p ∷ q.0, q.1)
]

-- The two kinds of words: one that the delimiter follows, and the last one.
abbrev returned : CsString → ℕ → Option ℕ → Block → Exec (Option ℕ × (Option ℕ × CsString))
returned str off next b = done (some off, (next, over str b))

returned_more :
    (b : Block) (d end off : ℕ) (str : CsString)
    → b.cell end ≡ d
    → returned str off (saved b d end) (cut b d end)
      ≡ returned str off (some (end + 1)) (ended_at b end)
returned_more b d end off str e =
    let same : b.cell end == d ≡ true = eq→== (b.cell end) d e in
    ap
      (λ t. returned str off (if t then some (end + 1) else none) (if t then ended_at b end else b))
      same

returned_last :
    (b : Block) (d end off : ℕ) (str : CsString)
    → b.cell end ≢ d
    → returned str off (saved b d end) (cut b d end) ≡ returned str off none b
returned_last b d end off str ne =
    let other : b.cell end == d ≡ false = ne→== (b.cell end) d ne in
    ap
      (λ t. returned str off (if t then some (end + 1) else none) (if t then ended_at b end else b))
      other

-- Words from an offset on, with the delimiter between them and the terminator behind the last.
abbrev pub Joined : (ℕ → ℕ) → ℕ → ℕ → List (List ℕ) → Type 0
Joined cell d off [] = ⊥
Joined cell d off (w ∷ []) = Spells cell off w × (cell (off + length w) ≡ 0)
Joined cell d off (w ∷ v ∷ ws) =
    Spells cell off w × (cell (off + length w) ≡ d) × Joined cell d (off + length w + 1) (v ∷ ws)

-- The offset of the terminator.
abbrev pub last_of : ℕ → List (List ℕ) → ℕ
last_of off [] = off
last_of off (w ∷ []) = off + length w
last_of off (w ∷ v ∷ ws) = last_of (off + length w + 1) (v ∷ ws)

-- No word is empty, or has the delimiter or a terminator in it.
abbrev pub AllWhole : ℕ → List (List ℕ) → Type 0
AllWhole d [] = Unit
AllWhole d (w ∷ ws) = (w ≢ []) × Whole d w × AllWhole d ws

-- Each pointer leads to its word, with a terminator behind it.
abbrev pub Pointed : (ℕ → ℕ) → List ℕ → List (List ℕ) → Type 0
Pointed cell [] [] = Unit
Pointed cell [] (w ∷ ws) = ⊥
Pointed cell (p ∷ ps) [] = ⊥
Pointed cell (p ∷ ps) (w ∷ ws) = Spells cell p w × (cell (p + length w) ≡ 0) × Pointed cell ps ws

last_of-le : (off : ℕ) (ws : List (List ℕ)) → off ≤ last_of off ws
last_of-le off [] = omega arith
last_of-le off (w ∷ []) = omega arith
last_of-le off (w ∷ v ∷ ws) = omega (arith, last_of-le (off + length w + 1) (v ∷ ws))

Joined-kept :
    (cell cell' : ℕ → ℕ) (d off : ℕ) (ws : List (List ℕ))
    → ((j : ℕ) → off ≤ j → cell' j ≡ cell j)
    → Joined cell d off ws
    → Joined cell' d off ws
Joined-kept cell cell' d off [] h j = j
Joined-kept cell cell' d off (w ∷ []) h (s, e) =
    (Spells-kept cell cell' off w (λ j p q. h j p) s, h (off + length w) (omega arith) ∙ e)
Joined-kept cell cell' d off (w ∷ v ∷ ws) h (s, e, rest) = (
  Spells-kept cell cell' off w (λ j p q. h j p) s,
  h (off + length w) (omega arith) ∙ e,
  Joined-kept cell cell' d (off + length w + 1) (v ∷ ws) (λ j p. h j (omega arith)) rest,
)

-- The outcome of the calls: pointers to the words, in a string that is otherwise unchanged before them.
abbrev pub SplitInto : Block → ℕ → List (List ℕ) → List ℕ × CsString → Type 0
SplitInto b off ws r =
    (b' : Block) × (r.1.buf.buf ≡ some b')
    × Pointed b'.cell r.0 ws
    × ((j : ℕ) → j < off → b'.cell j ≡ b.cell j)

abbrev continue : ℕ → ℕ → Option ℕ × (Option ℕ × CsString) → Exec (List ℕ × CsString)
continue fuel d r = elim r.0 [
  | none ↦ done ([], r.1.1)
  | some p ↦ split fuel false d r.1.1 r.1.0 >>= λ q. done (p ∷ q.0, q.1)
]

-- `cs_stringok`, called until it returns null, on a string of words, with a delimiter between them that
-- is not the terminator, returns pointers to the words in order, if no word is empty or has the
-- delimiter or a terminator in it. Each word then has a terminator behind it. Nothing faults.
pub split-SplitInto :
    (ws : List (List ℕ)) (first : Bool) (d off : ℕ) (str : CsString) (b : Block)
    (saveptr : Option ℕ)
    → d ≢ 0
    → str.buf.buf ≡ some b
    → (if first then some 0 else saveptr) ≡ some off
    → AllWhole d ws
    → Joined b.cell d off ws
    → last_of off ws < b.size
    → Returns (split (suc (length ws)) first d str saveptr) (SplitInto b off ws)
unfolding split
split-SplitInto [] first d off str b saveptr proper own at all joined within = absurd joined
split-SplitInto ([] ∷ ws) first d off str b saveptr proper own at all joined within =
    absurd (all.0 refl)
split-SplitInto ((c ∷ w) ∷ []) first d off str b saveptr proper own at (ne, whole, rest) (s, e)
      within =
    let end : ℕ = off + length (c ∷ w) in
    let call =
      cs_stringok-word first d str b saveptr off end c w own at refl within s whole (inr e)
      ∙ returned_last b d end off str (λ z. proper (sym z ∙ e)) in
    rw (call, ◌>>=◌) (b, refl, (s, e, tt), λ j lt. refl)
split-SplitInto ((c ∷ w) ∷ v ∷ ws) first d off str b saveptr proper own at (ne, whole, all)
      (s, e, joined) within =
    let end : ℕ = off + length (c ∷ w) in
    let b₁ : Block = ended_at b end in
    let below : end < b.size = omega (arith, last_of-le (end + 1) (v ∷ ws)) in
    let call =
      cs_stringok-word first d str b saveptr off end c w own at refl below s whole (inl e)
      ∙ returned_more b d end off str e in
    rw (call, ◌>>=◌)
      (Returns->>= (split (suc (length (v ∷ ws))) false d (over str b₁) (some (end + 1))) _
        (SplitInto b₁ (end + 1) (v ∷ ws)) (SplitInto b off ((c ∷ w) ∷ v ∷ ws))
        (split-SplitInto (v ∷ ws) false d (end + 1) (over str b₁) b₁ (some (end + 1)) proper refl
          refl all (Joined-kept b.cell b₁.cell d (end + 1) (v ∷ ws) (λ j p. ground arith) joined)
          within)
        (λ q (b', owned, pointed, before). (
          b',
          owned,
          (
            Spells-kept b.cell b'.cell off (c ∷ w) (λ j p r. before j (omega arith) ∙ ground arith)
                s,
            before end (omega arith) ∙ ground arith,
            pointed,
          ),
          λ j lt. before j (omega arith) ∙ ground arith,
        )))
