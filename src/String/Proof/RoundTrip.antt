-- ===== src/String/Proof/RoundTrip.antt =====
-- Lines that are written to a stream are read back (`string_getline` of cstructures/src/string.c).
use mathlib.Core.List.{append_assoc}
use cstructures.Prelude.{
  ℕ, zero, suc, ◌≤◌, ◌≡◌, ◌≢◌, ◌⊎◌, inl, inr, refl, sym, ◌∙◌, ap, subst, Option, none, some, List,
  [], ◌∷◌, ◌++◌, map, Exec, done, fault, ◌>>=◌, Returns, Returns->>=, arith, length, length-append,
  ne→==,
}
use cstructures.Buffer.{Allocator}
use cstructures.Vector.Struct.{Vector}
use cstructures.Vector.Valid.{IsValid, elements, Refuses}
use cstructures.String.Struct.{CsString}
use cstructures.String.Lines.{
  Outcome, read_line, no_more, failed, carriage, newline, nullterm, string_getline,
}
use cstructures.String.Valid.{char, Bounds}
use cstructures.String.Proof.Lines.{
  without_carriage, AllBlank, NoNewline, Consumed, GotLine, got, ended, refused,
}
use cstructures.String.Proof.Getline.{GotString, string_getline-GotString}

-- Characters of a line that is read as it was written.
abbrev pub IsPlain : List ℕ → Type 0
IsPlain [] = Unit
IsPlain (c ∷ cs) = ((c ≢ carriage) × (c ≢ newline)) × IsPlain cs

abbrev pub IsLine : List ℕ → Type 0
IsLine l = (l ≢ []) × IsPlain l

abbrev pub AllLines : List (List ℕ) → Type 0
AllLines [] = Unit
AllLines (l ∷ ls) = IsLine l × AllLines ls

-- The lines, each with a newline behind it.
abbrev pub written : List (List ℕ) → List ℕ
written [] = []
written (l ∷ ls) = l ++ newline ∷ written ls

plain-NoNewline : (l : List ℕ) → IsPlain l → NoNewline l
plain-NoNewline [] p = tt
plain-NoNewline (c ∷ cs) p = (p.0.1, plain-NoNewline cs p.1)

plain-without_carriage : (l : List ℕ) → IsPlain l → without_carriage l ≡ l
plain-without_carriage [] p = refl
plain-without_carriage (c ∷ cs) p =
    rw (ne→== c carriage p.0.0) (ap (λ t. c ∷ t) (plain-without_carriage cs p.1))

-- The first newline splits a stream in one way only.
split_unique :
    (xs ys r r' : List ℕ)
    → NoNewline xs
    → NoNewline ys
    → xs ++ newline ∷ r ≡ ys ++ newline ∷ r'
    → (xs ≡ ys) × (r ≡ r')
split_unique [] [] r r' p q e = (refl, cc)
split_unique [] (y ∷ ys) r r' p q e = absurd (q.0 cc)
split_unique (x ∷ xs) [] r r' p q e = absurd (p.0 cc)
split_unique (x ∷ xs) (y ∷ ys) r r' p q e =
    let tails : xs ++ newline ∷ r ≡ ys ++ newline ∷ r' = cc in
    let (same, rest) = split_unique xs ys r r' p.1 q.1 tails in (cc, rest)

has_newline : (xs ys r : List ℕ) → NoNewline ys → xs ++ newline ∷ r ≢ ys
has_newline [] [] r q e = cc
has_newline [] (y ∷ ys) r q e = q.0 cc
has_newline (x ∷ xs) [] r q e = cc
has_newline (x ∷ xs) (y ∷ ys) r q e = has_newline xs ys r q.1 cc

-- Before a line, nothing is skipped.
none_skipped :
    (l skipped t u : List ℕ) → IsLine l → AllBlank skipped → skipped ++ t ≡ l ++ u → skipped ≡ []
none_skipped l [] t u p q e = refl
none_skipped [] (s ∷ skipped) t u p q e = absurd (p.0 refl)
none_skipped (c ∷ cs) (s ∷ skipped) t u p q e =
    let same : s ≡ c = cc in
    elim q.0 [
      | inl is_carriage ↦ absurd (p.1.0.0 (sym same ∙ is_carriage))
      | inr is_newline ↦ absurd (p.1.0.1 (sym same ∙ is_newline))
    ]

-- What is read first from a stream that starts with a line: the line.
first_line :
    (l rest pre line rest' : List ℕ)
    → IsLine l
    → l ++ newline ∷ rest ≡ pre ++ newline ∷ rest'
    → Consumed pre line
    → (line ≡ l) × (rest' ≡ rest)
first_line l rest pre line rest' p e c =
    let whole : c.skipped ++ (c.body ++ newline ∷ rest') ≡ l ++ newline ∷ rest =
      sym (append_assoc c.skipped c.body (newline ∷ rest'))
      ∙ (ap (λ t. t ++ newline ∷ rest') (sym c.parts) ∙ sym e) in
    let nothing = none_skipped l c.skipped _ _ p c.blank whole in
    let (same, tails) =
      split_unique c.body l rest' rest c.one_line (plain-NoNewline l p.1)
        (subst (λ s. s ++ (c.body ++ newline ∷ rest') ≡ l ++ newline ∷ rest) nothing whole) in
    (sym c.line_is ∙ (ap without_carriage same ∙ plain-without_carriage l p.1), tails)

not_ended : (l rest line : List ℕ) → IsLine l → ¬ Consumed (l ++ newline ∷ rest) line
not_ended l rest line p c =
    let nothing = none_skipped l c.skipped c.body (newline ∷ rest) p c.blank (sym c.parts) in
    has_newline l c.body rest c.one_line (c.parts ∙ ap (λ s. s ++ c.body) nothing)

-- `while (string_getline (str, fp) == 1)`, with a round for every line and one more: the bytes of the
-- buffer after each line; none after a failure.
unfoldable pub read_lines : Allocator → ℕ → CsString → List ℕ → Exec (Option (List (List (List ℕ))))
unfolding string_getline
read_lines a zero str stream = fault
read_lines a (suc fuel) str stream = string_getline a str stream >>= λ r. elim r.0 [
  | read_line ↦ read_lines a fuel r.1.0 r.1.1 >>= λ more. elim more [
    | none ↦ done none
    | some ls ↦ done (some (elements r.1.0.buf ∷ ls))
  ]
  | no_more ↦ done (some [])
  | failed ↦ done none
]

-- The buffer after each line.
abbrev pub buffers : List (List ℕ) → List (List (List ℕ))
buffers [] = []
buffers (l ∷ ls) = map char (l ++ char nullterm) ∷ buffers ls

module _ (a : Allocator) (n bound : ℕ) (b : Bounds n bound) where
  abbrev ReadBack : List (List ℕ) → Option (List (List (List ℕ))) → Type 0
  ReadBack ls r = (r ≡ some (buffers ls)) ⊎ ((r ≡ none) × Refuses a)

  -- The rest of the loop, after a call.
  abbrev continue : ℕ → Outcome × (CsString × List ℕ) → Exec (Option (List (List (List ℕ))))
  continue fuel r = elim r.0 [
    | read_line ↦ read_lines a fuel r.1.0 r.1.1 >>= λ more. elim more [
      | none ↦ done none
      | some ls ↦ done (some (elements r.1.0.buf ∷ ls))
    ]
    | no_more ↦ done (some [])
    | failed ↦ done none
  ]

  abbrev ReadsBack : List (List ℕ) → Type 0
  ReadsBack ls =
      (str : CsString)
      → IsValid str.buf
      → str.buf.element_size ≡ 1
      → str.buf.capacity ≤ bound
      → length (written ls) ≤ n
      → Returns (read_lines a (suc (length ls)) str (written ls)) (ReadBack ls)

  after_end :
      (o : Outcome) (w : Vector) (rest : List ℕ)
      → GotLine a bound [] (o, (w, rest))
      → Returns (continue 0 (o, (record { buf = w }, rest))) (ReadBack [])
  after_end _ _ _ (got [] line rest w ne e c h) = cc
  after_end _ _ _ (got (x ∷ pre) line rest w ne e c h) = cc
  after_end _ _ _ (ended line w c h) = inl refl
  after_end _ _ _ (refused w rest why) = inr (refl, why)

  after_line :
      (l : List ℕ) (ls : List (List ℕ)) (o : Outcome) (w : Vector) (rest : List ℕ)
      → IsLine l
      → length (written ls) ≤ n
      → ReadsBack ls
      → GotLine a bound (written (l ∷ ls)) (o, (w, rest))
      → Returns (continue (suc (length ls)) (o, (record { buf = w }, rest))) (ReadBack (l ∷ ls))
  after_line l ls _ _ _ p le ih (got pre line rest w ne e c h) =
      let (same, tails) = first_line l (written ls) pre line rest p e c in
      rw tails (
        Returns->>= (read_lines a (suc (length ls)) (record { buf = w }) (written ls)) _
          (ReadBack ls) _ (ih (record { buf = w }) h.valid h.single h.below le)
          (λ more k. elim k [
            | inl found ↦ rw found (
                inl (
                  ap (λ t. some (t ∷ buffers ls))
                    (h.chars_are ∙ ap (λ t. map char (t ++ char nullterm)) same)))
            | inr (nothing, why) ↦ rw nothing (inr (refl, why))
          ]))
  after_line l ls _ _ _ p le ih (ended line w c h) = absurd (not_ended l (written ls) line p c)
  after_line l ls _ _ _ p le ih (refused w rest why) = inr (refl, why)

  -- Lines that are written to a stream, each with a newline behind it, and are then read by
  -- `string_getline` until it says that there are no more, are read back in order, each with a
  -- terminator behind it, if none is empty and none has a carriage return or a newline in it, and the
  -- length of the stream stays below a bound that does not wrap. Nothing faults, and the loop ends; or
  -- the allocator refused a request.
  pub read_lines-written : (ls : List (List ℕ)) → AllLines ls → ReadsBack ls
  unfolding read_lines
  read_lines-written [] p str valid single below le =
      Returns->>= (string_getline a str []) (continue 0) (GotString a bound []) (ReadBack [])
        (string_getline-GotString a n bound str [] b valid single below le)
        (λ r g. after_end r.0 r.1.0.buf r.1.1 g)
  read_lines-written (l ∷ ls) (p, ps) str valid single below le =
      Returns->>= (string_getline a str (written (l ∷ ls))) _ (GotString a bound (written (l ∷ ls)))
        _ (string_getline-GotString a n bound str (written (l ∷ ls)) b valid single below le)
        (λ r g.
          after_line l ls r.0 r.1.0.buf r.1.1 p
            (omega (arith, length-append l (newline ∷ written ls))) (read_lines-written ls ps) g)
