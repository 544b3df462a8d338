-- ===== src/String/Proof/Lines.antt =====
-- What `string_getline` reads (cstructures/src/string.c).
use mathlib.Core.List.{append-nil, append_assoc}
use native.Mathlib.Decide.{ℕ_discrete}
use cstructures.Prelude.{
  ℕ, ◌≡◌, ◌≢◌, ◌⊎◌, inl, inr, refl, sym, ◌∙◌, ap, subst, List, [], ◌∷◌, ◌++◌, arith, if◌then◌else◌,
  ◌==◌, eq→==, ne→==,
}
use cstructures.Buffer.{Allocator}
use cstructures.Vector.Struct.{Vector}
use cstructures.Vector.Valid.{Refuses}
use cstructures.String.Lines.{Outcome, read_line, no_more, failed, carriage, newline, nullterm}
use cstructures.String.Valid.{char, Holds}

-- The characters without the carriage returns.
abbrev pub without_carriage : List ℕ → List ℕ
without_carriage [] = []
without_carriage (c ∷ cs) = if c == carriage then without_carriage cs else c ∷ without_carriage cs

-- Only carriage returns and newlines, and no newline.
abbrev pub AllBlank : List ℕ → Type 0
AllBlank [] = Unit
AllBlank (c ∷ cs) = ((c ≡ carriage) ⊎ (c ≡ newline)) × AllBlank cs

abbrev pub NoNewline : List ℕ → Type 0
NoNewline [] = Unit
NoNewline (c ∷ cs) = (c ≢ newline) × NoNewline cs

-- The characters that have been read: blank ones, and then the line so far.
pub record Consumed (pre line : List ℕ) : Type 0 where
  pub skipped : List ℕ
  pub body : List ℕ
  pub parts : pre ≡ skipped ++ body
  pub blank : AllBlank skipped
  pub one_line : NoNewline body
  pub line_is : without_carriage body ≡ line

AllBlank-append : (xs ys : List ℕ) → AllBlank xs → AllBlank ys → AllBlank (xs ++ ys)
AllBlank-append [] ys p q = q
AllBlank-append (x ∷ xs) ys p q = (p.0, AllBlank-append xs ys p.1 q)

NoNewline-append : (xs ys : List ℕ) → NoNewline xs → NoNewline ys → NoNewline (xs ++ ys)
NoNewline-append [] ys p q = q
NoNewline-append (x ∷ xs) ys p q = (p.0, NoNewline-append xs ys p.1 q)

without_carriage-append :
    (xs ys : List ℕ) → without_carriage (xs ++ ys) ≡ without_carriage xs ++ without_carriage ys
without_carriage-append [] ys = refl
without_carriage-append (x ∷ xs) ys = ground (arith, without_carriage-append xs ys)

-- A line without characters is blank.
empty-AllBlank : (body : List ℕ) → without_carriage body ≡ [] → AllBlank body
empty-AllBlank [] e = tt
empty-AllBlank (c ∷ cs) e = elim (ℕ_discrete c carriage) [
  | yes same ↦ (inl same, empty-AllBlank cs (ground arith))
  | no ne ↦ ground arith
]

module _ (pre line : List ℕ) (h : Consumed pre line) where
  pub consume_carriage : (c : ℕ) → c ≡ carriage → Consumed (pre ++ char c) line
  consume_carriage c e = record {
    skipped = h.skipped;
    body = h.body ++ char c;
    parts = ap (λ t. t ++ char c) h.parts ∙ append_assoc h.skipped h.body (char c);
    blank = h.blank;
    one_line = NoNewline-append h.body (char c) h.one_line (ground arith, tt);
    line_is =
        without_carriage-append h.body (char c)
        ∙ (ap (λ t. t ++ without_carriage (char c)) h.line_is
            ∙ rw (eq→== c carriage e) (append-nil line));
  }

  pub consume_char :
      (c : ℕ) → c ≢ carriage → c ≢ newline → Consumed (pre ++ char c) (line ++ char c)
  consume_char c ne ne' = record {
    skipped = h.skipped;
    body = h.body ++ char c;
    parts = ap (λ t. t ++ char c) h.parts ∙ append_assoc h.skipped h.body (char c);
    blank = h.blank;
    one_line = NoNewline-append h.body (char c) h.one_line (ne', tt);
    line_is =
        without_carriage-append h.body (char c)
        ∙ (ap (λ t. t ++ without_carriage (char c)) h.line_is ∙ rw (ne→== c carriage ne) refl);
  }

  pub consume_empty : (c : ℕ) → c ≡ newline → line ≡ [] → Consumed (pre ++ char c) []
  consume_empty c e none_yet = record {
    skipped = pre ++ char c;
    body = [];
    parts = sym (append-nil (pre ++ char c));
    blank =
        AllBlank-append pre (char c)
          (subst AllBlank (sym h.parts) (
            AllBlank-append h.skipped h.body h.blank
              (empty-AllBlank h.body (h.line_is ∙ none_yet))))
          (inr e, tt);
    one_line = tt;
    line_is = refl;
  }

-- The outcome of reading from `stream`. A line has at least one character, and ends with a newline in
-- the stream and a terminator in the buffer; or the stream has no more complete line; or the allocator
-- refused a request.
pub data GotLine (a : Allocator) (bound : ℕ) (stream : List ℕ)
    : Outcome × (Vector × List ℕ) → Type 0 where
  got :
      (pre line rest : List ℕ) (w : Vector)
      → line ≢ []
      → stream ≡ pre ++ newline ∷ rest
      → Consumed pre line
      → Holds w (line ++ char nullterm) bound
      → GotLine a bound stream (read_line, (w, rest))
  ended :
      (line : List ℕ) (w : Vector)
      → Consumed stream line
      → Holds w line bound
      → GotLine a bound stream (no_more, (w, []))
  refused : (w : Vector) (rest : List ℕ) → Refuses a → GotLine a bound stream (failed, (w, rest))
