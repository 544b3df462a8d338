-- ===== src/Tests/String.antt =====
-- Runs of the functions on strings, and instances of their properties.
use cstructures.Prelude.{ℕ, ◌≡◌, ◌⊎◌, refl, true, none, some, List, [], ◌∷◌, Returns, arith}
use cstructures.Vector.Storage.{vector_realloc}
use cstructures.Vector.Insert.{vector_emplace}
use cstructures.Vector.Valid.{IsValid, elements, Refuses}
use cstructures.String.Struct.{CsString, string_create}
use cstructures.String.Lines.{read_line, no_more, failed, string_getline}
use cstructures.String.Valid.{Bounds}
use cstructures.String.Proof.Getline.{GotString, string_getline-GotString}
use cstructures.String.Proof.RoundTrip.{read_lines, buffers, read_lines-written}
use cstructures.String.Proof.Tokens.{split, SplitInto, split-SplitInto}
use cstructures.Tests.Memory.{object, generous, refusing}

-- What `string_init` gives.
abbrev fresh : CsString
fresh = record { buf = record { buf = none; capacity = 0; count = 0; element_size = 1 } }

fresh-IsValid : IsValid fresh.buf
fresh-IsValid = record {
  sized = omega arith;
  room = omega arith;
  bounded = omega arith;
  owns = refl;
}

abbrev bounds : Bounds 16 32
bounds = record { least = omega arith; double = omega arith; small = omega arith }

-- An empty line, and then `hi`, with carriage returns.
abbrev text : List ℕ
text = 13 ∷ 10 ∷ 104 ∷ 105 ∷ 13 ∷ 10 ∷ 111 ∷ []

string_getline-GotString_example :
    Returns (string_getline generous fresh text) (GotString generous 32 text)
string_getline-GotString_example =
    string_getline-GotString generous 16 32 fresh text bounds fresh-IsValid refl (omega arith)
      (omega arith)

getline_runs : Returns (string_getline generous fresh text) (λ r.
    (r.0 ≡ read_line)
    × (elements r.1.0.buf ≡ (104 ∷ []) ∷ (105 ∷ []) ∷ (0 ∷ []) ∷ [])
    × (r.1.1 ≡ 111 ∷ []))
unfolding string_getline vector_emplace vector_realloc
getline_runs = (refl, refl, refl)

-- A last line without a newline is not returned.
getline_drops : Returns (string_getline generous fresh (111 ∷ [])) (λ r. r.0 ≡ no_more)
unfolding string_getline vector_emplace vector_realloc
getline_drops = refl

getline_fails : Returns (string_getline refusing fresh (111 ∷ [])) (λ r. r.0 ≡ failed)
unfolding string_getline vector_emplace vector_realloc
getline_fails = refl

abbrev two_lines : List (List ℕ)
two_lines = (104 ∷ 105 ∷ []) ∷ (111 ∷ []) ∷ []

read_lines-written_example :
    Returns
      (read_lines generous 3 fresh (104 ∷ 105 ∷ 10 ∷ 111 ∷ 10 ∷ []))
      (λ r. (r ≡ some (buffers two_lines)) ⊎ ((r ≡ none) × Refuses generous))
read_lines-written_example =
    read_lines-written generous 16 32 bounds two_lines
      (
        ((λ e. cc), ((omega arith, omega arith), ((omega arith, omega arith), tt))),
        (((λ e. cc), ((omega arith, omega arith), tt)), tt),
      )
      fresh fresh-IsValid refl (omega arith) (omega arith)

-- `a,bc` with its terminator.
abbrev joined : CsString
joined = record {
  buf = record {
    buf = some (object 8 (97 ∷ 44 ∷ 98 ∷ 99 ∷ 0 ∷ []));
    capacity = 7;
    count = 5;
    element_size = 1;
  };
}

split-SplitInto_example :
    Returns
      (split 3 true 44 joined none)
      (SplitInto (object 8 (97 ∷ 44 ∷ 98 ∷ 99 ∷ 0 ∷ [])) 0 ((97 ∷ []) ∷ (98 ∷ 99 ∷ []) ∷ []))
split-SplitInto_example =
    split-SplitInto ((97 ∷ []) ∷ (98 ∷ 99 ∷ []) ∷ []) true 44 0 joined
      (object 8 (97 ∷ 44 ∷ 98 ∷ 99 ∷ 0 ∷ [])) none (omega arith) refl refl
      (
        (λ e. cc),
        ((omega arith, omega arith), tt),
        ((λ e. cc), ((omega arith, omega arith), ((omega arith, omega arith), tt)), tt),
      )
      ((refl, tt), refl, ((refl, (refl, tt)), refl)) (omega arith)

split_runs : Returns (split 3 true 44 joined none) (λ r. r.0 ≡ 0 ∷ 2 ∷ [])
unfolding split
split_runs = refl

-- Two delimiters in a row end the split, before the last word.
abbrev gap : CsString
gap = record {
  buf = record {
    buf = some (object 8 (97 ∷ 44 ∷ 44 ∷ 98 ∷ 0 ∷ []));
    capacity = 7;
    count = 5;
    element_size = 1;
  };
}

split_stops_at_gap : Returns (split 4 true 44 gap none) (λ r. r.0 ≡ 0 ∷ [])
unfolding split
split_stops_at_gap = refl

-- The pointer is null, although the struct was allocated.
create_returns_null : (string_create generous).0 ≡ none
unfolding string_create
create_returns_null = refl
