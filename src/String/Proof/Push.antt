-- ===== src/String/Proof/Push.antt =====
-- A character that is pushed to the buffer of a string (the pushes of cstructures/src/string.c).
use mathlib.Core.List.{map-append}
use cstructures.Prelude.{
  ℕ, suc, ◌≤◌, ◌≡◌, refl, sym, ◌∙◌, ap, List, [], ◌∷◌, ◌++◌, map, Returns, Returns_mono,
  Returns_and, arith, length, length-tabulate,
}
use cstructures.Prelude.Word.{mul32}
use cstructures.Buffer.{Allocator}
use cstructures.Vector.Struct.{Vector, Status, success, out_of_memory, size_differs}
use cstructures.Vector.Storage.{initial_capacity, vector_clear}
use cstructures.Vector.Insert.{vector_push}
use cstructures.Vector.Valid.{IsValid, entry, elements, Refuses, OrUnchanged}
use cstructures.Vector.Proof.Open.{CanDouble, FullAndRefused, vector_push-Pushed}
use cstructures.Vector.Proof.Shape.{Shaped, vector_push-Shaped}
use cstructures.String.Valid.{char, Holds, Bounds}

length-map-char : (xs : List ℕ) → length (map char xs) ≡ length xs
length-map-char [] = refl
length-map-char (x ∷ xs) = ap suc (length-map-char xs)

pub count-Holds :
    (v : Vector) (chars : List ℕ) (bound : ℕ) → Holds v chars bound → v.count ≡ length chars
count-Holds v chars bound h =
    sym (length-tabulate v.count (entry v)) ∙ (ap length h.chars_are ∙ length-map-char chars)

-- Success with the character at the end; or the allocator refused.
abbrev pub PushedChar : Allocator → List ℕ → ℕ → Status × Vector → Type 0
PushedChar a chars bound (success, w) = Holds w chars bound
PushedChar a chars bound (out_of_memory, w) = Refuses a
PushedChar a chars bound (size_differs, w) = ⊥

pub push-PushedChar :
    (a : Allocator) (v : Vector) (chars : List ℕ) (c n bound : ℕ)
    → Holds v chars bound
    → Bounds n bound
    → length chars ≤ n
    → Returns (vector_push a v (char c)) (PushedChar a (chars ++ char c) bound)
push-PushedChar a v chars c n bound h b le =
    Returns_mono (vector_push a v (char c)) _ _
      (Returns_and (vector_push a v (char c)) _ _
        (vector_push-Pushed a v (char c) h.valid can_double (sym h.single))
        (vector_push-Shaped a 1 bound v (char c) (h.single, h.below) grown))
      (λ r k. outcome r k.0 k.1)
  where
    few : v.count ≤ n
    few = omega (arith, count-Holds v chars bound h)

    grown : initial_capacity (mul32 v.count 2) ≤ bound
    grown = ground (arith, few, b.least, b.double, b.small)

    can_double : CanDouble v
    can_double e = ground (arith, few, h.single, b.least, b.double, b.small)

    outcome :
        (r : Status × Vector)
        → OrUnchanged v
            (FullAndRefused a v)
            (λ w. IsValid w × (elements w ≡ elements v ++ char c ∷ []))
            r
        → Shaped 1 bound r.1
        → PushedChar a (chars ++ char c) bound r
    outcome (success, w) (valid, e) (single, below) = record {
      valid = valid;
      single = single;
      below = below;
      chars_are =
          e ∙ (ap (λ t. t ++ char c ∷ []) h.chars_are ∙ sym (map-append char chars (char c)));
    }
    outcome (out_of_memory, w) why s = why.1.1
    outcome (size_differs, w) why s = why

-- A buffer that is cleared holds nothing.
pub clear-Holds :
    (v : Vector) (bound : ℕ)
    → IsValid v
    → v.element_size ≡ 1
    → v.capacity ≤ bound
    → Holds (vector_clear v) [] bound
unfolding vector_clear
clear-Holds v bound valid single below = record {
  valid = record {
    sized = valid.sized;
    room = omega arith;
    bounded = valid.bounded;
    owns = valid.owns;
  };
  single = single;
  below = below;
  chars_are = refl;
}
