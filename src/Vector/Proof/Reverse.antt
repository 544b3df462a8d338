-- ===== src/Vector/Proof/Reverse.antt =====
-- Reversal in place (`vector_reverse` of cstructures/src/vector.c).
use mathlib.Core.List.{reverse}
use cstructures.Prelude.{
  ℕ, suc, ◌+◌, ◌-◌, ◌*◌, ◌<◌, ◌≡◌, ◌≢◌, refl, inr, sym, subst, ◌∙◌, Option, none, some, fault,
  Returns, Returns->>=, arith, lt→ltb, tabulate-reverse,
}
use cstructures.Prelude.Word.{word, sub32, mul32, mul32-eq, mul-le}
use cstructures.Buffer.{Block, moved, copy_within-eq, copy_within_outside}
use cstructures.Vector.Struct.{Vector}
use cstructures.Vector.Reverse.{
  swap_elements, reverse_loop, no_bytes, pointed, end_offset, scratch_offset, vector_reverse,
}
use cstructures.Vector.Valid.{IsValid, place_in, elements}
use cstructures.Vector.Proof.Swap.{reverse_loop-Progress}

reverse_block :
    (c m es : ℕ) (o : Option Block)
    → let v : Vector = record { buf = o; capacity = c; count = m; element_size = es } in
      IsValid v
      → m ≢ 0
      → Returns (vector_reverse v) (λ w. IsValid w × (elements w ≡ reverse (elements v)))
unfolding vector_reverse
reverse_block c m es none ok h = absurd (omega arith)
reverse_block c m es (some b) ok h =
    let p = place_in m ok ok.room in
    let q = place_in c ok (omega arith) in
    let less : sub32 m 1 ≡ m - 1 = omega (arith, p) in
    let last : mul32 (m - 1) es ≡ (m - 1) * es =
      mul32-eq (m - 1) es (omega (arith, p, mul-le (m - 1) m es (omega arith))) in
    let first : 0 * es ≡ 0 = omega arith in
    let from : m - 1 - 0 ≡ m - 1 = omega arith in
    rw (less, last, mul32-eq c es q.1)
      (Returns->>= (reverse_loop word b 0 ((m - 1) * es) (c * es) es) _ _ _
        (rw (first, from) at
          (reverse_loop-Progress es c word m 0 b b ok.sized ok.owns.1 ok.room (omega arith)
            (omega arith) (omega arith)
            (record { size = refl; outer = λ k s t. absurd (omega arith); inner = λ k s t. refl })))
        (λ b' r. (
          record {
            sized = ok.sized;
            room = ok.room;
            bounded = ok.bounded;
            owns = (ok.owns.0, r.0 ∙ ok.owns.1);
          },
          tabulate-reverse m _ _ r.1,
        )))

-- `vector_reverse` of a valid vector that is not empty does not fault, and reverses the sequence of
-- its elements.
pub vector_reverse-reverse :
    (v : Vector)
    → IsValid v
    → v.count ≢ 0
    → Returns (vector_reverse v) (λ w. IsValid w × (elements w ≡ reverse (elements v)))
vector_reverse-reverse v valid ne = reverse_block v.capacity v.count v.element_size v.buf valid ne

-- A round that faults.
first_round :
    (fuel : ℕ) (b : Block) (begin end tmp es : ℕ)
    → begin < end
    → swap_elements b begin end tmp es ≡ fault
    → reverse_loop (suc fuel) b begin end tmp es ≡ fault
unfolding reverse_loop
first_round fuel b begin end tmp es p h = rw (lt→ltb begin end p, h, reverse_loop)

-- The loop is entered, and the copies of its first round fault.
abbrev pub FaultsInRound : Vector → Type 0
FaultsInRound v =
    (0 < end_offset v)
    × (swap_elements (pointed v.buf) 0 (end_offset v) (scratch_offset v) v.element_size ≡ fault)

empty_round :
    (c es : ℕ) (o : Option Block)
    → let v : Vector = record { buf = o; capacity = c; count = 0; element_size = es } in
      IsValid v → FaultsInRound v
unfolding swap_elements
empty_round c es none ok =
    let small = mul-le 1 (c + 1) es (omega arith) in
    let wrapped : mul32 (sub32 0 1) es ≡ word - es = omega (arith, ok.bounded, small) in
    (
      omega (arith, ok.bounded, small, wrapped),
      rw (copy_within_outside no_bytes (mul32 c es) 0 es (omega (arith, ok.sized))),
    )
empty_round c es (some b) ok =
    let whole = mul-le 1 c es ok.owns.0 in
    let scratch : mul32 c es ≡ c * es = mul32-eq c es (omega (arith, ok.bounded)) in
    let wrapped : mul32 (sub32 0 1) es ≡ word - es = omega (arith, ok.bounded, whole) in
    let b₁ : Block = record b { cell = moved b.cell (c * es) 0 es } in
    (
      omega (arith, ok.bounded, whole, wrapped),
      rw (
        scratch,
        wrapped,
        copy_within-eq b (c * es) 0 es (omega (arith, ok.owns)) (omega (arith, ok.owns, whole))
            (inr (omega (arith, whole))),
        copy_within_outside b₁ 0 (word - es) es (omega (arith, ok.owns, ok.bounded, whole)),
      ),
    )

round-fault : (v : Vector) → FaultsInRound v → vector_reverse v ≡ fault
unfolding vector_reverse
round-fault v (entered, faults) = rw (
    first_round (word - 1) (pointed v.buf) 0 (end_offset v) (scratch_offset v) v.element_size
      entered faults)

-- `vector_reverse` of an empty valid vector, with or without an object, enters the loop, as the offset
-- of the last element wraps, and the copies of the first round access memory outside the object or
-- through null, so that the call faults.
pub vector_reverse-empty :
    (v : Vector) → IsValid v → v.count ≡ 0 → FaultsInRound v × (vector_reverse v ≡ fault)
vector_reverse-empty v valid e = (round, round-fault v round)
  where
    round : FaultsInRound v
    round =
        subst (λ t. IsValid (record v { count = t }) → FaultsInRound (record v { count = t }))
          (sym e) (empty_round v.capacity v.element_size v.buf) valid
