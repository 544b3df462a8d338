-- ===== src/Vector/Proof/Find.antt =====
-- Reading (`vector_back`, `vector_get_element` and `vector_find_element` of
-- cstructures/src/vector.c).
use native.Mathlib.Decide.{dec_lt}
use cstructures.Prelude.{
  ℕ, zero, suc, ◌+◌, ◌*◌, ◌≤◌, ◌<◌, ◌≡◌, ◌≢◌, inl, inr, ap, ◌∙◌, Option, none, some, List, done,
  Returns, arith, lt→ltb, Bool-cases, false,
}
use cstructures.Prelude.Word.{entry-le}
use cstructures.Buffer.{Block, read-eq, same_bytes, same_bytes_iff}
use cstructures.Vector.Struct.{Vector}
use cstructures.Vector.Access.{vector_get_element, element_at, find_from, vector_find_element}
use cstructures.Vector.Valid.{IsValid, entry}

-- A pointer to element `i` of a valid vector reads its bytes.
pub element_at-eq :
    (v : Vector) (i : ℕ)
    → IsValid v
    → i < v.count
    → element_at v (i * v.element_size) ≡ done (entry v i)
element_at-eq v i valid lt = go v.capacity v.count v.element_size v.buf valid lt
  where
    go :
        (c m es : ℕ) (o : Option Block)
        → let w : Vector = record { buf = o; capacity = c; count = m; element_size = es } in
          IsValid w → i < m → element_at w (i * es) ≡ done (entry w i)
    go c m es none ok p = absurd (omega arith)
    go c m es (some b) ok p =
        let q = entry-le i (c + 1) es (omega (arith, ok.room)) in
        unfold element_at in read-eq b (i * es) es (omega (arith, q, ok.owns))

-- The first place below the count where the element stands, or the count if there is none.
pub record FirstAt (v : Vector) (x : List ℕ) (i : ℕ) : Type 0 where
  pub within : i ≤ v.count
  pub before : (j : ℕ) → j < i → entry v j ≢ x
  pub there : i < v.count → entry v i ≡ x

find_from-FirstAt :
    (v : Vector) (x : List ℕ) (rounds i : ℕ)
    → IsValid v
    → rounds + i ≡ v.count
    → ((j : ℕ) → j < i → entry v j ≢ x)
    → Returns (find_from v x rounds i) (FirstAt v x)
unfolding find_from vector_get_element
find_from-FirstAt v x zero i valid e h = record {
  within = omega arith;
  before = λ j p. h j (omega arith);
  there = λ p. absurd (omega arith);
}
find_from-FirstAt v x (suc rounds) i valid e h =
    rw (lt→ltb i v.count (omega arith), element_at-eq v i valid (omega arith))
      (elim (Bool-cases (same_bytes (entry v i) x)) [
        | inl t ↦
            rw t
              (record { within = omega arith; before = h; there = λ _. (same_bytes_iff _ _).0 t })
        | inr f ↦ rw f (find_from-FirstAt v x rounds (i + 1) valid (omega arith) (further f))
      ])
  where
    further : same_bytes (entry v i) x ≡ false → (j : ℕ) → j < i + 1 → entry v j ≢ x
    further f j p = elim (dec_lt j i) [
      | yes q ↦ h j q
      | no q ↦ λ t.
          let at : i ≡ j = omega arith in
          let found = (same_bytes_iff (entry v i) x).1 (ap (entry v) at ∙ t) in cc
    ]

-- `vector_find_element` of a valid vector does not fault, and returns the first index at which the
-- element stands, or the count if it stands nowhere.
pub vector_find_element-FirstAt :
    (v : Vector) (x : List ℕ) → IsValid v → Returns (vector_find_element v x) (FirstAt v x)
unfolding vector_find_element
vector_find_element-FirstAt v x valid =
    find_from-FirstAt v x v.count 0 valid (omega arith) (λ j p. absurd (omega arith))
