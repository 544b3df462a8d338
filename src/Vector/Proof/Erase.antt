-- ===== src/Vector/Proof/Erase.antt =====
-- Removal (`vector_pop`, `vector_erase_index` and `vector_erase_element` of
-- cstructures/src/vector.c).
use native.Mathlib.Decide.{ℕ_discrete}
use native.Mathlib.Nat.{le_refl, mul_comm}
use cstructures.Prelude.{
  ℕ, suc, ◌+◌, ◌-◌, ◌*◌, ◌%◌, ◌≤◌, ◌<◌, ◌≡◌, ◌≢◌, refl, sym, ◌∙◌, ap, subst, inl, inr, Option, none,
  some, [], ◌∷◌, ◌++◌, false, Returns, arith, take, drop, tabulate, tabulate-push, tabulate-remove,
  ◌==◌, ==_iff, eq→==, ne→==, lt→ltb, le→leb, Bool-cases,
}
use cstructures.Prelude.Word.{word, sub32, mul32, mul32-eq, mul-le, entry-le, sub-mul}
use cstructures.Buffer.{Block, bytes, moved, memmove-eq, bytes-moved, bytes-moved_beside}
use cstructures.Vector.Struct.{Vector}
use cstructures.Vector.Erase.{vector_pop, close_gap, vector_erase_index, vector_erase_element}
use cstructures.Vector.Valid.{IsValid, place_in, entry, elements}

-- The outcome of `vector_pop`: null from an empty vector, which stays; else the offset of the last
-- element, in a vector that holds the elements before it.
pub record Popped (v : Vector) (p : Option ℕ) (w : Vector) : Type 0 where
  pub valid : IsValid w
  pub empty : v.count ≡ 0 → (p ≡ none) × (w ≡ v)
  pub last :
      v.count ≢ 0
      → (p ≡ some (w.count * v.element_size)) × (elements v ≡ elements w ++ entry v w.count ∷ [])

-- `vector_pop` of a valid vector returns null and changes nothing if there is no element, and else
-- takes the last element off and returns its offset.
pub vector_pop-Popped : (v : Vector) → IsValid v → Popped v (vector_pop v).0 (vector_pop v).1
unfolding vector_pop
vector_pop-Popped v valid = elim (ℕ_discrete v.count 0) [
  | yes e ↦
      rw ((==_iff v.count 0).1 e)
        (record { valid = valid; empty = λ _. (refl, refl); last = λ ne. absurd (ne e) })
  | no ne ↦
      let test : v.count == 0 ≡ false = ground arith in
      let p = place_in (v.count - 1) valid (omega (arith, valid.room)) in
      rw test (record {
        valid = record {
          sized = valid.sized;
          room = omega (arith, valid.room);
          bounded = valid.bounded;
          owns = valid.owns;
        };
        empty = λ e. absurd (ne e);
        last = λ _. (
          ap some (
              mul32-eq v.element_size (v.count - 1) (omega (arith, p))
              ∙ mul_comm v.element_size (v.count - 1)),
          tabulate-push (v.count - 1) v.count (entry v) (entry v) (entry v (v.count - 1))
              (omega arith) (λ k q. refl) refl,
        );
      })
]

-- `u` is a valid vector that holds the elements of `v` without the one at `i`.
pub record Removed (v : Vector) (i : ℕ) (u : Vector) : Type 0 where
  pub valid : IsValid u
  pub removed : elements u ≡ take i (elements v) ++ drop (suc i) (elements v)

-- The move of `n` bytes, up to the end of element `m`, down by one element.
module _ (cell : ℕ → ℕ) (es i m n : ℕ) (lt : i < m) (e : i * es + es + n ≡ m * es) where
  closed_low :
      (k : ℕ)
      → k < i
      → bytes (moved cell (i * es) (i * es + es) n) (k * es) es ≡ bytes cell (k * es) es
  closed_low k p =
      bytes-moved_beside cell (i * es) n (k * es) es (i * es + es) (inl (entry-le k i es p))

  closed_high :
      (k : ℕ)
      → i ≤ k
      → suc k < m
      → bytes (moved cell (i * es) (i * es + es) n) (k * es) es ≡ bytes cell (suc k * es) es
  closed_high k p q =
      bytes-moved cell (i * es) n (k * es) es (i * es + es) (mul-le i k es p)
        (omega (arith, entry-le (suc k) m es q))
      ∙ ap (λ t. bytes cell t es) (omega (arith, mul-le i k es p))

-- The removal of an element that is not the last one.
close_gap-Removed :
    (c m es i : ℕ) (o : Option Block)
    → let v : Vector = record { buf = o; capacity = c; count = m; element_size = es } in
      IsValid v
      → i + 1 < m
      → Returns (close_gap v (i * es) (i * es + es) (m * es - (i * es + es))) (Removed v i)
unfolding close_gap
close_gap-Removed c m es i none valid lt = absurd (omega arith)
close_gap-Removed c m es i (some b) valid lt =
    let v : Vector = record { buf = some b; capacity = c; count = m; element_size = es } in
    let p = place_in m valid valid.room in
    let q = entry-le i m es (omega arith) in
    let less : sub32 m 1 ≡ m - 1 = omega (arith, p) in
    let n : ℕ = m * es - (i * es + es) in
    let e : i * es + es + n ≡ m * es = omega (arith, q) in
    rw
      (
        memmove-eq b (i * es) (i * es + es) n (omega (arith, p, q, valid.owns))
            (omega (arith, p, q, valid.owns)),
        close_gap,
        less,
      )
      (record {
        valid = record {
          sized = valid.sized;
          room = omega (arith, valid.room);
          bounded = valid.bounded;
          owns = valid.owns;
        };
        removed =
            let whole : tabulate m (entry v) ≡ tabulate (suc (m - 1)) (entry v) =
              (let e' : m ≡ suc (m - 1) = omega arith in ap (λ t. tabulate t (entry v)) e') in
            rw whole (
              tabulate-remove i (m - 1) _ (entry v) (omega arith)
                (closed_low b.cell es i m n (omega arith) e)
                (λ k s t. closed_high b.cell es i m n (omega arith) e k s (omega arith)));
      })

pub pop-Removed : (v : Vector) (i : ℕ) → IsValid v → i + 1 ≡ v.count → Removed v i (vector_pop v).1
unfolding vector_pop
pop-Removed v i valid e =
    let test : v.count == 0 ≡ false = ground arith in
    let whole : v.count ≡ suc i = omega arith in
    let less : v.count - 1 ≡ i = omega arith in
    rw test (record {
      valid = record {
        sized = valid.sized;
        room = omega (arith, valid.room);
        bounded = valid.bounded;
        owns = valid.owns;
      };
      removed = rw less (
          subst
            (λ t.
              tabulate i (entry v)
              ≡ take i (tabulate t (entry v)) ++ drop (suc i) (tabulate t (entry v)))
            (sym whole)
            (tabulate-remove i i (entry v) (entry v) (omega arith) (λ k p. refl)
              (λ k p q. absurd (omega arith))));
    })

-- `vector_erase_index` of a valid vector at an index below its count does not fault, and takes that
-- element out of the sequence.
pub vector_erase_index-Removed :
    (v : Vector) (i : ℕ) → IsValid v → i < v.count → Returns (vector_erase_index v i) (Removed v i)
unfolding vector_erase_index
vector_erase_index-Removed v i valid lt =
    let p = place_in v.count valid valid.room in
    let less : sub32 v.count 1 ≡ v.count - 1 = omega (arith, p) in
    rw (lt→ltb i v.count lt, less)
      (elim (Bool-cases (i == v.count - 1)) [
        | inl e ↦ rw e (pop-Removed v i valid (ground arith))
        | inr ne ↦
            let q = entry-le i v.count v.element_size lt in
            let lower : v.element_size * i ≡ i * v.element_size = mul_comm v.element_size i in
            let total : v.element_size * v.count ≡ v.count * v.element_size =
              mul_comm v.element_size v.count in
            let size : sub32 (sub32 (v.count * v.element_size % word) (i * v.element_size % word))
                  v.element_size
                ≡ v.count * v.element_size - (i * v.element_size + v.element_size) =
              omega (arith, p, q) in
            rw (ne, lower, total, size)
              (close_gap-Removed v.capacity v.count v.element_size i v.buf valid (ground arith))
      ])

-- `vector_erase_element` at the offset of an element is `vector_erase_index` at its index.
pub vector_erase_element-eq :
    (v : Vector) (i : ℕ)
    → IsValid v
    → i < v.count
    → vector_erase_element v (i * v.element_size) ≡ vector_erase_index v i
unfolding vector_erase_element vector_erase_index
vector_erase_element-eq v i valid lt =
    let p = place_in v.count valid valid.room in
    let less : sub32 v.count 1 ≡ v.count - 1 = omega (arith, p) in
    let q = entry-le i v.count v.element_size lt in
    let last : mul32 (v.count - 1) v.element_size ≡ v.count * v.element_size - v.element_size =
      mul32-eq (v.count - 1) v.element_size
        (omega (arith, p, mul-le (v.count - 1) v.count v.element_size (omega arith)))
      ∙ (sub-mul v.count 1 v.element_size (omega arith) ∙ omega arith) in
    let lower : v.element_size * i ≡ i * v.element_size = mul_comm v.element_size i in
    let total : v.element_size * v.count ≡ v.count * v.element_size =
      mul_comm v.element_size v.count in
    let size : sub32 (sub32 (v.count * v.element_size % word) (i * v.element_size % word))
          v.element_size
        ≡ (v.count * v.element_size - v.element_size - i * v.element_size) % word =
      omega (arith, p, q) in
    elim (ℕ_discrete i (v.count - 1)) [
      | yes e ↦
          let at_last : i * v.element_size ≡ v.count * v.element_size - v.element_size =
            ap (λ t. t * v.element_size) e
            ∙ (sub-mul v.count 1 v.element_size (omega arith) ∙ omega arith) in
          rw (
            less,
            last,
            at_last,
            le→leb _ _ (le_refl (v.count * v.element_size - v.element_size)),
            eq→== (v.count * v.element_size - v.element_size)
                (v.count * v.element_size - v.element_size) refl,
            lt→ltb i v.count lt,
            eq→== i (v.count - 1) e,
            ne→== v.count 0 (omega arith),
          )
      | no ne ↦
          let r = entry-le i (v.count - 1) v.element_size (omega arith) in
          let r' = sub-mul v.count 1 v.element_size (omega arith) in
          rw (
            less,
            last,
            lower,
            total,
            size,
            le→leb (i * v.element_size) (v.count * v.element_size - v.element_size)
                (omega (arith, r, r')),
            ne→== (i * v.element_size) (v.count * v.element_size - v.element_size)
                (omega (arith, r, r')),
            lt→ltb i v.count lt,
            ne→== i (v.count - 1) ne,
          )
    ]
