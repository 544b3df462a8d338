-- ===== src/Vector/Proof/Append.antt =====
-- Appending another vector (`vector_push_vector` of cstructures/src/vector.c).
use cstructures.Prelude.{
  ℕ, ◌+◌, ◌*◌, ◌≤◌, ◌<◌, ◌≡◌, ◌≢◌, refl, sym, subst, ◌∙◌, ap, inl, inr, Option, none, some, ◌++◌,
  done, Returns, Returns->>=, Returns_mono, arith, length-tabulate, get_or-tabulate, tabulate_ext,
  tabulate-add, if◌then◌else◌, ltb, eq→==, ne→==, Bool-cases,
}
use cstructures.Prelude.Word.{add32-eq, mul32-eq, mul-le, entry-le, offset-lt}
use cstructures.Buffer.{
  Block, bytes, pasted, memcpy-eq, read-eq, pasted_at, bytes-pasted_beside, Allocator,
}
use cstructures.Vector.Struct.{Vector, Status, success, out_of_memory, size_differs}
use cstructures.Vector.Storage.{vector_realloc}
use cstructures.Vector.Insert.{append_source, vector_push_vector}
use cstructures.Vector.Valid.{IsValid, place_in, elements, Refuses, OrUnchanged, OrUnchanged-mono}
use cstructures.Vector.Proof.Grow.{
  Grown, Grown-weaken, elements-Grown, Fits, Fits-lt, vector_realloc-Grown,
}

-- Vectors of different element sizes are refused, and nothing changes.
pub vector_push_vector-differs :
    (a : Allocator) (v source : Vector)
    → v.element_size ≢ source.element_size
    → vector_push_vector a v source ≡ done (size_differs, v)
unfolding vector_push_vector
vector_push_vector-differs a v source ne = rw (ne→== v.element_size source.element_size ne)

-- The bytes copied out of `s`, pasted behind the `m` elements of `cell`.
module _ (cell s : ℕ → ℕ) (m k es : ℕ) where
  abbrev joined : ℕ → ℕ
  joined = pasted cell (m * es) (bytes s 0 (k * es)) (k * es)

  joined_upper : (j : ℕ) → j < k → bytes joined ((m + j) * es) es ≡ bytes s (j * es) es
  joined_upper j p = tabulate_ext es _ _ (λ i q.
      let at : (m + j) * es + i ≡ m * es + (j * es + i) = omega arith in
      let r = offset-lt j i k es p q in
      ap joined at
      ∙ pasted_at cell (m * es) (bytes s 0 (k * es)) (k * es) (j * es + i) r
      ∙ get_or-tabulate (k * es) (λ t. s (0 + t)) (j * es + i) 0 r
      ∙ ap s (omega arith))

-- `w` holds the elements of both.
abbrev pub Appended : Vector → Vector → Vector → Type 0
Appended v source w = IsValid w × (elements w ≡ elements v ++ elements source)

append_block-Appended :
    (c m k c' es : ℕ) (o o' : Option Block)
    → let v : Vector = record { buf = o; capacity = c; count = m; element_size = es } in
      let source : Vector = record { buf = o'; capacity = c'; count = k; element_size = es } in
      IsValid v
      → IsValid source
      → 0 < c'
      → 0 < c
      → m + k ≤ c
      → Returns (append_source source (success, v)) (λ r. (r.0 ≡ success) × Appended v source r.1)
unfolding append_source
append_block-Appended c m k c' es none o' valid valid' pos' pos room = absurd (omega arith)
append_block-Appended c m k c' es (some b) none valid valid' pos' pos room = absurd (omega arith)
append_block-Appended c m k c' es (some b) (some b') valid valid' pos' pos room =
    let p = place_in m valid valid.room in
    let q = place_in k valid' valid'.room in
    let t = mul-le (m + k) (c + 1) es (omega arith) in
    rw
      (
        mul32-eq k es q.1,
        read-eq b' 0 (k * es) (omega (arith, q, valid'.owns)),
        mul32-eq m es p.1,
        memcpy-eq b (m * es) (bytes b'.cell 0 (k * es)) (k * es) (omega (arith, t, valid.owns))
            (omega (arith, length-tabulate (k * es) (λ i. b'.cell (0 + i)))),
        append_source,
        add32-eq m k (omega (arith, place_in c valid (omega arith))),
      )
      (
        refl,
        (
          record { sized = valid.sized; room = room; bounded = valid.bounded; owns = valid.owns },
          tabulate-add m k (m + k) _ _ _ refl
              (λ i r.
                bytes-pasted_beside b.cell (m * es) (k * es) (i * es) es _
                  (inl (entry-le i m es r)))
              (λ j r. joined_upper b.cell b'.cell m k es j r),
        ),
      )

append_source-Appended :
    (v source : Vector)
    → IsValid v
    → IsValid source
    → source.element_size ≡ v.element_size
    → 0 < source.capacity
    → 0 < v.capacity
    → v.count + source.count ≤ v.capacity
    → Returns (append_source source (success, v)) (λ r. (r.0 ≡ success) × Appended v source r.1)
append_source-Appended v source valid valid' same pos' pos room =
    subst
      (λ t.
        let s : Vector = record source { element_size = t } in
        IsValid s
        → Returns (append_source s (success, v)) (λ r. (r.0 ≡ success) × Appended v s r.1))
      (sym same)
      (λ u.
        append_block-Appended v.capacity v.count source.count source.capacity v.element_size v.buf
          source.buf valid u pos' pos room)
      valid'

-- After the reservation of `vector_push_vector`.
abbrev Reserved : Vector → Vector → Vector → Type 0
Reserved v source w = Grown v (v.count + source.count) w × (0 < w.capacity)

finish_append :
    (v source : Vector) (Why : Type 0) (r : Status × Vector)
    → IsValid source
    → source.element_size ≡ v.element_size
    → 0 < source.capacity
    → OrUnchanged v Why (Reserved v source) r
    → Returns (append_source source r) (OrUnchanged v Why (Appended v source))
finish_append v source Why (size_differs, w) valid' same pos h = absurd h
finish_append v source Why (out_of_memory, w) valid' same pos h = unfold append_source in h
finish_append v source Why (success, w) valid' same pos (g, owned) =
    Returns_mono (append_source source (success, w)) _ _
      (append_source-Appended w source g.valid valid' (same ∙ sym g.element_size) pos owned
        (omega (arith, g.enough, g.count)))
      (λ r h. succeeded r h)
  where
    succeeded :
        (r : Status × Vector)
        → (r.0 ≡ success) × Appended w source r.1
        → OrUnchanged v Why (Appended v source) r
    succeeded (success, u) (e, ok) =
        (ok.0, ok.1 ∙ ap (λ t. t ++ elements source) (elements-Grown g))
    succeeded (out_of_memory, u) (e, ok) = cc
    succeeded (size_differs, u) (e, ok) = cc

module _ (a : Allocator) where
  -- `vector_push_vector` of valid vectors of one element size, where the source has an object, and
  -- the target has an object or the source an element, and the sizes of the sum do not wrap, does
  -- not fault: the elements of the source follow those of the target, or the sum is above the
  -- capacity, the allocator refused a request, and nothing has changed.
  pub vector_push_vector-Appended :
      (v source : Vector)
      → IsValid v
      → IsValid source
      → source.element_size ≡ v.element_size
      → 0 < source.capacity
      → 0 < v.capacity + source.count
      → Fits v (v.count + source.count)
      → Returns
          (vector_push_vector a v source)
          (OrUnchanged v ((v.capacity < v.count + source.count) × Refuses a) (Appended v source))
  unfolding vector_push_vector
  vector_push_vector-Appended v source valid valid' same pos' pos fits =
      let n : ℕ = v.count + source.count in
      let Why : Type 0 = (v.capacity < n) × Refuses a in
      rw
        (
          eq→== v.element_size source.element_size (sym same),
          add32-eq v.count source.count (Fits-lt v n valid fits),
        )
        (Returns->>= (if ltb v.capacity n then vector_realloc a v none n else done (success, v))
          (append_source source) (OrUnchanged v Why (Reserved v source))
          (OrUnchanged v Why (Appended v source)) reserve
          (λ r h. finish_append v source Why r valid' same pos' h))
    where
      reserve :
          Returns
            (if ltb v.capacity (v.count + source.count)
              then vector_realloc a v none (v.count + source.count)
              else done (success, v))
            (OrUnchanged v ((v.capacity < v.count + source.count) × Refuses a) (Reserved v source))
      reserve = elim (Bool-cases (ltb v.capacity (v.count + source.count))) [
        | inr e ↦ rw e (
          record {
            valid = valid;
            same = λ k p. refl;
            count = refl;
            element_size = refl;
            enough = ground arith;
          },
          ground arith,
        )
        | inl e ↦
            let more : v.capacity < v.count + source.count = ground arith in
            rw e (
              Returns_mono (vector_realloc a v none (v.count + source.count)) _ _
                (vector_realloc-Grown a v (v.count + source.count) valid (omega arith) (omega arith)
                  fits)
                (λ r h.
                  OrUnchanged-mono v _ _ _ _ r h (λ why. (more, why))
                    (λ w g. (Grown-weaken g.0 (ground arith), ground (arith, g.1)))))
      ]
