-- ===== src/Vector/Proof/Grow.antt =====
-- Reallocation keeps the elements (`vector_realloc` of cstructures/src/vector.c).
use cstructures.Prelude.{
  ℕ, ◌+◌, ◌*◌, ◌≤◌, ◌<◌, ◌≡◌, refl, ◌⊎◌, inl, inr, Option, none, some, Returns, arith, Option-cases,
  tabulate_ext,
}
use cstructures.Prelude.Word.{word, mul-le, offset-lt, request_eq, le-mul}
use cstructures.Buffer.{Block, bytes, Allocator}
use cstructures.Vector.Struct.{Vector}
use cstructures.Vector.Storage.{initial_capacity, first_alloc, realloc_block, vector_realloc}
use cstructures.Vector.Valid.{IsValid, entry, elements, Refuses, OrUnchanged}

-- `w` holds the elements of `v`, and has room for `n`.
pub record Grown (v : Vector) (n : ℕ) (w : Vector) : Type 0 where
  pub valid : IsValid w
  pub same : (k : ℕ) → k < v.count → entry w k ≡ entry v k
  pub count : w.count ≡ v.count
  pub element_size : w.element_size ≡ v.element_size
  pub enough : n ≤ w.capacity

pub elements-Grown : {v : Vector} {n : ℕ} {w : Vector} → Grown v n w → elements w ≡ elements v
elements-Grown {v} {n} {w} g = rw g.count (tabulate_ext v.count (entry w) (entry v) g.same)

pub Grown-weaken : {v w : Vector} {n m : ℕ} → Grown v n w → m ≤ n → Grown v m w
Grown-weaken g le = record {
  valid = g.valid;
  same = g.same;
  count = g.count;
  element_size = g.element_size;
  enough = omega (arith, g.enough);
}

-- The same, with exactly the capacity that a reallocation to `n` gives.
abbrev pub Regrown : Vector → ℕ → Vector → Type 0
Regrown v n w = Grown v (initial_capacity n) w × (w.capacity ≡ initial_capacity n)

-- The hypothesis under which no size of a reallocation to `n` elements wraps.
abbrev pub Fits : Vector → ℕ → Type 0
Fits v n = (initial_capacity n + 1) * v.element_size < word

pub Fits-lt : (v : Vector) (n : ℕ) → IsValid v → Fits v n → n < word
Fits-lt v n valid fits =
    let p : n ≤ initial_capacity n = ground arith in
    omega (arith, le-mul (initial_capacity n + 1) v.element_size valid.sized)

module _ (a : Allocator) (c m es : ℕ) where
  pub first_alloc-Grown :
      (n : ℕ)
      → let v : Vector = record { buf = none; capacity = c; count = m; element_size = es } in
        IsValid v
        → m ≤ initial_capacity n
        → Fits v n
        → Returns (first_alloc a v n) (OrUnchanged v (Refuses a) (Regrown v n))
  unfolding first_alloc
  first_alloc-Grown n valid le fits =
      elim (Option-cases (a.malloc ((initial_capacity n + 1) * es))) [
        | inl e ↦
            rw (request_eq (initial_capacity n) es valid.sized fits, e, first_alloc)
              (refl, inl (_, e))
        | inr (b, e) ↦
            rw (request_eq (initial_capacity n) es valid.sized fits, e, first_alloc)
              (
                record {
                  valid = record {
                    sized = valid.sized;
                    room = le;
                    bounded = fits;
                    owns = (ground arith, a.malloc_size _ b e);
                  };
                  same = λ k p. absurd (omega arith);
                  count = refl;
                  element_size = refl;
                  enough = omega arith;
                },
                refl,
              )
      ]

  -- A reallocation that leaves room for `m` elements keeps their bytes.
  realloc_keeps-table :
      (b b' : Block) (n i : ℕ)
      → a.realloc b ((n + 1) * es) ≡ some b'
      → b.size ≡ (c + 1) * es
      → m ≤ c
      → m ≤ n
      → i < m * es
      → b'.cell i ≡ b.cell i
  realloc_keeps-table b b' n i e size room le p =
      a.realloc_keeps b _ b' e i (omega (arith, mul-le m (n + 1) es (omega arith)))
        (omega (arith, mul-le m (c + 1) es (omega arith)))

  pub realloc_keeps-entry :
      (b b' : Block) (n k : ℕ)
      → a.realloc b ((n + 1) * es) ≡ some b'
      → b.size ≡ (c + 1) * es
      → m ≤ c
      → m ≤ n
      → k < m
      → bytes b'.cell (k * es) es ≡ bytes b.cell (k * es) es
  realloc_keeps-entry b b' n k e size room le p =
      tabulate_ext es _ _
        (λ j q. realloc_keeps-table b b' n _ e size room le (offset-lt k j m es p q))

  pub realloc_block-Grown :
      (b : Block) (n : ℕ)
      → let v : Vector = record { buf = some b; capacity = c; count = m; element_size = es } in
        IsValid v
        → m ≤ n
        → 0 < n
        → (n + 1) * es < word
        → Returns (realloc_block a v b none n) (OrUnchanged v (Refuses a) (Regrown v n))
  unfolding realloc_block
  realloc_block-Grown b n valid le pos fits = elim (Option-cases (a.realloc b ((n + 1) * es))) [
    | inl e ↦ rw (request_eq n es valid.sized fits, e, realloc_block) (refl, inr (_, _, e))
    | inr (b', e) ↦
        rw (request_eq n es valid.sized fits, e, realloc_block)
          (
            record {
              valid = record {
                sized = valid.sized;
                room = le;
                bounded = fits;
                owns = (pos, a.realloc_size b _ b' e);
              };
              same = λ k p. realloc_keeps-entry b b' n k e valid.owns.1 valid.room le p;
              count = refl;
              element_size = refl;
              enough = ground arith;
            },
            ground arith,
          )
  ]

  realloc-Grown :
      (o : Option Block) (n : ℕ)
      → let v : Vector = record { buf = o; capacity = c; count = m; element_size = es } in
        IsValid v
        → m ≤ n
        → (0 < n) ⊎ (c ≡ 0)
        → Fits v n
        → Returns (vector_realloc a v none n) (OrUnchanged v (Refuses a) (Regrown v n))
  unfolding vector_realloc
  realloc-Grown none n valid le pos fits = first_alloc-Grown n valid (ground arith) fits
  realloc-Grown (some b) n valid le pos fits =
      realloc_block-Grown b n valid le (omega arith) (ground arith)

module _ (a : Allocator) where
  -- `vector_realloc` of a valid vector without an insertion index, to a capacity that is not below
  -- the count, and is not zero unless the vector has no capacity yet, and whose sizes do not wrap,
  -- does not fault: it keeps every element and has exactly the capacity asked for, or the least one
  -- if that is zero; or the allocator refused, and nothing has changed.
  pub vector_realloc-Grown :
      (v : Vector) (n : ℕ)
      → IsValid v
      → v.count ≤ n
      → (0 < n) ⊎ (v.capacity ≡ 0)
      → Fits v n
      → Returns (vector_realloc a v none n) (OrUnchanged v (Refuses a) (Regrown v n))
  vector_realloc-Grown v n valid le pos fits =
      realloc-Grown a v.capacity v.count v.element_size v.buf n valid le pos fits
