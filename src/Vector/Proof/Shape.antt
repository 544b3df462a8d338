-- ===== src/Vector/Proof/Shape.antt =====
-- A push keeps the element size, and bounds the capacity (`vector_push` of cstructures/src/vector.c).
use cstructures.Prelude.{
  ℕ, refl, ◌*◌, ◌≤◌, ◌≡◌, inl, inr, Option, none, some, List, done, Always, Always->>=, Always_any,
  Returns, Returns_mono, Returns_and, length, arith, if◌then◌else◌, Bool-cases, Option-cases,
}
use cstructures.Prelude.Word.{add32, mul32}
use cstructures.Buffer.{memcpy, Allocator}
use cstructures.Vector.Struct.{
  Vector, Status, success, out_of_memory, size_differs, min_capacity, needs_realloc,
}
use cstructures.Vector.Valid.{IsValid}
use cstructures.Vector.Proof.Open.{CanDouble, vector_push-Pushed}
use cstructures.Vector.Storage.{initial_capacity, first_alloc, realloc_block, vector_realloc}
use cstructures.Vector.Insert.{store, finish_emplace, finish_insert, vector_emplace, vector_push}

-- The element size stays, and the capacity is below a bound.
abbrev pub Shaped : ℕ → ℕ → Vector → Type 0
Shaped es bound w = (w.element_size ≡ es) × (w.capacity ≤ bound)

module _ (a : Allocator) (es bound : ℕ) where
  realloc-Shaped :
      (v : Vector) (n : ℕ)
      → Shaped es bound v
      → initial_capacity n ≤ bound
      → Always (vector_realloc a v none n) (λ r. Shaped es bound r.1)
  unfolding vector_realloc
  realloc-Shaped v n h le = elim (Option-cases v.buf) [
    | inl e ↦
        rw e (elim (Option-cases (a.malloc (mul32 (add32 (initial_capacity n) 1) v.element_size))) [
          | inl e' ↦ rw (first_alloc, e') h
          | inr (b, e') ↦ rw (first_alloc, e') (h.0, le)
        ])
    | inr (b, e) ↦ rw e (elim (Option-cases (a.realloc b (mul32 (add32 n 1) v.element_size))) [
      | inl e' ↦ rw (realloc_block, e') h
      | inr (b', e') ↦ rw (realloc_block, e') (h.0, ground arith)
    ])
  ]

  finish_emplace-Shaped :
      (r : Status × Vector)
      → Shaped es bound r.1
      → Always (finish_emplace r) (λ q. Shaped es bound q.1)
  unfolding finish_emplace
  finish_emplace-Shaped (success, w) h = h
  finish_emplace-Shaped (out_of_memory, w) h = h
  finish_emplace-Shaped (size_differs, w) h = h

  store-Shaped :
      (v : Vector) (off : ℕ) (x : List ℕ)
      → Shaped es bound v
      → Always (store v off x) (Shaped es bound)
  unfolding store
  store-Shaped v off x h = elim (Option-cases v.buf) [
    | inl e ↦ rw e tt
    | inr (b, e) ↦ rw e (
        Always->>= (memcpy b off x v.element_size) _ (λ b'. Unit {0}) _
          (Always_any (memcpy b off x v.element_size)) (λ b' u. h))
  ]

  finish_insert-Shaped :
      (x : List ℕ) (r : Option ℕ × Vector)
      → Shaped es bound r.1
      → Always (finish_insert x r) (λ q. Shaped es bound q.1)
  unfolding finish_insert
  finish_insert-Shaped x (none, w) h = h
  finish_insert-Shaped x (some off, w) h =
      Always->>= (store w off x) _ (Shaped es bound) _ (store-Shaped w off x h) (λ u k. k)

  pub vector_push-Shaped :
      (v : Vector) (x : List ℕ)
      → Shaped es bound v
      → initial_capacity (mul32 v.count 2) ≤ bound
      → Always (vector_push a v x) (λ r. Shaped es bound r.1)
  unfolding vector_push vector_emplace
  vector_push-Shaped v x h le =
      Always->>= (vector_emplace a v) (finish_insert x) (λ q. Shaped es bound q.1) _
        (Always->>=
          (if needs_realloc v then vector_realloc a v none (mul32 v.count 2) else done (success, v))
          finish_emplace (λ r. Shaped es bound r.1) _ grown finish_emplace-Shaped)
        (finish_insert-Shaped x)
    where
      grown :
          Always
            (if needs_realloc v
              then vector_realloc a v none (mul32 v.count 2)
              else done (success, v))
            (λ r. Shaped es bound r.1)
      grown = elim (Bool-cases (needs_realloc v)) [
        | inl e ↦ rw e (realloc-Shaped v (mul32 v.count 2) h le)
        | inr e ↦ rw e h
      ]

-- `vector_push` of a valid vector and an element of its size, where the sizes of a full vector can
-- be doubled without wrapping, does not fault, and whether it succeeds or not, the capacity does
-- not exceed any bound that the capacity of before, the least one and twice the count do not
-- exceed; the element size stays the same.
pub vector_push-Bounded :
    (a : Allocator) (v : Vector) (x : List ℕ) (bound : ℕ)
    → IsValid v
    → CanDouble v
    → length x ≡ v.element_size
    → v.capacity ≤ bound
    → min_capacity ≤ bound
    → v.count * 2 ≤ bound
    → Returns (vector_push a v x) (λ r. Shaped v.element_size bound r.1)
vector_push-Bounded a v x bound valid fits l below least double =
    Returns_mono (vector_push a v x) _ _
      (Returns_and (vector_push a v x) _ _ (vector_push-Pushed a v x valid fits l)
        (vector_push-Shaped a v.element_size bound v x (refl, below) (ground arith)))
      (λ r h. h.1)
