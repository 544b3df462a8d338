-- ===== src/Memory/Proof/Dump.antt =====
-- The dump of a leak (`mutated_string_and_hex_dump` of cstructures/src/memory.c).
use native.Mathlib.Decide.{ℕ_discrete}
use native.Mathlib.Nat.{add-zero, mod-eq_of_lt}
use cstructures.Prelude.{
  ℕ, zero, suc, ◌+◌, ◌-◌, ◌^◌, ◌≤◌, ◌<◌, ◌≡◌, refl, ◌∙◌, ap, inl, inr, Option, none, some, List, [],
  ◌∷◌, ◌++◌, map, done, ◌>>=◌, Returns, Returns->>=, Returns_mono, arith, length, get_or, tabulate,
  tabulate-get_or, tabulate-push, ◌==◌, if◌then◌else◌, Bool-cases, Option-cases,
}
use cstructures.Buffer.{memcpy, Block, Allocator, read-eq, memcpy-eq, pasted, bytes}
use cstructures.Memory.Report.{mutate_from, mutated_string_and_hex_dump}

-- A null terminator becomes a dot.
abbrev pub dotted : ℕ → ℕ
dotted c = if c == 0 then 46 else c

-- `b'` is `b` with the bytes in a range dotted.
record Mutated (b : Block) (i n : ℕ) (b' : Block) : Type 0 where
  size : b'.size ≡ b.size
  inside : (j : ℕ) → i ≤ j → j < i + n → b'.cell j ≡ dotted (b.cell j)
  outside : (j : ℕ) → i + n ≤ j → b'.cell j ≡ b.cell j
  before : (j : ℕ) → j < i → b'.cell j ≡ b.cell j

mutate_one :
    (b : Block) (i : ℕ)
    → i + 1 ≤ b.size
    → Returns (if b.cell i == 0 then memcpy b i (46 ∷ []) 1 else done b) (Mutated b i 1)
mutate_one b i fits = elim (Bool-cases (b.cell i == 0)) [
  | inl e ↦
      rw (e, memcpy-eq b i (46 ∷ []) 1 fits (omega arith))
        (record {
          size = refl;
          inside = λ j p q. let same : j ≡ i = omega arith in rw (same, e) (ground arith);
          outside = λ j p. ground arith;
          before = λ j p. ground arith;
        })
  | inr e ↦ rw e (record {
    size = refl;
    inside = λ j p q. let same : j ≡ i = omega arith in rw (same, e) refl;
    outside = λ j p. refl;
    before = λ j p. refl;
  })
]

mutate_from-Mutated :
    (left : ℕ) (b : Block) (i : ℕ)
    → i + left ≤ b.size
    → Returns (mutate_from left b i) (Mutated b i left)
unfolding mutate_from
mutate_from-Mutated zero b i fits = record {
  size = refl;
  inside = λ j p q. absurd (omega arith);
  outside = λ j p. refl;
  before = λ j p. refl;
}
mutate_from-Mutated (suc left) b i fits =
    rw (read-eq b i 1 (omega arith), ◌>>=◌, add-zero)
      (Returns->>= (if b.cell i == 0 then memcpy b i (46 ∷ []) 1 else done b) _ (Mutated b i 1) _
        (mutate_one b i (omega arith))
        (λ c m.
          Returns_mono (mutate_from left c (i + 1)) (Mutated c (i + 1) left) _
            (mutate_from-Mutated left c (i + 1) (omega (arith, m.size)))
            (λ d h. record {
              size = h.size ∙ m.size;
              inside = λ j p q. elim (ℕ_discrete j i) [
                | yes e ↦ h.before j (omega arith) ∙ m.inside j p (omega arith)
                | no ne ↦
                    h.inside j (omega arith) (omega arith) ∙ ap dotted (m.outside j (omega arith))
              ];
              outside = λ j p. h.outside j (omega arith) ∙ m.outside j (omega arith);
              before = λ j p. h.before j (omega arith) ∙ m.before j p;
            })))

tabulate-map : (n : ℕ) (f g : ℕ → ℕ) → tabulate n (λ k. f (g k)) ≡ map f (tabulate n g)
tabulate-map zero f g = refl
tabulate-map (suc n) f g = ap (λ t. f (g 0) ∷ t) (tabulate-map n f (λ k. g (suc k)))

abbrev terminator : List ℕ
terminator = 0 ∷ []

-- The bytes of the copy with its terminator, after the mutation of all but the last.
dumped :
    (cell : ℕ → ℕ) (size : ℕ) (source : List ℕ) (b : Block)
    → let n = length source in
      Mutated (record { size = size; cell = pasted (pasted cell 0 source n) n (0 ∷ []) 1 }) 0 n b
      → bytes b.cell 0 (n + 1) ≡ map dotted source ++ 0 ∷ []
dumped cell size source b m =
    let n = length source in
    tabulate-push n (n + 1) (λ k. b.cell (0 + k)) (λ k. dotted (get_or source k 0)) 0 refl low
      (ap b.cell zero_add ∙ (m.outside n (omega arith) ∙ ground (arith, last)))
    ∙ ap (λ t. t ++ 0 ∷ [])
        (tabulate-map n dotted (λ k. get_or source k 0)
          ∙ ap (map dotted) (tabulate-get_or n source 0 refl))
  where
    zero_add : 0 + length source ≡ length source
    zero_add = omega arith

    last : get_or terminator (length source - length source) 0 ≡ 0
    last =
        let same : length source - length source ≡ 0 = omega arith in
        ap (λ j. get_or terminator j 0) same

    index : (k : ℕ) → k - 0 ≡ k
    index k = omega arith

    copy :
        (k : ℕ)
        → k < length source
        → pasted (pasted cell 0 source (length source)) (length source) (0 ∷ []) 1 k
          ≡ get_or source k 0
    copy k lt = ground (arith, ap (λ j. get_or source j 0) (index k))

    low : (k : ℕ) → k < length source → b.cell (0 + k) ≡ dotted (get_or source k 0)
    low k lt =
        let e : 0 + k ≡ k = omega arith in
        ap b.cell e ∙ (m.inside k (omega arith) (omega arith) ∙ ap dotted (copy k lt))

-- What is dumped: nothing, as the allocator refused the copy; or the bytes with dots for null
-- terminators, and one terminator behind them.
abbrev pub Dumped : Allocator → List ℕ → Option (List ℕ) → Type 0
Dumped a source none = (n : ℕ) × (a.malloc n ≡ none)
Dumped a source (some text) = text ≡ map dotted source ++ 0 ∷ []

-- `mutated_string_and_hex_dump` of any bytes, whose number does not wrap, does not fault: the string
-- that it prints has every byte in its place, with a dot for a null terminator, and ends behind the
-- last; or the allocator refused the copy.
pub mutated_string_and_hex_dump-Dumped :
    (a : Allocator) (source : List ℕ)
    → length source + 1 < 2 ^ 64
    → Returns (mutated_string_and_hex_dump a source (length source)) (Dumped a source)
unfolding mutated_string_and_hex_dump
mutated_string_and_hex_dump-Dumped a source fits =
    let n = length source in
    elim (Option-cases (a.malloc (n + 1))) [
      | inl e ↦ rw (mutated_string_and_hex_dump, mod-eq_of_lt fits, e) (n + 1, e)
      | inr (b, e) ↦
          let size = a.malloc_size (n + 1) b e in
          let copied : Block = record b { cell = pasted b.cell 0 source n } in
          let ended : Block = record b { cell = pasted copied.cell n (0 ∷ []) 1 } in
          rw
            (
              mutated_string_and_hex_dump,
              mod-eq_of_lt fits,
              e,
              memcpy-eq b 0 source n (omega (arith, size)) (omega arith),
              ◌>>=◌,
              memcpy-eq copied n (0 ∷ []) 1 (omega (arith, size)) (omega arith),
            )
            (Returns->>= (mutate_from n ended 0) _ (Mutated ended 0 n) (Dumped a source)
              (mutate_from-Mutated n ended 0 (omega (arith, size)))
              (λ d m.
                rw (read-eq d 0 (n + 1) (omega (arith, size, m.size)), ◌>>=◌)
                  (dumped b.cell b.size source d m)))
    ]
