-- ===== src/String/Proof/Getline.antt =====
-- The loop of `string_getline` (cstructures/src/string.c).
use mathlib.Core.List.{append-nil, append_assoc}
use native.Mathlib.Decide.{ℕ_discrete}
use cstructures.Prelude.{
  ℕ, ◌+◌, ◌≤◌, ◌≡◌, ◌≢◌, refl, sym, ◌∙◌, ap, subst, List, [], ◌∷◌, ◌++◌, done, ◌>>=◌, Returns,
  Returns->>=, Returns-then, Returns-else, arith, length, length-append, if◌then◌else◌, ◌==◌, eq→==,
  ne→==,
}
use cstructures.Buffer.{Allocator}
use cstructures.Vector.Struct.{Vector, Status, success, out_of_memory, size_differs}
use cstructures.Vector.Storage.{vector_clear}
use cstructures.Vector.Insert.{vector_push}
use cstructures.Vector.Valid.{IsValid}
use cstructures.String.Struct.{CsString}
use cstructures.String.Lines.{
  Outcome, failed, carriage, newline, nullterm, pushed_nullterm, getline_loop, string_getline,
}
use cstructures.String.Valid.{char, Holds, Bounds}
use cstructures.String.Proof.Push.{count-Holds, PushedChar, push-PushedChar, clear-Holds}
use cstructures.String.Proof.Lines.{
  Consumed, consume_carriage, consume_char, consume_empty, GotLine, got, ended, refused,
}

module _ (a : Allocator) (n bound : ℕ) (b : Bounds n bound) (whole : List ℕ) where
  -- The loop over the stream, whatever has been read before it.
  abbrev Reads : List ℕ → Type 0
  Reads stream =
      (pre line : List ℕ) (v : Vector)
      → whole ≡ pre ++ stream
      → Consumed pre line
      → Holds v line bound
      → length line + length stream ≤ n
      → Returns (getline_loop a v stream) (GotLine a bound whole)

  -- A character, before a stream that is read so.
  character-GotLine : (x : ℕ) (stream : List ℕ) → Reads stream → Reads (x ∷ stream)
  unfolding getline_loop
  character-GotLine x stream ih pre line v e c h le = elim (ℕ_discrete x carriage) [
    | yes is_carriage ↦
        Returns-then (x == carriage) _ _ _ (eq→== x carriage is_carriage)
          (ih (pre ++ char x) line v e' (consume_carriage pre line c x is_carriage) h (omega arith))
    | no other ↦
        Returns-else (x == carriage) (getline_loop a v stream) _ _ (ne→== x carriage other)
          (elim (ℕ_discrete x newline) [
            | yes is_newline ↦
                Returns-then (x == newline) _ _ _ (eq→== x newline is_newline)
                  (at_newline is_newline (ℕ_discrete v.count 0))
            | no more ↦
                Returns-else (x == newline)
                  (if v.count == 0
                    then getline_loop a v stream
                    else (vector_push a v (nullterm ∷ []) >>= λ r.
                        done (pushed_nullterm r.0, (r.1, stream))))
                  _ _ (ne→== x newline more) (at_char other more)
          ])
  ]
    where
      e' : whole ≡ (pre ++ char x) ++ stream
      e' = e ∙ sym (append_assoc pre (char x) stream)

      ended_line :
          (r : Status × Vector)
          → x ≡ newline
          → line ≢ []
          → PushedChar a (line ++ char nullterm) bound r
          → GotLine a bound whole (pushed_nullterm r.0, (r.1, stream))
      ended_line (success, w) is_newline ne k =
          got pre line stream w ne (e ∙ ap (λ z. pre ++ z ∷ stream) is_newline) c k
      ended_line (out_of_memory, w) is_newline ne why = refused w stream why
      ended_line (size_differs, w) is_newline ne why = absurd why

      empty_line : v.count ≡ 0 → line ≡ []
      empty_line none_yet =
          let same : length line ≡ 0 = omega (arith, count-Holds v line bound h) in ground arith

      at_newline :
          x ≡ newline
          → Dec (v.count ≡ 0)
          → Returns
              (if v.count == 0
                then getline_loop a v stream
                else (vector_push a v (nullterm ∷ []) >>= λ r.
                    done (pushed_nullterm r.0, (r.1, stream))))
              (GotLine a bound whole)
      at_newline is_newline (yes none_yet) =
          Returns-then (v.count == 0) _ _ _ (eq→== v.count 0 none_yet) (
            ih (pre ++ char x) [] v e' (consume_empty pre line c x is_newline (empty_line none_yet))
              (subst (λ t. Holds v t bound) (empty_line none_yet) h) (omega arith))
      at_newline is_newline (no some_char) =
          Returns-else (v.count == 0) (getline_loop a v stream) _ _ (ne→== v.count 0 some_char) (
            Returns->>= (vector_push a v (nullterm ∷ [])) _
              (PushedChar a (line ++ char nullterm) bound) _
              (push-PushedChar a v line nullterm n bound h b (omega arith))
              (λ r k.
                ended_line r is_newline (λ z. some_char (count-Holds v line bound h ∙ ap length z))
                  k))

      pushed :
          (r : Status × Vector)
          → x ≢ carriage
          → x ≢ newline
          → PushedChar a (line ++ char x) bound r
          → Returns
              (elim r.0 [
                | success ↦ getline_loop a r.1 stream
                | out_of_memory ↦ done (failed, (r.1, stream))
                | size_differs ↦ done (failed, (r.1, stream))
              ])
              (GotLine a bound whole)
      pushed (success, w) other more k =
          ih (pre ++ char x) (line ++ char x) w e' (consume_char pre line c x other more) k
            (omega (arith, length-append line (char x)))
      pushed (out_of_memory, w) other more why = refused w stream why
      pushed (size_differs, w) other more why = absurd why

      at_char :
          x ≢ carriage
          → x ≢ newline
          → Returns
              (vector_push a v (x ∷ []) >>= λ r. elim r.0 [
                | success ↦ getline_loop a r.1 stream
                | out_of_memory ↦ done (failed, (r.1, stream))
                | size_differs ↦ done (failed, (r.1, stream))
              ])
              (GotLine a bound whole)
      at_char other more =
          Returns->>= (vector_push a v (x ∷ [])) _ (PushedChar a (line ++ char x) bound) _
            (push-PushedChar a v line x n bound h b (omega arith)) (λ r k. pushed r other more k)

  getline_loop-GotLine : (stream : List ℕ) → Reads stream
  unfolding getline_loop
  getline_loop-GotLine [] pre line v e c h le =
      ended line v (subst (λ t. Consumed t line) (sym (e ∙ append-nil pre)) c) h
  getline_loop-GotLine (x ∷ stream) pre line v e c h le =
      character-GotLine x stream (getline_loop-GotLine stream) pre line v e c h le

-- The same of a string instead of its buffer.
abbrev pub GotString : Allocator → ℕ → List ℕ → Outcome × (CsString × List ℕ) → Type 0
GotString a bound stream (o, (str, rest)) = GotLine a bound stream (o, (str.buf, rest))

-- `string_getline` into a valid buffer of characters, whose capacity and that of the stream stay below
-- a bound that does not wrap, does not fault. It skips carriage returns and empty lines, and reads the
-- next line with a terminator behind it; or it says that the stream has no complete line any more, and
-- has read it to its end; or that the allocator refused a request.
pub string_getline-GotString :
    (a : Allocator) (n bound : ℕ) (str : CsString) (stream : List ℕ)
    → Bounds n bound
    → IsValid str.buf
    → str.buf.element_size ≡ 1
    → str.buf.capacity ≤ bound
    → length stream ≤ n
    → Returns (string_getline a str stream) (GotString a bound stream)
unfolding string_getline
string_getline-GotString a n bound str stream b valid single below le =
    Returns->>= (getline_loop a (vector_clear str.buf) stream) _ (GotLine a bound stream) _
      (getline_loop-GotLine a n bound b stream stream [] [] (vector_clear str.buf) refl
        (record {
          skipped = [];
          body = [];
          parts = refl;
          blank = tt;
          one_line = tt;
          line_is = refl;
        })
        (clear-Holds str.buf bound valid single below) (omega arith))
      (λ r g. g)
