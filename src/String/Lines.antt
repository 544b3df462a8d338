-- ===== src/String/Lines.antt =====
-- Reading a line (`string_getline` of cstructures/src/string.c). The stream is the list of bytes that
-- `fgetc` gives before EOF.
use cstructures.Prelude.{ℕ, List, [], ◌∷◌, Exec, done, ◌>>=◌, ◌==◌, if◌then◌else◌}
use cstructures.Buffer.{Allocator}
use cstructures.Vector.Struct.{Vector, Status, success, out_of_memory, size_differs}
use cstructures.Vector.Storage.{vector_clear}
use cstructures.Vector.Insert.{vector_push}
use cstructures.String.Struct.{CsString}

-- The return values 1, 0 and -1.
pub data Outcome : Type 0 where
  read_line : Outcome
  no_more : Outcome
  failed : Outcome

-- `'\r'`, `'\n'` and `'\0'`
abbrev pub carriage : ℕ
carriage = 13

abbrev pub newline : ℕ
newline = 10

abbrev pub nullterm : ℕ
nullterm = 0

-- The return after the push of the terminator.
abbrev pub pushed_nullterm : Status → Outcome
pushed_nullterm success = read_line
pushed_nullterm out_of_memory = failed
pushed_nullterm size_differs = failed

module _ (a : Allocator) where
  -- The loop: the return value, the buffer, and what is left of the stream.
  unfoldable pub getline_loop : Vector → List ℕ → Exec (Outcome × (Vector × List ℕ))
  unfolding vector_push
  getline_loop v [] = done (no_more, (v, []))
  getline_loop v (c ∷ stream) =
      let rest = getline_loop v stream in
      if c == carriage
      then rest
      else if c == newline
      then if v.count == 0
        then rest
        else (vector_push a v (nullterm ∷ []) >>= λ r. done (pushed_nullterm r.0, (r.1, stream)))
      else (vector_push a v (c ∷ []) >>= λ r. elim r.0 [
        | success ↦ getline_loop r.1 stream
        | out_of_memory ↦ done (failed, (r.1, stream))
        | size_differs ↦ done (failed, (r.1, stream))
      ])

  unfoldable pub string_getline : CsString → List ℕ → Exec (Outcome × (CsString × List ℕ))
  unfolding vector_clear getline_loop
  string_getline str stream = getline_loop (vector_clear str.buf) stream >>= λ r.
      done (r.0, (record { buf = r.1.0 }, r.1.1))
