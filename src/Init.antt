-- ===== src/Init.antt =====
-- Start and end of the library (cstructures/src/init.c).
use cstructures.Prelude.{ℕ, List, Bool, Option, Exec, done, ◌>>=◌}
use cstructures.Buffer.{Block, Allocator}
use cstructures.Memory.Struct.{Tracker, memory_init}
use cstructures.Memory.Report.{memory_deinit}

-- The return value 0 is true.
unfoldable pub cstructures_init : Allocator → Exec (Bool × Tracker)
unfolding memory_init
cstructures_init a = memory_init a

-- The number of leaks is dropped.
unfoldable pub cstructures_deinit :
    Allocator → (ℕ → List ℕ) → Tracker → Exec (Option Block × Tracker)
unfolding memory_deinit
cstructures_deinit a memory m = memory_deinit a memory m >>= λ r. done r.1
