-- ===== src/Memory/Proof/Ledger.antt =====
-- Lists of live allocations, and the bytes of pointers (cstructures/src/memory.c).
use cstructures.Prelude.{
  ℕ, ◌+◌, ◌/◌, ◌%◌, ◌^◌, ◌<◌, ◌≡◌, ◌≢◌, refl, sym, ◌∙◌, ap, none, some, List, [], ◌∷◌, arith,
  length, ◌==◌, if◌then◌else◌,
}
use cstructures.Prelude.Word.{word}
use cstructures.Buffer.{decode32-encode32}
use cstructures.Memory.Struct.{encode64, decode64, report_info, info_location, info_bytes}
use cstructures.Memory.Valid.{size_of, release, total, Distinct}

pub size_of-release :
    (j p : ℕ) (live : List (ℕ × ℕ))
    → Distinct live
    → size_of j (release p live) ≡ (if p == j then none else size_of j live)
size_of-release j p [] d = ground arith
size_of-release j p ((i, s) ∷ live) d = ground (arith, size_of-release j p live)

pub release-Distinct : (p : ℕ) (live : List (ℕ × ℕ)) → Distinct live → Distinct (release p live)
release-Distinct p [] d = d
release-Distinct p ((i, s) ∷ live) d =
    ground (arith, size_of-release i p live d.1, release-Distinct p live)

pub total-release :
    (p s : ℕ) (live : List (ℕ × ℕ))
    → size_of p live ≡ some s
    → total live ≡ s + total (release p live)
total-release p s [] e = cc
total-release p s ((i, r) ∷ live) e = ground (arith, total-release p s live)

pub length-release :
    (p s : ℕ) (live : List (ℕ × ℕ))
    → size_of p live ≡ some s
    → length live ≡ length (release p live) + 1
length-release p s [] e = cc
length-release p s ((i, r) ∷ live) e = ground (arith, length-release p s live)

pub release_absent : (p : ℕ) (live : List (ℕ × ℕ)) → size_of p live ≡ none → release p live ≡ live
release_absent p [] e = refl
release_absent p ((i, r) ∷ live) e = ground (arith, release_absent p live)

pub decode64-encode64 : (k : ℕ) → k < 2 ^ 64 → decode64 (encode64 k) ≡ k
decode64-encode64 k h =
    let low = decode32-encode32 (k % word) (omega arith) in
    let high = decode32-encode32 (k / word) (omega arith) in omega arith

pub encode64-ne : (j p : ℕ) → j < 2 ^ 64 → p < 2 ^ 64 → j ≢ p → encode64 j ≢ encode64 p
encode64-ne j p lt lt' ne e =
    ne (sym (decode64-encode64 j lt) ∙ (ap decode64 e ∙ decode64-encode64 p lt'))

pub info_location-report_info : (p s : ℕ) → p < 2 ^ 64 → info_location (report_info p s) ≡ p
info_location-report_info p s h = decode64-encode64 p h

pub info_bytes-report_info : (p s : ℕ) → s < 2 ^ 64 → info_bytes (report_info p s) ≡ s
info_bytes-report_info p s h = decode64-encode64 s h
