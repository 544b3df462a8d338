-- ===== src/Tests/Hash.antt =====
-- Runs of the hash functions, and an instance of their property.
use cstructures.Prelude.{◌≡◌, refl, [], ◌∷◌, fault}
use cstructures.Hash.Defs.{hash32_jenkins_oaat, hash32_ptr}

-- The shift by one in `hash ^= (hash >> 1)` gives other values than the published function, whose
-- shift is by eleven.
hash_of_a : hash32_jenkins_oaat (97 ∷ []) ≡ 2945408776
unfolding hash32_jenkins_oaat
hash_of_a = refl

hash_of_short_pointer : hash32_ptr 4096 4 ≡ fault
unfolding hash32_ptr
hash_of_short_pointer = refl
