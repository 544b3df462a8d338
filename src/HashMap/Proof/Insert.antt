-- ===== src/HashMap/Proof/Insert.antt =====
-- Insertion into a map that needs no rehash (`hashmap_insert` of cstructures/src/hashmap.c).
use cstructures.Prelude.{
  ℕ, suc, ◌≡◌, refl, Option, none, some, List, Returns, Returns->>=, ◌>>=◌, false, length,
}
use cstructures.Buffer.{Block, Allocator}
use cstructures.HashMap.Struct.{HashMap, hash_wrapper}
use cstructures.HashMap.Insert.{
  chosen, insert_at, insert_no_rehash, insert_nested, is_loaded, hashmap_insert,
}
use cstructures.HashMap.Valid.{IsValid, Has, Stops}
use cstructures.HashMap.Proof.Find.{Located-Position}
use cstructures.HashMap.Proof.Probe.{Ended, Free, chosen-Free, probing-Ended}
use cstructures.HashMap.Proof.Store.{Sized, Inserted, store_entry-eq, stored-Inserted}

insert_at-Inserted :
    (hm : HashMap) (key : List ℕ) (value : Option (List ℕ)) (r : Option (ℕ × ℕ))
    → IsValid hm
    → length key ≡ hm.key_size
    → Sized hm value
    → Ended hm key (hash_wrapper hm key) r
    → Returns (insert_at hm (hash_wrapper hm key) key value r) (Inserted hm key value)
unfolding insert_at
insert_at-Inserted hm key value none valid l sized (p, lt, e, k) =
    (refl, (p, Located-Position hm key (some p) valid (lt, e, k)))
insert_at-Inserted hm key value (some (pos, last)) valid l sized (m, at, free, before, tomb) =
    go hm.storage hm.table_count hm.key_size hm.value_size hm.slots_used hm.hash valid l sized
      (chosen-Free hm key (hash_wrapper hm key) pos last valid (m, at, free, before, tomb))
      (Located-Position hm key none valid (m, rw (← at) free, before))
  where
    go :
        (o : Option Block) (t ks vs used : ℕ) (hash : List ℕ → ℕ)
        → let u : HashMap = record {
          table_count = t;
          key_size = ks;
          value_size = vs;
          slots_used = used;
          hash = hash;
          storage = o;
        } in
          IsValid u
          → length key ≡ ks
          → Sized u value
          → Free u (hash_wrapper u key) (chosen pos last)
          → ((q : ℕ) → ¬ Has u key q)
          → Returns
              (insert_at u (hash_wrapper u key) key value (some (pos, last)))
              (Inserted u key value)
    go none t ks vs used hash valid l sized place absent = absurd valid.owns
    go (some b) t ks vs used hash valid l sized place absent =
        let u : HashMap = record {
          table_count = t;
          key_size = ks;
          value_size = vs;
          slots_used = used;
          hash = hash;
          storage = some b;
        } in
        let s = hash_wrapper u key in
        rw
          (
            store_entry-eq t ks vs used hash b (chosen pos last) s key value valid place.within l
                sized,
            ◌>>=◌,
          )
          (stored-Inserted t ks vs used hash b (chosen pos last) s key value valid refl l sized
            place absent)

-- The insertion where no rehash comes before it.
pub insert_no_rehash-Inserted :
    (hm : HashMap) (key : List ℕ) (value : Option (List ℕ))
    → IsValid hm
    → Stops hm key
    → length key ≡ hm.key_size
    → Sized hm value
    → Returns (insert_no_rehash hm key value) (Inserted hm key value)
unfolding insert_no_rehash
insert_no_rehash-Inserted hm key value valid stops l sized =
    Returns->>= _ (insert_at hm (hash_wrapper hm key) key value)
      (Ended hm key (hash_wrapper hm key)) (Inserted hm key value)
      (probing-Ended hm key valid stops) (λ r h. insert_at-Inserted hm key value r valid l sized h)

-- The insertion at any depth of the calls, of a map that needs no rehash.
pub insert_nested-Inserted :
    (a : Allocator) (depth : ℕ) (hm : HashMap) (key : List ℕ) (value : Option (List ℕ))
    → IsValid hm
    → is_loaded hm ≡ false
    → Stops hm key
    → length key ≡ hm.key_size
    → Sized hm value
    → Returns (insert_nested a (suc depth) hm key value) (Inserted hm key value)
unfolding insert_nested
insert_nested-Inserted a depth hm key value valid light stops l sized =
    rw light (insert_no_rehash-Inserted hm key value valid stops l sized)

-- `hashmap_insert` into a valid map that needs no rehash, in which the probing for the key meets an
-- unused slot, of a key of its size, and of a value of its size or none, ends and does not fault. It
-- says that the key exists, where it does, and changes nothing; or it says ok, and the map has the
-- key, which it did not have, with the value, and all other keys and values as before.
pub hashmap_insert-Inserted :
    (a : Allocator) (hm : HashMap) (key : List ℕ) (value : Option (List ℕ))
    → IsValid hm
    → is_loaded hm ≡ false
    → Stops hm key
    → length key ≡ hm.key_size
    → Sized hm value
    → Returns (hashmap_insert a hm key value) (Inserted hm key value)
unfolding hashmap_insert
hashmap_insert-Inserted a = insert_nested-Inserted a 1
