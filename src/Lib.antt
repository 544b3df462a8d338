-- ===== src/Lib.antt =====
-- A model of the containers of cstructures, a C library, and proofs of what they do.
--
-- The program. cstructures/src/vector.c is a growing array of elements of one size,
-- cstructures/src/btree.c a sorted array of keys with values of one size behind it, and
-- cstructures/src/hashmap.c a hash table with open addressing, whose removals leave tombstones.
-- Each owns one object on the heap, which it gets from the allocator and gives back to it. None
-- calls the others. cstructures/src/hash.c has the hash functions that a map is used with.
-- cstructures/src/memory.c is an allocation tracker: it has a hash map of the live allocations,
-- by their address, and counters, and at the end it reports what was not freed.
-- cstructures/src/string.c reads lines into a vector of characters, and splits a string.
-- cstructures/src/init.c starts and ends the tracker.
--
-- The files. Prelude passes on the names of the libraries and has the Boolean tests, lists and
-- tables, the outcome of a run (Exec: a value, or a fault) and 32-bit arithmetic. Buffer models
-- the heap: an object has a size and a byte at each place; memmove, memcpy, memcmp and reads
-- fault outside the object; malloc and realloc are a parameter, a record of two functions with
-- the laws that the C standard gives them. Null is none.
--
-- Vector models vector.c and vector.h. Vector.Struct has the struct, its constants and the
-- functions that set it up; Vector.Storage has vector_realloc, vector_reserve, vector_resize,
-- vector_compact and the functions that clear; Vector.Insert has vector_emplace, vector_push,
-- vector_push_vector, vector_insert_emplace and vector_insert; Vector.Erase has vector_pop,
-- vector_erase_index and vector_erase_element; Vector.Access has the reads and the search;
-- Vector.Reverse the reversal; Vector.Iterate the loop macros of the header. Vector.Valid has
-- the invariant and the list of elements that a vector stands for, and the modules under
-- Vector.Proof have the proofs, each named for what it is about; for the larger ones, the bytes
-- after the moves stand in modules of their own.
--
-- BTree models btree.c and btree.h in the same way. BTree.Struct has the struct, the macros that
-- find keys and values, and the bytes of a key; BTree.Storage has btree_realloc, btree_reserve,
-- btree_compact and the functions that clear; BTree.Search has the binary search, btree_find,
-- btree_key_exists and btree_find_and_compare; BTree.Insert has the insertions and the update;
-- BTree.Query has the search by value and for an unused key; BTree.Erase the removals, and
-- BTree.Iterate the loop macros and the removal inside a loop. BTree.Valid has the invariant,
-- the sorted list of entries and the finite map that a tree stands for.
--
-- HashMap models hashmap.c and hashmap.h. HashMap.Struct has the struct, the macros that find
-- slots, keys and values, the wrapper of the hash function and the functions that set a map up;
-- HashMap.Probe has the loops, HashMap.Find has hashmap_find and hashmap_erase, and
-- HashMap.Insert has hashmap_insert and resize_rehash, which call each other. HashMap.Iterate
-- has the loop HASHMAP_FOR_EACH. HashMap.Valid has the invariant, the positions of the probing,
-- and what it means that a map has a key. The hash function is any function from the bytes of a
-- key to 32 bits. Hash models hash.c: Hash.Defs has the functions, and Hash.Bounds what is
-- proved of them.
--
-- Memory models memory.c and memory.h, as a build with CSTRUCTURES_MEMORY_DEBUGGING and without
-- backtraces has them. Memory.Struct has the globals as a record, the bytes of an entry of the
-- report, and memory_init; Memory.Track has cstructures_malloc, cstructures_realloc and
-- cstructures_free over the model of the hash map; Memory.Report has the numbers that the
-- tracker tells, memory_deinit and mutated_string_and_hex_dump. Memory.Valid has the list of the
-- live allocations and what it means that the tracker knows them, and Memory.Calls has sequences
-- of calls. What malloc and realloc of the C library gave to the program is an argument of a
-- call, a pointer as a number, and so is the content of the objects that a report dumps. Init
-- models init.c.
--
-- String models string.c and string.h over the model of the vector. String.Struct has the struct
-- and its set-up, String.Lines has string_getline, on the list of the bytes that fgetc gives,
-- and String.Tokens has cs_stringok.
--
-- State and results. A struct is a record whose data field is an optional object. A function
-- takes the record and returns a new one. A pointer into the object is a byte offset, or an
-- index for a pointer to a key. An element, a key's value or an argument behind a pointer is a
-- list of bytes. A failed assert and an access outside an object or through null are a fault.
-- Where a function frees an object, the object is returned, but for the rehash, which frees one
-- of two storages. Functions that return a status or write through a pointer return a tuple.
--
-- Numbers. Sizes, counts and keys are 32 bits wide, as the build sets them, and products and
-- sums of them wrap where the source computes them in 32 bits; pointer arithmetic does not wrap.
-- Proofs that need a size not to wrap have that as a hypothesis on the capacity and the element
-- size. The counters, pointers and sizes of the tracker are 64 bits wide and wrap.
--
-- Loops. The binary search, the reversal and the search for an unused key are on fuel, and to
-- run out of it is a fault, so a theorem that says that a run returns also says that the fuel is
-- enough: a round more than the count halves to nothing, 2 ^ 32 rounds for the two pointers of
-- the reversal, which are less than 2 ^ 32 bytes apart, a round more than there are bytes in the
-- object. The probing of the hash map has twice as many rounds as the table has slots, after
-- which its positions come round again, so that a probing that ever meets an unused slot meets
-- one within them; that it does is a hypothesis, since it does not in every table, or follows
-- from the size of the table: a power of two, or three times one, as a rehash leaves it.
-- hashmap_insert and resize_rehash are on fuel for the depth of their calls: two, as a rehash
-- inserts into a table three times as large. The searches for an element or a value have a round
-- for each entry. The loop macros of the vector and the tree are on fuel, a round for each
-- element and one more; the one of the hash map has a round for each slot. string_getline goes
-- down the list of bytes, and strchr has a round for each byte of the object and one more, after
-- which it would read behind the object. The table of the report has 4096 slots and is not
-- rehashed below 2868 entries; as 4096 is a power of two, the probing meets every slot.
--
-- Not modelled: the backtraces of each platform, which only print; the build without the
-- allocation tracker, where its functions return zero; the 64-bit builds of the containers; a
-- vector that is pushed onto itself; the statistics of the hash map; what is printed, but for
-- the lines and the dumps of the report; a body of a loop macro that changes the container, but
-- for the removal of the current item of a tree.
pub mod Prelude
pub mod Buffer
pub mod Vector
pub mod BTree
pub mod Hash
pub mod HashMap
pub mod String
pub mod Memory
pub mod Init
pub mod Tests
