-- ===== src/Tests.antt =====
-- Concrete allocators, vectors and trees, runs of the operations on them, and an instance of each
-- property that has conditions.
mod Memory
mod Vector
mod BTree
mod Hash
mod HashMap
mod Rehash
mod String
mod Tracker
