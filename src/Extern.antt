-- ===== src/Extern.antt =====
-- The crates that the code calls and that are not part of the repository, each as a record of the
-- operations that are used, with a predicate that states their documented behaviour.
pub mod Nom
pub mod Heapless
pub mod Sync
pub mod PubSub
pub mod Texts
