-- ===== src/Cache.antt =====
-- internal/cache: the store of action results. `Key` holds the keys, `Names` and `Store` the store,
-- `Gc` its collector, `Tools` the cache of tool digests.
pub mod Names
pub mod Key
pub mod Tools
pub mod Store
pub mod Gc
