-- ===== src/Storage.antt =====
-- sentrylink/storage: the persisted forms, the in-memory store and what it promises.
pub mod Codec
pub mod Memory
pub mod Rows
pub mod Contents
