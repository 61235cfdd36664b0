-- ===== src/Store/Memory.antt =====
-- internal/store/memory: the in-memory task store.
mod Records
mod Leases
unfoldable pub use Records.*
unfoldable pub use Leases.*
