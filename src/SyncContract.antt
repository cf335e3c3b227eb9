-- ===== src/SyncContract.antt =====
-- The synchronisation contract of packages/contracts/src/sync.ts: `Formats` has the formats of its
-- members, `Events` the schemas of the events, `Pages` those of the requests and responses.
pub mod Formats
pub mod Events
pub mod Pages
pub mod Emitted
pub mod Recorded
