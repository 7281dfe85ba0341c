-- ===== src/Wal.antt =====
-- WAL files: the arithmetic of their names, the spool, the restorer, and the service's WAL restore.
pub mod Archiving
pub mod Requests
pub mod Segment
pub mod Spool
pub mod Restorer
pub mod Service
