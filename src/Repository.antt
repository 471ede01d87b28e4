-- ===== src/Repository.antt =====
-- Package repository (internal/repository) over the schema of internal/migration/migrations: the
-- tables, and one function for each query. A query may fail for a reason outside the program (the
-- connection, the disk, a cancelled context): `faults` says which of the coming calls do.
pub mod Tables
pub mod Files
pub mod Operations
pub mod Snapshots
pub mod Workspaces
pub mod Transactions
pub mod Unique
pub mod Others
pub mod Integrity
pub mod Keeps
pub mod Intact
pub mod IntactRows
unfoldable pub use Tables.*
unfoldable pub use Files.*
unfoldable pub use Operations.*
unfoldable pub use Snapshots.*
unfoldable pub use Workspaces.*
