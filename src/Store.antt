-- ===== src/Store.antt =====
-- The state that the operations share, and how they reach what lies outside the program: the rows
-- of internal/entity and migrations, the PostgreSQL pool and its transactions, the object store,
-- the clock and the generator of ids.
pub mod Keys
pub mod Rows
pub mod Effects
pub mod Objects
pub mod Keeps
pub mod Yields
pub mod Ends
pub mod Transactions
pub mod Answers
pub mod Steps
pub mod KeyLaws
pub mod Answering
pub mod Ticks
pub mod Quiet
unfoldable pub use Keys.*
unfoldable pub use Rows.*
unfoldable pub use Effects.*
unfoldable pub use Objects.*
