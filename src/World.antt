-- ===== src/World.antt =====
-- The state that the handlers of the data server share: the five database files, the semaphores and
-- reader counters of Roden.h, the list of deleted products, and the replies written to the sockets.
mod Monad
mod Semaphores
pub mod Rows
unfoldable pub use Monad.*
unfoldable pub use Semaphores.*
