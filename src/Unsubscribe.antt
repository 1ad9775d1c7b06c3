-- ===== src/Unsubscribe.antt =====
-- backend/app/services/unsubscribe: the header of a mailing list, the request that leaves it, and the
-- ranking of senders. Each file says which of the sources it is about.
pub mod Header
pub mod Executor
pub mod Senders
pub mod Suggestions
pub mod Rank
mod Tests
mod RankTests
