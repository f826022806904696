-- ===== src/Resp.antt =====
-- internal/server/resp: the dispatch of commands and the transactions of one connection.
pub mod Session
pub mod Transactions
pub mod Queue
pub mod Patterns
pub mod Wire
pub mod Handlers
pub mod Connection
pub mod Agents
pub mod PubSub
