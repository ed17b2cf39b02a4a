-- ===== src/Server/Sessions.antt =====
-- Messages that the server handles one after the other: what a handler changes and a later one shows.
pub mod NewProduct
pub mod NewName
pub mod NewOrder
