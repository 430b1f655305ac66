-- ===== src/Orderbook.antt =====
-- Computing-Server's order book: include/Orderbook and src/Orderbook.
pub mod Order
pub mod Level
pub mod Match
pub mod Invariant
pub mod Index
pub mod Matching
pub mod Insert
pub mod Erase
pub mod Valid
pub mod Cancel
pub mod Ready
pub mod Add
pub mod Locks
pub mod Hang
pub mod ExactFill
pub mod Book
pub mod Tests
pub mod MarketMaking
pub mod Position
