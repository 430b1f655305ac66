-- ===== src/Orderbook/Matching.antt =====
-- What the loops of `MatchOrders` (Computing-Server/src/Orderbook/order_book.cpp) keep and reach.
pub mod Rule
pub mod Exchange
pub mod Volume
pub mod Fair
pub mod Indexed
pub mod Priority
pub mod Ends
pub mod Spin
pub mod Uncross
