-- ===== src/IoServer.antt =====
-- IO-Server: the HTTP router over the SQLite database.
pub mod Library
pub mod Program
pub mod Statement
pub mod Json
pub mod Params
pub mod Router
pub mod Keeps
pub mod Database
pub mod RedisSubscriber
pub mod SqliteDb
pub mod Tests
pub mod Calculation
