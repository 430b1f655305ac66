-- ===== src/IoServer/Router.antt =====
-- The class APIRouter of IO-Server/src/api_router.cpp: a handler for each route, in the modules named
-- for what they serve.
pub mod Ask
pub mod Market
pub mod Snapshots
pub mod Strategies
pub mod Orders
pub mod Signals
pub mod Positions
pub mod Sound
pub mod Routes
