-- ===== src/Alpaca.antt =====
-- The clients of Alpaca's services: Computing-Server/src/Order-Manager-Core and src/Data-Fetcher-Core,
-- Order-Manager-Server/src/Executor-Manager-Core, DataBroker-Server/src/Providers.
pub mod Services
pub mod Url
pub mod Feed
pub mod DataFetcher
pub mod ApiClient
pub mod Order
pub mod OrderManager
pub mod WebSocket
pub mod Tests
