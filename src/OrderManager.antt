-- ===== src/OrderManager.antt =====
-- Order-Manager-Server: the thread-safe queue, the order details and the scheduler.
pub mod TsQueue
pub mod Details
pub mod Scheduler
pub mod ExecutorManager
pub mod Server
mod Tests
