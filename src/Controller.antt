-- ===== src/Controller.antt =====
-- controller/controller.py: the barrier at which the workers meet, the sessions and the broadcasts.
pub mod Barrier
pub mod Counting
pub mod Arriving
pub mod Leaving
pub mod Meeting
pub mod Order
pub mod Broadcast
pub mod Round
pub mod Serving
pub mod Rounds
pub mod Returning
pub mod Scheduled
pub mod Session
pub mod Calls
pub mod Table
pub mod Inside
pub mod Kept
pub mod Exchange
mod Examples
