-- ===== src/Event.antt =====
-- event/: the timers, deferred events and the rounds of the event loop.
pub mod Types
pub mod Wheel
pub mod Loop
pub mod Run
pub mod All
pub mod Closed
pub mod Keeps
pub mod Coarse
pub mod Buckets
pub mod Started
pub mod Span
pub mod Sleep
pub mod Quiet
pub mod Rest
pub mod Handled
pub mod Rounds
pub mod Ends
pub mod Budget
pub mod Finish
pub mod Due
pub mod Socket
pub mod Linked
mod Tests
