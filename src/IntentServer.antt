-- ===== src/IntentServer.antt =====
-- src/intent-server-lib/intentserver.cpp and intentserverrequest.cpp.
pub mod State
pub mod Registry
pub mod Routing
pub mod Answers
pub mod Process
pub mod Events
pub mod Invariant
pub mod Placing
pub mod Stages
pub mod Sending
pub mod Processing
pub mod Taking
pub mod Delivery
pub mod Starting
pub mod Safety
pub mod Posting
pub mod Liveness
pub mod Draining
pub mod Reentrancy
pub mod Entering
pub mod Access
mod Histories
mod Tests
