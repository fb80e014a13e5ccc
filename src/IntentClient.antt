-- ===== src/IntentClient.antt =====
-- src/intent-client-lib/intentclient.cpp and intentclientrequest.cpp: the requests that an application
-- sends, and the ones that it is asked to handle.
pub mod State
pub mod Client
pub mod Answering
pub mod Handlers
mod Tests
