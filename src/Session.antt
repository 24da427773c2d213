-- ===== src/Session.antt =====
-- A worker (TaskThread.cpp) and a client (Test.cpp) at the two ends of one connection, with the loop of
-- iEpoll.cpp above both. Each turn handles one event that epoll may report of one end.
pub mod Prompt
pub mod Ends
pub mod Alive
mod Pair
mod Tests
