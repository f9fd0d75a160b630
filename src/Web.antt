-- ===== src/Web.antt =====
-- src/websocket/: the websocket servers of the head-end system (server.cpp) and of the task runner
-- (taskrunner.cpp), which share the text of their sessions and listeners.
pub mod Session
pub mod Server
pub mod TaskRunner
pub mod Listener
pub mod Program
