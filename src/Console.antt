-- ===== src/Console.antt =====
-- src/Linux.cpp: the test harness with its menus.
pub mod Number
pub mod Input
pub mod Machine
pub mod Pointers
pub mod Client
pub mod Server
pub mod Main
