-- ===== src/File.antt =====
-- The calls of the operating system in user-dev/src/util/file-util.c. The system is a parameter:
-- what each call returns, what it does to the state of the world, and the errno it leaves.
pub mod Ending
pub mod Calls
mod Cases
mod Loops
mod Reading
mod Writing
mod Errors
mod Opening
mod Tests
