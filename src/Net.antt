-- ===== src/Net.antt =====
-- include/net: messages, the queue between threads, connections, and the two interfaces.
pub mod Message
pub mod Connection
pub mod Scramble
pub mod TsQueue
pub mod ClientInterface
pub mod ServerInterface
