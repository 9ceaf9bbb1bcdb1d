-- ===== src/Proto.antt =====
-- The messages inside a message: Message.pb.cc (their bytes), msg.h and factory.h (what the program
-- reads and writes).
pub mod Runtime
pub mod Wire
pub mod Msg
