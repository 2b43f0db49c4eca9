-- ===== src/Message.antt =====
-- What the protocol files share: the way a message is put together behind its length
-- (`total_length += pushBackVal(...)`), and the way it is taken apart.
pub mod Draft
pub mod Decode
