-- ===== src/Netbuffer.antt =====
-- netbuffer.cpp and netbuffer.hpp: values of primitive types, strings and containers written to a
-- byte buffer in network order, and read back.
pub mod Endian
pub mod Primitive
pub mod Push
pub mod Reader
pub mod Containers
pub mod Strings
