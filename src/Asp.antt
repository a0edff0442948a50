-- ===== src/Asp.antt =====
-- app/asp_wire.c and app/asp.c: the messages of the application protocol as bytes, the names of files, and
-- the session that sends and receives them.
pub mod Varint
pub mod Crc
pub mod Frame
pub mod Payloads
pub mod SafeName
pub mod Session
mod Tests
