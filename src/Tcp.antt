-- ===== src/Tcp.antt =====
-- app/tcp: the byte protocol spoken with the vehicles.
pub mod Bytes
pub mod Crc
pub mod Codec
pub mod Checked
pub mod Dict
pub mod Futures
pub mod Channels
pub mod Server
pub mod Constants
pub mod Flags
pub mod Responses
