-- ===== src/Link.antt =====
-- The link to the gateway: src/bitproto/socket_utls.c, src/bitproto/protocol_utls.c and src/drone.c.
pub mod Frame
pub mod Session
pub mod Socket
