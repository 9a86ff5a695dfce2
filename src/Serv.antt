-- ===== src/Serv.antt =====
-- src/serv_addr.c: the address of the server in use, kept in flash. `Address` reads host and port,
-- `Store` is the flash record with its check sum, `Active` the address in use and its promotion.
pub mod Address
pub mod Store
pub mod Active
