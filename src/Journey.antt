-- ===== src/Journey.antt =====
-- The ways of texts through several programs: from pub_client.c over `forward_message` of
-- broker_server.c to sub_client.c.
pub mod Connect
pub mod Lost
pub mod Delivery
pub mod Gone
pub mod Shares
pub mod Session
pub mod Whole
