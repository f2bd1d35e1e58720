-- ===== src/Delivery.antt =====
-- handler.go: responseStreamer, between the origin's handler and the client;
-- client_preconditions.go: the writer that applies a client's conditions.
pub mod Defs
pub mod Visible
pub mod Order
pub mod Maps
pub mod Aliases
pub mod Conditions
pub mod Suppression
