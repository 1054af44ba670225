-- ===== src/Coap.antt =====
-- coap/coap.go: the CoAP server whose routes and responses the configuration gives.
pub mod Template
pub mod Handler
pub mod Server
