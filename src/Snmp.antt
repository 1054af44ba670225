-- ===== src/Snmp.antt =====
-- The package snmpclient: GET and WALK over SNMP v3, traps, and the HTTP handler.
pub mod Security
pub mod Results
pub mod Client
pub mod Scheduler
pub mod Trap
pub mod Handler
