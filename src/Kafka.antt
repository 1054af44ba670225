-- ===== src/Kafka.antt =====
-- kafka/kafka.go
pub mod Topic
pub mod Publisher
pub mod Contract
pub mod Logged
