-- ===== src/Provisioner.antt =====
-- services/provisioner: the control plane that reads provision requests from a queue.
pub mod Request
pub mod Dispatch
pub mod Sqs
pub mod Kafka
pub mod Propagation
pub mod Start
pub mod Logger
