-- ===== src/Federated.antt =====
-- sentrylink/federated: the model, the clients and the server of a round.
pub mod Model
pub mod Server
pub mod Round
pub mod Pairs
pub mod Aggregate
