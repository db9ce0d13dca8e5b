-- ===== src/Crypto.antt =====
-- sentrylink/crypto: secret sharing, the mask generator, secure aggregation, and the privacy budget.
pub mod SecretSharing
pub mod Prg
pub mod SecureAggregation
pub mod DifferentialPrivacy
