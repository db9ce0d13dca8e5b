-- ===== src/Governance.antt =====
-- sentrylink/governance and sentrylink/verticals.py.
pub mod Verticals
pub mod Registry
pub mod Policy
pub mod Audit
