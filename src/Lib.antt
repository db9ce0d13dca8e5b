-- ===== src/Lib.antt =====
-- SentryLink: federated intelligence over organizations that share no raw data. An organization
-- joins the registry (sentrylink/governance/registry.py) with a consent policy; the policy engine
-- (governance/policy.py) decides which organizations take part in a query; statistics run over
-- additive secret shares (mpc/stats.py on crypto/secret_sharing.py) and model updates over
-- pairwise-masked sums (federated/server.py on crypto/secure_aggregation.py); each release is charged
-- to a privacy accountant (crypto/differential_privacy.py), recorded in a hash-chained log
-- (governance/audit.py) and persisted as one bundle of writes (storage/).
--
-- The files:
--   Base          lists, texts, integers and Python's dict, shared by all
--   Errors        sentrylink/errors.py, and results of calls that may raise; Errors/Codes has the
--                 table of governance/policy.py from codes to exceptions
--   Config        sentrylink/config.py
--   Floats        floats and numpy as a parameter; Floats/Fixed is a concrete one for tests
--   Modular       vectors of residues and sums in a commutative group
--   Crypto        crypto/secret_sharing.py, prg.py, secure_aggregation.py, differential_privacy.py
--   Mpc           mpc/stats.py
--   Federated     federated/model.py and client.py (Model), server.py (Server, Round)
--   Governance    verticals.py, governance/registry.py, policy.py, audit.py
--   Storage       storage/codec.py (Codec); the in-memory store of storage/store.py (Memory), and
--                 what a bundle of writes does to the contents of a store (Contents, Rows)
--   RateLimit     ratelimit.py
--   Privacy       privacy.py: the release card and its text
--   Platform      platform.py: state and commit, join and set_consent (Onboarding), the protected
--                 queries (Queries, with the histogram and, in Dispersion, variance and
--                 correlation), run_federated_round (Rounds), preview (Previews), reports (Reports),
--                 the timeline of governance/audit.py (Timeline), and the agreement of the live
--                 objects with the store (Sync)
--   Api           api/app.py and schemas.py: the guards and the replies; the endpoints for queries
--                 (Queries), organizations (Members), rounds (Learning) and reports (Transparency)
--   Tests         the theorems at concrete inputs
-- A definition has the name of the function that it models, or of the class of a record; a part of a
-- function, such as the body of a loop, is a definition of its own that its comment names.
--
-- A method that changes its object takes the state and returns the new one. A function that raises
-- returns a Result; what a raising call leaves changed is written out where the model depends on it
-- (Storage.Memory.apply_ops, and Outcome in Platform), and otherwise the state before the call
-- stands. Random draws are arguments: a tape of field elements, private keys, ids, permutations and
-- noise. A numpy int64 is a number below 2^64, added mod 2^64; a field element is a number below
-- FIELD_P.
--
-- The expansion of a seed runs on fuel, the number of bytes asked for; each step adds a digest of 32
-- bytes, so the loop ends by its own test. Every other loop is a recursion on a list or a number.
--
-- Parameters: Floats (Python's floats and numpy), KeyAgreement (X25519, HKDF, SHA-256, HMAC), the
-- hash of the audit log, PBKDF2, and the texts and bytes of a persisted value (Formats).
--
-- Not modelled: the SQLite store, whose rows and sessions are SQLAlchemy's; the request ids and the
-- start-up of the HTTP API, settings, reports, demos and synthetic data, and the messages of
-- exceptions.
pub mod Base
pub mod Errors
pub mod Config
pub mod Floats
pub mod Modular
pub mod Crypto
pub mod Mpc
pub mod Federated
pub mod Governance
pub mod Storage
pub mod RateLimit
pub mod Privacy
pub mod Platform
pub mod Api
pub mod Tests
