-- ===== src/Config.antt =====
-- sentrylink/config.py: the numeric parameters.
use sentry_link.Base.{ℕ, String, ◌-◌, ◌^◌}

-- The Mersenne prime 2^127 - 1.
abbrev pub field_p : ℕ
field_p = 2 ^ 127 - 1

abbrev pub quant_scale : ℕ
quant_scale = 1_000_000

abbrev pub mask_bound : ℕ
mask_bound = 2 ^ 40

abbrev pub min_participants : ℕ
min_participants = 3

abbrev pub protocol_version : String
protocol_version = "1"

abbrev pub max_org_contrib : ℕ
max_org_contrib = 100
