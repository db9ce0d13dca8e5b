-- ===== src/Governance/Verticals.antt =====
-- sentrylink/verticals.py: the policy objects of the built-in domains.
use sentry_link.Base.{ℕ, String, ◌==◌, text_eq, List, [], ◌∷◌, if◌then◌else◌}
use sentry_link.Floats.{Floats}

abbrev pub full_metrics : List String
full_metrics = "histogram" ∷ "variance" ∷ "correlation" ∷ "federated_model_round" ∷ []

module _ (fl : Floats) where
  pub record VerticalPolicy : Type 0 where
    pub key : String
    pub title : String
    pub min_participants : ℕ
    pub allowed_metrics : List String
    pub max_epsilon_per_query : fl.Float
    pub purpose : String

  abbrev pub retail : VerticalPolicy
  retail = record {
    key = "retail";
    title = "Retail";
    min_participants = 3;
    allowed_metrics = full_metrics;
    max_epsilon_per_query = fl.decimal 25 0;
    purpose = "cross-org intelligence";
  }

  abbrev pub manufacturing : VerticalPolicy
  manufacturing = record {
    key = "manufacturing";
    title = "Manufacturing";
    min_participants = 3;
    allowed_metrics = full_metrics;
    max_epsilon_per_query = fl.decimal 25 0;
    purpose = "cross-org intelligence";
  }

  abbrev pub healthcare : VerticalPolicy
  healthcare = record {
    key = "healthcare";
    title = "Healthcare";
    min_participants = 4;
    allowed_metrics = "histogram" ∷ "correlation" ∷ "federated_model_round" ∷ [];
    max_epsilon_per_query = fl.decimal 10 0;
    purpose = "treatment-response research";
  }

  abbrev pub default_vertical : VerticalPolicy
  default_vertical = record {
    key = "default";
    title = "Default";
    min_participants = 3;
    allowed_metrics = full_metrics;
    max_epsilon_per_query = fl.decimal 25 0;
    purpose = "cross-org intelligence";
  }

  -- `VERTICALS.get(domain, DEFAULT_VERTICAL)`
  unfoldable pub policy_for_domain : String → VerticalPolicy
  policy_for_domain domain =
      if domain == "retail"
      then retail
      else if domain == "manufacturing"
      then manufacturing
      else if domain == "healthcare"
      then healthcare
      else default_vertical
