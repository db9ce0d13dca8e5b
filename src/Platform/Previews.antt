-- ===== src/Platform/Previews.antt =====
-- `preview` of sentrylink/platform.py: what a query would consume. It changes nothing, so it takes the
-- platform and returns no new one. The texts of the reasons are left out.
pub mod Charged
use sentry_link.Base.{
  ℕ, String, ◌==◌, text_eq, mem, Bool, true, false, not, List, [], ◌∷◌, length, max, Option, none,
  some, if◌then◌else◌,
}
use sentry_link.Base.Int.{pos}
use sentry_link.Base.Dict.{Dict}
use sentry_link.Config.{max_org_contrib}
use sentry_link.Errors.{Failure, Result, ok, err, ◌>>=◌, ◌>>◌, code}
use sentry_link.Floats.{Floats, zero_float, one_float, max_float}
use sentry_link.Crypto.SecureAggregation.{KeyAgreement}
use sentry_link.Crypto.DifferentialPrivacy.{
  rdp_alphas, laplace_rdp_cost, gaussian_rdp_cost, gaussian_sigma,
}
use sentry_link.Crypto.DifferentialPrivacy.Accountant.{
  PrivacyBudget, PrivacyAccountant, Regime, new_budget, preview,
}
use sentry_link.Federated.Round.{update_clip}
use sentry_link.Governance.Policy.{QueryRequest, QueryDecision, evaluate}
use sentry_link.Storage.Codec.{Formats}
use sentry_link.Platform.{Platform}
use sentry_link.Platform.Queries.{QueryArgs, request_of, accounting}

-- `decision.code not in codes`
abbrev pub code_apart : Option String → List String → Bool
code_apart none codes = true
code_apart (some c) codes = not (mem c codes)

abbrev pub regime_name : Regime → String
regime_name Regime.rdp = "rdp"
regime_name Regime.basic = "basic"

module _ (fl : Floats) (formats : Formats fl) (ka : KeyAgreement) where
  -- The dict that `preview` returns.
  pub record QueryPreview : Type 0 where
    pub allowed : Bool
    pub reason_code : Option String
    pub cohort_size : ℕ
    pub mechanism : String
    pub epsilon_requested : fl.Float
    pub delta : fl.Float
    pub estimated_cost : fl.Float
    pub remaining_budget_before : fl.Float
    pub remaining_budget_after : fl.Float
    pub accounting_regime : String
    pub sensitivity : fl.Float
    pub request_id : Option String
    pub cohort_floor_satisfied : Bool
    pub sector_scope_valid : Bool
    pub consent_valid : Bool

  -- `_preview_spec`
  unfoldable pub preview_spec : String → ℕ → String × fl.Float
  preview_spec metric cohort_size =
      if metric == "histogram"
      then ("laplace", fl.of_int (pos max_org_contrib))
      else if metric == "variance"
      then ("laplace", one_float fl)
      else if metric == "correlation"
      then ("laplace", fl.decimal 2 0)
      else if metric == "federated_model_round"
      then (
        "gaussian",
        fl.div (fl.mul (fl.decimal 2 0) (update_clip ka fl)) (fl.of_int (pos (max 1 cohort_size))),
      )
      else ("unknown", zero_float fl)

  -- The delta that is charged: only a Gaussian release has one.
  unfoldable pub preview_delta : String → fl.Float → fl.Float
  preview_delta mechanism delta = if mechanism == "gaussian" then delta else zero_float fl

  -- The RDP cost of a mechanism.
  unfoldable pub preview_rdp :
      String → fl.Float → fl.Float → fl.Float → Result (Option (Dict ℕ fl.Float))
  unfolding laplace_rdp_cost gaussian_rdp_cost gaussian_sigma
  preview_rdp mechanism sens epsilon delta =
      if mechanism == "laplace"
      then (do rdp ← laplace_rdp_cost fl epsilon rdp_alphas; ok (some rdp))
      else if mechanism == "gaussian"
      then (do
        sigma ← gaussian_sigma fl sens epsilon delta
        rdp ← gaussian_rdp_cost fl sens sigma rdp_alphas
        ok (some rdp))
      else ok none

  -- `remaining_before`
  abbrev pub remaining_before : PrivacyAccountant fl → fl.Float
  remaining_before a = max_float fl (zero_float fl) (fl.sub a.limit.epsilon a.spent.epsilon)

  -- `base`, which is what a denied request gets.
  unfoldable pub preview_base :
      PrivacyAccountant fl
      → QueryDecision fl
      → String × fl.Float
      → QueryArgs fl formats ka
      → QueryPreview
  unfolding preview_delta accounting
  preview_base a decision (mechanism, sens) args = record {
    allowed = false;
    reason_code = decision.code;
    cohort_size = 0;
    mechanism = mechanism;
    epsilon_requested = args.epsilon;
    delta = preview_delta mechanism args.delta;
    estimated_cost = args.epsilon;
    remaining_budget_before = remaining_before a;
    remaining_budget_after = remaining_before a;
    accounting_regime = accounting fl formats ka a;
    sensitivity = sens;
    request_id = args.request_id;
    cohort_floor_satisfied =
        code_apart decision.code ("COHORT_TOO_SMALL" ∷ "HEALTHCARE_COHORT_TOO_SMALL" ∷ []);
    sector_scope_valid = code_apart decision.code ("SECTOR_MISMATCH" ∷ "DOMAIN_MISMATCH" ∷ []);
    consent_valid = code_apart decision.code ("CONSENT_REQUIRED" ∷ "QUERY_NOT_ALLOWED" ∷ []);
  }

  -- What the accountant says of a request that the policy engine allows.
  unfoldable pub preview_admission :
      PrivacyAccountant fl → String × fl.Float → QueryArgs fl formats ka → Result (Bool × Regime)
  unfolding preview_delta preview_rdp new_budget preview
  preview_admission a (mechanism, sens) args = do
    cost ← new_budget fl args.epsilon (preview_delta mechanism args.delta)
    rdp ← preview_rdp mechanism sens args.epsilon args.delta
    preview fl a cost rdp

  -- `base.update(...)`
  unfoldable pub preview_update :
      PrivacyAccountant fl
      → QueryDecision fl
      → QueryArgs fl formats ka
      → QueryPreview
      → Bool × Regime
      → QueryPreview
  preview_update a decision args base (admitted, regime) = record base {
    allowed = admitted;
    reason_code = if admitted then none else code Failure.privacy_budget;
    cohort_size = length decision.participants;
    remaining_budget_after =
        max_float fl (zero_float fl) (fl.sub (remaining_before a) args.epsilon);
    accounting_regime = regime_name regime;
  }

  -- `preview` after the decision.
  unfoldable pub preview_decided :
      Platform fl formats ka
      → String
      → QueryArgs fl formats ka
      → QueryDecision fl
      → Result QueryPreview
  unfolding preview_spec preview_base preview_admission preview_update
  preview_decided p metric args decision =
      let spec = preview_spec metric (length decision.participants) in
      let base = preview_base p.accountant decision spec args in
      let admission = preview_admission p.accountant spec args in
      if not decision.allowed
      then ok base
      else (admission >>= λ a. ok (preview_update p.accountant decision args base a))

  -- `preview`
  unfoldable pub query_preview :
      String → Platform fl formats ka → String → QueryArgs fl formats ka → Result QueryPreview
  unfolding evaluate preview_decided
  query_preview query_id p metric args = do
    decision ← evaluate fl p.policy query_id (request_of fl formats ka metric args)
    preview_decided p metric args decision
