-- ===== src/Platform/Queries.antt =====
-- The protected queries of sentrylink/platform.py: what the three methods share, from the decision
-- to the result. They differ in the statistic, in the noise, and in the names that they record.
pub mod Histogram
pub mod Dispersion
pub mod Release
use Prim.Native.String.{◌++◌ as text_append}
use sentry_link.Base.{
  ℕ, String, ◌==◌, text_eq, true, false, List, [], ◌∷◌, ◌++◌, map, length, Option, none, some,
  if◌then◌else◌,
}
use sentry_link.Base.Int.{ℤ}
use sentry_link.Base.Dict.{Dict}
use sentry_link.Errors.{Failure, Result, ok, err, ◌>>=◌, ◌>>◌, is_value_error}
use sentry_link.Floats.{Floats, zero_float}
use sentry_link.Crypto.SecureAggregation.{KeyAgreement}
use sentry_link.Crypto.DifferentialPrivacy.{rdp_alphas, laplace_rdp_cost}
use sentry_link.Crypto.DifferentialPrivacy.Accountant.{
  PrivacyBudget, PrivacyAccountant, Charge, Event, LedgerEntry, new_budget, charge,
}
use sentry_link.Governance.Audit.{AuditEntry}
use sentry_link.Governance.Policy.{QueryRequest, QueryDecision, evaluate, raise_if_denied}
use sentry_link.Privacy.{ReleaseCard, build_release_card}
use sentry_link.Storage.Codec.{Formats, encode_budget}
use sentry_link.Storage.Memory.{Op}
use sentry_link.Platform.{
  Platform, Setup, Stamp, Outcome, Detail, audit_entry, commit_bundle, and_then,
}

-- What `order` in hundredths is as a float.
abbrev pub order_of : (fl : Floats) → ℕ → fl.Float
order_of fl a = fl.decimal a 2

module _ (fl : Floats) (formats : Formats fl) (ka : KeyAgreement) where
  -- What a query draws.
  pub record QueryDraws : Type 0 where
    pub query_id : String
    pub tapes : ℕ → ℕ → ℕ
    -- `rng.laplace(0.0, scale, size)`, for a vector and for one number.
    pub laplace : fl.Float → List fl.Float
    pub laplace_one : fl.Float → fl.Float
    pub event_id : String
    pub event_ts : fl.Float
    pub ledger_ts : fl.Float
    pub stamp : Stamp fl formats ka
    pub result_ts : fl.Float

  pub record QueryArgs : Type 0 where
    pub sector_group : String
    pub domain : String
    pub epsilon : fl.Float
    pub delta : fl.Float
    pub purpose : String
    pub request_id : Option String

  pub data Value : Type 0 where
    counts : List ℤ → Value
    labelled : Dict String ℤ → Value
    figure : fl.Float → Value

  pub record QueryResult : Type 0 where
    pub query_id : String
    pub metric : String
    pub value : Value
    pub raw_value : Value
    pub participants : List String
    pub epsilon : fl.Float
    pub delta : fl.Float
    pub noise_sigma : fl.Float
    pub purpose : String
    pub ts : fl.Float
    pub privacy_card : ReleaseCard fl

  abbrev pub request_of : String → QueryArgs → QueryRequest fl
  request_of metric args = record {
    metric = metric;
    sector_group = args.sector_group;
    domain = args.domain;
    epsilon = args.epsilon;
    delta = args.delta;
    purpose = args.purpose;
  }

  -- The decision on a request, or its denial raised.
  unfoldable pub granted :
      String → Platform fl formats ka → String → QueryArgs → Result (QueryDecision fl)
  unfolding evaluate raise_if_denied
  granted query_id p metric args = do
    decision ← evaluate fl p.policy query_id (request_of metric args)
    raise_if_denied fl decision
    ok decision

  -- `except ValueError as exc: raise InvalidDataError`
  unfoldable pub as_invalid : {A : Type 0} → Result A → Result A
  as_invalid (ok a) = ok a
  as_invalid (err f) = if is_value_error f then err Failure.invalid_data else err f

  -- `_accounting`
  unfoldable pub accounting : PrivacyAccountant fl → String
  accounting a = if a.rdp_complete then "rdp" else "basic"

  -- `_ledger_entry`
  unfoldable pub ledger_entry :
      fl.Float
      → String
      → String
      → String
      → fl.Float
      → fl.Float
      → fl.Float
      → ℕ
      → Option fl.Float
      → String
      → Option String
      → LedgerEntry fl
  ledger_entry ts scope query_type mechanism epsilon delta sensitivity cohort_size clip_bound
        purpose request_id =
      record {
        scope = scope;
        query_type = query_type;
        mechanism = mechanism;
        epsilon = epsilon;
        delta = delta;
        rdp_orders = map (order_of fl) rdp_alphas;
        sensitivity = sensitivity;
        cohort_size = cohort_size;
        clip_bound = clip_bound;
        purpose = purpose;
        request_id = request_id;
        timestamp = ts;
      }

  -- What is released, with the spread of its noise and what the entry says beside the common details.
  pub record Noisy : Type 0 where
    pub value : Value
    pub noise_sigma : fl.Float
    pub details : Dict String (Detail fl.Float)

  -- What sets a query apart: its names, the parameters of its Laplace noise, and how it releases.
  pub record LaplaceQuery (Raw : Type 0) : Type 0 where
    pub metric : String
    pub scope : String
    pub action : String
    pub sensitivity : fl.Float
    pub clip_bound : Option fl.Float
    pub preprocessing : List String
    pub raw_value : Raw → Value
    pub release : QueryDraws → Raw → QueryArgs → Result Noisy

  -- The audit entry and the commit of a query.
  unfoldable pub record_query :
      Setup fl formats ka
      → QueryDraws
      → (fl.Float × fl.Float)
      → Platform fl formats ka
      → String
      → Dict String (Detail fl.Float)
      → Option String
      → Outcome fl formats ka (Unit {0})
  unfolding audit_entry commit_bundle encode_budget
  record_query setup draws spent_before p action details request_id =
      let (entry, audited) =
        audit_entry fl formats ka setup p draws.stamp request_id action details in
      commit_bundle fl formats ka setup audited (
        Op.save_budget (encode_budget fl formats audited.accountant) spent_before
        ∷ Op.append_audit entry entry.prev_hash
        ∷ [])

  module _ {Raw : Type 0} (q : LaplaceQuery Raw) where
    -- The charge of a query: pure epsilon, at Laplace RDP costs.
    unfoldable pub charge_laplace :
        QueryDraws
        → Platform fl formats ka
        → QueryDecision fl
        → QueryArgs
        → Result (PrivacyAccountant fl × Event fl)
    unfolding new_budget laplace_rdp_cost ledger_entry charge
    charge_laplace draws p decision args = do
      cost ← new_budget fl args.epsilon (zero_float fl)
      rdp_cost ← laplace_rdp_cost fl args.epsilon rdp_alphas
      let scope = text_append q.scope args.sector_group
      charge fl p.accountant (record {
        cost = cost;
        rdp_cost = some rdp_cost;
        purpose = args.purpose;
        subject = scope;
        ledger = some (
            ledger_entry draws.ledger_ts scope q.metric "laplace" args.epsilon (zero_float fl)
              q.sensitivity (length decision.participants) q.clip_bound args.purpose
              args.request_id);
        id = draws.event_id;
        ts = draws.event_ts;
      })

    -- The details of the entry, and the result of a query that the platform has recorded.
    abbrev pub query_details : QueryDecision fl → QueryArgs → Noisy → Dict String (Detail fl.Float)
    query_details decision args out =
        ("query_id", Detail.text decision.query_id)
        ∷ ("participants", Detail.names decision.participants)
        ∷ ("epsilon", Detail.real args.epsilon)
        ∷ ("delta", Detail.real args.delta)
        ∷ out.details

    unfoldable pub query_result :
        QueryDraws → PrivacyAccountant fl → QueryDecision fl → Raw → QueryArgs → Noisy → QueryResult
    unfolding build_release_card accounting
    query_result draws a decision raw args out = record {
      query_id = decision.query_id;
      metric = q.metric;
      value = out.value;
      raw_value = q.raw_value raw;
      participants = decision.participants;
      epsilon = args.epsilon;
      delta = args.delta;
      noise_sigma = out.noise_sigma;
      purpose = args.purpose;
      ts = draws.result_ts;
      privacy_card =
          build_release_card fl q.metric args.domain (length decision.participants) "laplace"
            args.epsilon (zero_float fl) q.sensitivity (accounting a) q.preprocessing
            "2-node additive secret sharing";
    }

    -- A query after its noise: the entry, the commit and the result.
    unfoldable pub query_released :
        Setup fl formats ka
        → QueryDraws
        → (fl.Float × fl.Float)
        → Platform fl formats ka
        → QueryDecision fl
        → Raw
        → QueryArgs
        → Result Noisy
        → Outcome fl formats ka QueryResult
    unfolding record_query query_result
    query_released setup draws before charged decision raw args (err f) = (charged, err f)
    query_released setup draws before charged decision raw args (ok out) =
        and_then fl formats ka
          (record_query setup draws before charged q.action (query_details decision args out)
            args.request_id)
          (λ p' done. (p', ok (query_result draws p'.accountant decision raw args out)))

    -- A query after its charge.
    unfoldable pub query_charged :
        Setup fl formats ka
        → QueryDraws
        → Platform fl formats ka
        → QueryDecision fl
        → Raw
        → QueryArgs
        → Result (PrivacyAccountant fl × Event fl)
        → Outcome fl formats ka QueryResult
    unfolding query_released
    query_charged setup draws p decision raw args (err f) = (p, err f)
    query_charged setup draws p decision raw args (ok (accountant, event)) =
        query_released setup draws (p.accountant.spent.epsilon, p.accountant.spent.delta)
          (record p { accountant = accountant }) decision raw args (q.release draws raw args)

    -- A query after the statistic on shares.
    unfoldable pub query_from :
        Setup fl formats ka
        → QueryDraws
        → Platform fl formats ka
        → QueryArgs
        → Result (QueryDecision fl × Raw)
        → Outcome fl formats ka QueryResult
    unfolding query_charged charge_laplace
    query_from setup draws p args (err f) = (p, err f)
    query_from setup draws p args (ok (decision, raw)) =
        query_charged setup draws p decision raw args (charge_laplace draws p decision args)
