-- ===== src/Privacy.antt =====
-- The release card of sentrylink/privacy.py and its text. The ledger entry of that file stands with
-- the accountant. The texts of numbers are made by functions that are given.
use Prim.Native.String.{◌++◌ as text_append}
use sentry_link.Base.{ℕ, String, List, [], ◌∷◌, ◌++◌, map}
use sentry_link.Floats.{Floats}

module _ (fl : Floats) where
  -- The dict that `build_release_card` returns.
  pub record ReleaseCard : Type 0 where
    pub release : String
    pub domain : String
    pub cohort_size : ℕ
    pub mechanism : String
    pub epsilon : fl.Float
    pub delta : fl.Float
    pub accounting : String
    pub sensitivity : fl.Float
    pub preprocessing : List String
    pub secure_computation : String
    pub raw_data : String
    pub persistent_raw_records : String
    pub audit : String
    pub security_note : String

  unfoldable pub build_release_card :
      String
      → String
      → ℕ
      → String
      → fl.Float
      → fl.Float
      → fl.Float
      → String
      → List String
      → String
      → ReleaseCard
  build_release_card release domain cohort_size mechanism epsilon delta sensitivity accounting
        preprocessing computation =
      record {
        release = release;
        domain = domain;
        cohort_size = cohort_size;
        mechanism = mechanism;
        epsilon = epsilon;
        delta = delta;
        accounting = accounting;
        sensitivity = sensitivity;
        preprocessing = preprocessing;
        secure_computation = computation;
        raw_data = "never leaves organization";
        persistent_raw_records = "none";
        audit = "hash-chained";
        security_note = "2-node collusion is out of scope";
      }

  -- `render_card_text`, as the lines that it joins.
  unfoldable pub card_lines : (ℕ → String) → (fl.Float → String) → ReleaseCard → List String
  card_lines show_nat show_float card =
      ("SENTRYLINK PRIVACY CARD"
        ∷ ""
        ∷ text_append "Release: " card.release
        ∷ text_append "Domain: " card.domain
        ∷ text_append "Cohort: " (text_append (show_nat card.cohort_size) " organizations")
        ∷ ""
        ∷ "Mechanism:"
        ∷ text_append "  " card.mechanism
        ∷ ""
        ∷ "Privacy:"
        ∷ text_append "  epsilon = " (show_float card.epsilon)
        ∷ text_append "  delta   = " (show_float card.delta)
        ∷ ""
        ∷ "Accounting:"
        ∷ text_append "  " card.accounting
        ∷ ""
        ∷ "Sensitivity:"
        ∷ text_append "  " (show_float card.sensitivity)
        ∷ ""
        ∷ "Pre-processing:"
        ∷ [])
      ++ map (λ step. text_append "  " step) card.preprocessing
      ++ ""
        ∷ "Secure computation:"
        ∷ text_append "  " card.secure_computation
        ∷ ""
        ∷ "Raw data:"
        ∷ text_append "  " card.raw_data
        ∷ ""
        ∷ "Persistent raw records:"
        ∷ text_append "  " card.persistent_raw_records
        ∷ ""
        ∷ "Audit:"
        ∷ text_append "  " card.audit
        ∷ ""
        ∷ "Security note:"
        ∷ text_append "  " card.security_note
        ∷ []

  -- `"\n".join`
  unfoldable pub join_lines : List String → String
  join_lines [] = ""
  join_lines (l ∷ []) = l
  join_lines (l ∷ m ∷ ls) = text_append l (text_append "\n" (join_lines (m ∷ ls)))

  unfoldable pub render_card_text : (ℕ → String) → (fl.Float → String) → ReleaseCard → String
  unfolding card_lines join_lines
  render_card_text show_nat show_float card = join_lines (card_lines show_nat show_float card)
