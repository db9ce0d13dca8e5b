-- ===== src/Tests/Budgets.antt =====
-- An accountant with a limit of 10, and charges against it.
use sentry_link.Base.{ℕ, true, none, List, [], ◌∷◌, ◌≡◌, refl}
use sentry_link.Base.Int.{pos, ◌+ℤ◌, ◌*ℤ◌}
use sentry_link.Errors.{ok}
use sentry_link.Floats.Fixed.{Num, fixed, fixed-OrderLaws, fixed-NanLaws}
use sentry_link.Crypto.DifferentialPrivacy.Accountant.{
  PrivacyBudget, PrivacyAccountant, Charge, Event, preview, charge,
}
use sentry_link.Crypto.DifferentialPrivacy.Preview.{preview-charge, foretold, admitted}
use sentry_link.Crypto.DifferentialPrivacy.Ledger.{
  spent_after, IsBalanced, charge_all, charge_all-IsBalanced,
}
use sentry_link.Crypto.DifferentialPrivacy.Undefined.{charge-nan}
use sentry_link.Storage.Codec.{Formats, encode_budget, decode_budget}
use sentry_link.Storage.Codec.Budgets.{decode_budget-encode_budget}

abbrev pub budget_of : ℕ → PrivacyBudget fixed
budget_of n = record { epsilon = fixed.of_int (pos n); delta = fixed.decimal 0 0 }

abbrev pub fresh : PrivacyAccountant fixed
fresh = record {
  limit = budget_of 10;
  spent = budget_of 0;
  events = [];
  rdp_totals = [];
  rdp_complete = true;
}

abbrev pub charge_of : Num → Charge fixed
charge_of epsilon = record {
  cost = record { epsilon = epsilon; delta = fixed.decimal 0 0 };
  rdp_cost = none;
  purpose = "test";
  subject = "s";
  ledger = none;
  id = "e1";
  ts = fixed.decimal 0 0;
}

abbrev small : Charge fixed
small = charge_of (fixed.of_int (pos 4))

abbrev large : Charge fixed
large = charge_of (fixed.of_int (pos 7))

preview-charge_example :
    foretold (preview fixed fresh large.cost large.rdp_cost) ≡ admitted (charge fixed fresh large)
unfolding ◌+ℤ◌ ◌*ℤ◌
preview-charge_example =
    preview-charge fixed fixed-OrderLaws fresh large
      (record { limit_epsilon = refl; spent_epsilon = refl; converted = λ costs e same h. cc })

charge_all-IsBalanced_example :
    IsBalanced fixed (budget_of 10) (budget_of 0) (charge_all fixed fresh (small ∷ large ∷ []))
unfolding spent_after ◌+ℤ◌ ◌*ℤ◌
charge_all-IsBalanced_example =
    charge_all-IsBalanced fixed (budget_of 10) (budget_of 0) (small ∷ large ∷ []) fresh
      (record { same_limit = refl; reconciled = refl; delta_within = λ h. refl })

charge-nan_example :
    (b : PrivacyAccountant fixed) × (e : Event fixed) × (charge fixed fresh (charge_of Num.nan)
      ≡ ok (b, e))
    × (b.spent.epsilon ≡ Num.nan)
unfolding ◌+ℤ◌
charge-nan_example =
    charge-nan fixed Num.nan fixed-NanLaws fresh (charge_of Num.nan) refl tt
      (record { cost_delta = refl; sum_delta = refl; within = refl })

-- Vectors and orders kept as they are.
abbrev pub plain : Formats fixed
plain = record {
  Blob = List Num;
  to_bytes = λ v. v;
  from_bytes = λ b. b;
  OrderText = ℕ;
  show_order = λ a. a;
  read_order = λ t. t;
}

abbrev pub charged : PrivacyAccountant fixed
charged = record fresh {
  spent = budget_of 4;
  rdp_totals = (150, fixed.of_int (pos 1)) ∷ (200, fixed.of_int (pos 2)) ∷ [];
}

decode_budget-encode_budget_example :
    decode_budget fixed plain (encode_budget fixed plain charged) ≡ ok charged
unfolding ◌*ℤ◌
decode_budget-encode_budget_example =
    decode_budget-encode_budget fixed plain (λ a. refl) charged refl refl
