-- ===== src/Crypto/SecureAggregation/Unmask.antt =====
-- The server's side: what `finalize` returns for the contributions and seeds of a round.
use sentry_link.Base.{
  ℕ, String, ◌==◌, text_eq, nat_eq, pair_eq, mem, filter, filter-not-mem, All-mem, text_lt,
  sorted_pair, Bool, false, not, some, Bool-cases, inl, inr, List, [], ◌∷◌, map, length, replicate,
  All, fun_ext, subst, ◌≡◌, refl, sym, ap, ◌∙◌, arith,
}
use sentry_link.Base.Dict.{Dict, lookup, keys, values}
use sentry_link.Errors.{ok}
use sentry_link.Floats.{Floats}
use sentry_link.Modular.{vadd, vsub}
use sentry_link.Modular.Group
use sentry_link.Modular.Vector.{IsVec, vsub-neg, vadd-IsVec, vadd_assoc, zeros-IsVec}
use sentry_link.Crypto.Prg.{Bytes}
use sentry_link.Crypto.SecureAggregation.{
  KeyAgreement, word_mod, Contribution, SecAggServer, residual_step, residual_inner, residual_loop,
  total_loop, finalize, dequantize,
}
use sentry_link.Crypto.SecureAggregation.Masks.{
  word_group, word_sum, word_mod-pos, seed, stream, term, term-IsVec, term-anti, term-diag,
}

module _ (ka : KeyAgreement) (private : String → ka.PrivateKey) (round_id : String) (dim : ℕ) where
  abbrev terms : String → String → List ℕ
  terms = term ka private round_id dim

  open word_group dim use {comm, zero_left}

  -- The server knows the seed of a pair of different organizations.
  abbrev pub Knows : Dict (String × String) Bytes → String → String → Type 0
  Knows seeds i j =
      (lookup (sorted_pair i j) seeds ≡ some (seed ka private round_id dim i j))
      × ((j == i) ≡ false)

  module _ (server : SecAggServer) (same_dim : server.dim ≡ dim) where
    residual_step-term :
        (i j : String) (residual : List ℕ)
        → Knows server.revealed_seeds i j
        → residual_step ka server i j residual ≡ ok (vadd word_mod residual (terms i j))
    unfolding residual_step term stream
    residual_step-term i j residual (known, ne) = elim (Bool-cases (text_lt i j)) [
      | inl f ↦ rw (known, same_dim, ne, f)
      | inr f ↦ rw (known, same_dim, ne, f) (ap ok (vsub-neg word_mod residual _))
    ]

    residual_inner-term :
        (i : String) (dropped : List String) (residual : List ℕ)
        → All (Knows server.revealed_seeds i) dropped
        → IsVec word_mod dim residual
        → residual_inner ka server i dropped residual
          ≡ ok (vadd word_mod residual (word_sum dim (terms i) dropped))
    unfolding residual_inner
    residual_inner-term i [] residual known h =
        ap ok (sym (comm residual (replicate dim 0) ∙ zero_left residual h))
    residual_inner-term i (j ∷ dropped) residual known h =
        rw (residual_step-term i j residual known.0) (
          residual_inner-term i dropped (vadd word_mod residual (terms i j)) known.1 (
            vadd-IsVec word_mod word_mod-pos dim residual (terms i j) h
              (term-IsVec ka private round_id dim i j))
          ∙ ap ok (vadd_assoc word_mod residual (terms i j) (word_sum dim (terms i) dropped)))

    inner-IsVec : (i : String) (xs : List String) → IsVec word_mod dim (word_sum dim (terms i) xs)
    inner-IsVec i xs =
        Group.sum-vec (word_group dim) (terms i) (term-IsVec ka private round_id dim i) xs

    residual_loop-term :
        (received dropped : List String) (residual : List ℕ)
        → All (λ i. All (Knows server.revealed_seeds i) dropped) received
        → IsVec word_mod dim residual
        → residual_loop ka server received dropped residual
          ≡ ok
              (vadd word_mod residual (word_sum dim (λ i. word_sum dim (terms i) dropped) received))
    unfolding residual_loop
    residual_loop-term [] dropped residual known h =
        ap ok (sym (comm residual (replicate dim 0) ∙ zero_left residual h))
    residual_loop-term (i ∷ received) dropped residual known h =
        let inner = word_sum dim (terms i) dropped in
        rw (residual_inner-term i dropped residual known.0 h) (
          residual_loop-term received dropped (vadd word_mod residual inner) known.1
            (vadd-IsVec word_mod word_mod-pos dim residual inner h (inner-IsVec i dropped))
          ∙ ap ok (vadd_assoc word_mod residual inner _))

  abbrev pub entries : (String → Contribution) → List String → Dict String Contribution
  entries c = map (λ i. (i, c i))

  some_entries :
      (c : String → Contribution) (first : String) (others xs : List String)
      → xs ≡ first ∷ others
      → (length (entries c xs) == 0) ≡ false
  some_entries c first others [] e = cc
  some_entries c first others (x ∷ xs) e = ground arith

  total_loop-sum :
      (c : String → Contribution) (xs : List String) (total : List ℕ)
      → ((i : String) → IsVec word_mod dim (c i).masked_update)
      → IsVec word_mod dim total
      → total_loop (values (entries c xs)) total
        ≡ vadd word_mod total (word_sum dim (λ i. (c i).masked_update) xs)
  unfolding total_loop
  total_loop-sum c [] total cv h = sym (comm total (replicate dim 0) ∙ zero_left total h)
  total_loop-sum c (i ∷ xs) total cv h =
      total_loop-sum c xs (vadd word_mod total (c i).masked_update) cv
        (vadd-IsVec word_mod word_mod-pos dim total (c i).masked_update h (cv i))
      ∙ vadd_assoc word_mod total (c i).masked_update _

  keys-entries : (c : String → Contribution) (xs : List String) → keys (entries c xs) ≡ xs
  keys-entries c [] = refl
  keys-entries c (i ∷ xs) = ap (◌∷◌ i) (keys-entries c xs)

  -- What the server holds when the active clients of a roster have sent their masked values and
  -- have revealed their seeds with the others.
  pub record Collected (q : String → List ℕ) (p : String → Bool) (first : String)
      (others : List String) (server : SecAggServer) : Type 0 where
    pub contribution : String → Contribution
    pub same_dim : server.dim ≡ dim
    pub active : filter p server.roster ≡ first ∷ others
    pub received : server.contributions ≡ entries contribution (filter p server.roster)
    pub masked :
        (i : String)
        → (contribution i).masked_update
          ≡ vadd word_mod (q i) (word_sum dim (terms i) server.roster)
    pub revealed :
        All
          (λ i. All (Knows server.revealed_seeds i) (filter (λ j. not (p j)) server.roster))
          (filter p server.roster)

  module _ (q : String → List ℕ) (p : String → Bool) {first : String} {others : List String}
      (server : SecAggServer) (qv : (i : String) → IsVec word_mod dim (q i))
      (h : Collected q p first others server) where
    abbrev active_ids : List String
    active_ids = filter p server.roster

    abbrev dropped_ids : List String
    dropped_ids = filter (λ i. not (p i)) server.roster

    abbrev sent : String → List ℕ
    sent i = vadd word_mod (q i) (word_sum dim (terms i) server.roster)

    abbrev residual_sum : List ℕ
    residual_sum = word_sum dim (λ i. word_sum dim (terms i) dropped_ids) active_ids

    sent-IsVec : (i : String) → IsVec word_mod dim (sent i)
    sent-IsVec i =
        vadd-IsVec word_mod word_mod-pos dim (q i) _ (qv i)
          (inner-IsVec server h.same_dim i server.roster)

    received-active : keys server.contributions ≡ active_ids
    received-active = ap keys h.received ∙ keys-entries h.contribution active_ids

    dropped-eq : filter (λ i. not (mem i (keys server.contributions))) server.roster ≡ dropped_ids
    dropped-eq =
        ap (λ r. filter (λ i. not (mem i r)) server.roster) received-active
        ∙ filter-not-mem p server.roster server.roster (All-mem server.roster)

    zeros-eq : replicate {A = ℕ} server.dim 0 ≡ replicate {A = ℕ} dim 0
    zeros-eq = ap (λ d. replicate {A = ℕ} d 0) h.same_dim

    zeros : IsVec word_mod dim (replicate dim 0)
    zeros = zeros-IsVec word_mod word_mod-pos dim

    residual-eq :
        residual_loop ka server
          (keys server.contributions)
          (filter (λ i. not (mem i (keys server.contributions))) server.roster)
          (replicate server.dim 0)
        ≡ ok residual_sum
    residual-eq =
        (λ i. residual_loop ka server (received-active i) (dropped-eq i) (zeros-eq i))
        ∙ residual_loop-term server h.same_dim active_ids dropped_ids (replicate dim 0) h.revealed
            zeros
        ∙ ap ok (
            zero_left residual_sum (
              Group.sum-vec (word_group dim) (λ i. word_sum dim (terms i) dropped_ids)
                (λ i. inner-IsVec server h.same_dim i dropped_ids) active_ids))

    total-eq :
        total_loop (values server.contributions) (replicate server.dim 0)
        ≡ word_sum dim sent active_ids
    total-eq =
        (λ i. total_loop (values (h.received i)) (zeros-eq i))
        ∙ total_loop-sum h.contribution active_ids (replicate dim 0)
            (λ i. subst (IsVec word_mod dim) (sym (h.masked i)) (sent-IsVec i)) zeros
        ∙ ap (λ f. vadd word_mod (replicate dim 0) (word_sum dim f active_ids)) (fun_ext h.masked)
        ∙ zero_left (word_sum dim sent active_ids)
            (Group.sum-vec (word_group dim) sent sent-IsVec active_ids)

    some_contribution : (length server.contributions == 0) ≡ false
    some_contribution =
        ap (λ c. length c == 0) h.received
        ∙ some_entries h.contribution first others active_ids h.active

    -- The masks cancel: `finalize` returns the dequantized sum of the active clients' values.
    pub finalize-Collected :
        (fl : Floats) → finalize ka fl server ≡ ok (dequantize fl (word_sum dim q active_ids))
    unfolding finalize
    finalize-Collected fl = rw some_contribution (
        rw residual-eq (
          ap (λ t. ok (dequantize fl (vsub word_mod t residual_sum))) total-eq
          ∙ ap (λ t. ok (dequantize fl t))
              (vsub-neg word_mod (word_sum dim sent active_ids) residual_sum
                ∙ Group.masked_sum (word_group dim) q terms p server.roster qv
                    (term-IsVec ka private round_id dim) (term-anti ka private round_id dim)
                    (term-diag ka private round_id dim))))
