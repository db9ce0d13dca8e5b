-- ===== src/Crypto/SecureAggregation/Masks.antt =====
-- The pairwise masks of a round: both ends of a pair derive one seed, and their masks cancel.
use sentry_link.Base.{
  ℕ, ◌<◌, String, ◌==◌, text_eq, beq_refl, beq-false, text_lt, text_lt-swap, sorted_pair,
  sorted_pair_comm, true, some, Bool-cases, inl, inr, List, [], ◌∷◌, replicate, All, if◌then◌else◌,
  ◌≡◌, ◌≢◌, refl, sym, ap, subst, ◌∙◌, arith,
}
use sentry_link.Base.Dict.{Dict, lookup}
use sentry_link.Errors.{ok}
use sentry_link.Modular.{vadd}
use sentry_link.Modular.Group
use sentry_link.Modular.Vector.{
  IsVec, vneg, vneg-IsVec, vsub-neg, vadd-IsVec, vadd_assoc, zeros-IsVec, vector_group,
}
use sentry_link.Crypto.Prg.{Bytes, int_masks}
use sentry_link.Crypto.Prg.Bounds.{int_masks-IsVec}
use sentry_link.Crypto.SecureAggregation.{
  KeyAgreement, word_mod, SecAggClient, info_text, pairwise_seed, mask_step, mask_loop,
}

-- X25519: a key's own public bytes are accepted, and both ends of an exchange agree.
pub record KeyLaws (ka : KeyAgreement) : Type 0 where
  pub own_public : (k : ka.PrivateKey) → ka.is_public (ka.public_bytes k) ≡ true
  pub agree :
      (k l : ka.PrivateKey) → ka.exchange k (ka.public_bytes l) ≡ ka.exchange l (ka.public_bytes k)

pub word_mod-pos : 0 < word_mod
word_mod-pos = omega arith

abbrev pub word_group :
    (n : ℕ)
    → Group.GroupLaws (List ℕ) (IsVec word_mod n) (vadd word_mod) (vneg word_mod) (replicate n 0)
word_group = vector_group word_mod word_mod-pos

-- The int64 sum of one vector for each item.
abbrev pub word_sum : (n : ℕ) {A : Type 0} → (A → List ℕ) → List A → List ℕ
word_sum n f xs = Group.sum (word_group n) f xs

module _ (ka : KeyAgreement) (private : String → ka.PrivateKey) (round_id : String) (dim : ℕ) where
  unfoldable pub pair_seed : String × String → Bytes
  pair_seed (a, b) =
      ka.hkdf (ka.exchange (private a) (ka.public_bytes (private b))) (ka.sha256 round_id)
        (info_text (a, b))

  abbrev pub seed : String → String → Bytes
  seed i j = pair_seed (sorted_pair i j)

  unfoldable pub stream : String → String → List ℕ
  stream i j = int_masks ka.hmac (seed i j) dim

  -- What `i` adds for its peer `j`.
  unfoldable pub term : String → String → List ℕ
  term i j =
      if j == i
      then replicate dim 0
      else if text_lt i j
      then stream i j
      else vneg word_mod (stream i j)

  stream-IsVec : (i j : String) → IsVec word_mod dim (stream i j)
  unfolding stream
  stream-IsVec i j = int_masks-IsVec ka.hmac (seed i j) dim

  stream_comm : (i j : String) → i ≢ j → stream i j ≡ stream j i
  unfolding stream
  stream_comm i j h = ap (λ p. int_masks ka.hmac (pair_seed p) dim) (sorted_pair_comm i j h)

  pub term-IsVec : (i j : String) → IsVec word_mod dim (term i j)
  unfolding term
  term-IsVec i j = elim (Bool-cases (j == i)) [
    | inl e ↦ rw e (zeros-IsVec word_mod word_mod-pos dim)
    | inr e ↦ elim (Bool-cases (text_lt i j)) [
      | inl f ↦ rw (e, f) (stream-IsVec i j)
      | inr f ↦ rw (e, f) (vneg-IsVec word_mod word_mod-pos dim (stream i j) (stream-IsVec i j))
    ]
  ]

  pub term-diag : (i : String) → term i i ≡ replicate dim 0
  unfolding term
  term-diag i = rw (beq_refl i)

  open word_group dim use {comm, zero_left, neg_right, zero_vec}

  term-anti_ne : (i j : String) → i ≢ j → vadd word_mod (term i j) (term j i) ≡ replicate dim 0
  unfolding term
  term-anti_ne i j h = elim (Bool-cases (text_lt i j)) [
    | inl f ↦
        rw (beq-false j i (λ e. h (sym e)), beq-false i j h, text_lt-swap i j h, f)
          (ap (λ s. vadd word_mod (stream i j) (vneg word_mod s)) (sym (stream_comm i j h))
            ∙ neg_right (stream i j) (stream-IsVec i j))
    | inr f ↦
        rw (beq-false j i (λ e. h (sym e)), beq-false i j h, text_lt-swap i j h, f)
          (comm (vneg word_mod (stream i j)) (stream j i)
            ∙ ap (λ s. vadd word_mod (stream j i) (vneg word_mod s)) (stream_comm i j h)
            ∙ neg_right (stream j i) (stream-IsVec j i))
  ]

  pub term-anti : (i j : String) → vadd word_mod (term i j) (term j i) ≡ replicate dim 0
  term-anti i j = elim (Bool-cases (i == j)) [
    | inl e ↦
        let p = (text_eq.beq_iff i j).0 e in
        subst (λ k. vadd word_mod (term i k) (term k i) ≡ replicate dim 0) p
          (ap (λ t. vadd word_mod t t) (term-diag i) ∙ zero_left (replicate dim 0) zero_vec)
    | inr e ↦ term-anti_ne i j (λ p. cc ((text_eq.beq_iff i j).1 p))
  ]

  module _ (laws : KeyLaws ka) where
    pub pairwise_seed-seed :
        (i j : String)
        → pairwise_seed ka (private i) (ka.public_bytes (private j)) round_id i j ≡ ok (seed i j)
    unfolding pairwise_seed pair_seed
    pairwise_seed-seed i j = elim (Bool-cases (text_lt j i)) [
      | inl e ↦ rw (laws.own_public (private j), e, laws.agree (private i) (private j))
      | inr e ↦ rw (laws.own_public (private j), e)
    ]

    -- The client of `i` in this round.
    abbrev pub client_of : List String → String → SecAggClient ka
    client_of roster i = record {
      org_id = i;
      round_id = round_id;
      roster = roster;
      dim = dim;
      private_key = private i;
    }

    mask_step-term :
        (roster : List String) (d : Dict String Bytes) (i j : String) (mask : List ℕ)
        → lookup j d ≡ some (ka.public_bytes (private j))
        → IsVec word_mod dim mask
        → mask_step ka (client_of roster i) d j mask ≡ ok (vadd word_mod mask (term i j))
    unfolding mask_step term
    mask_step-term roster d i j mask known hm = elim (Bool-cases (j == i)) [
      | inl e ↦ rw e (ap ok (sym (comm mask (replicate dim 0) ∙ zero_left mask hm)))
      | inr e ↦ elim (Bool-cases (text_lt i j)) [
        | inl f ↦ rw (e, known) (rw (pairwise_seed-seed i j) (rw f (unfold stream in refl)))
        | inr f ↦
            rw (e, known)
              (rw (pairwise_seed-seed i j)
                (rw f (unfold stream in ap ok (vsub-neg word_mod mask _))))
      ]
    ]

    -- The loop of `mask_and_send` adds up the terms of the peers.
    pub mask_loop-term :
        (roster : List String) (d : Dict String Bytes) (i : String) (peers : List String)
        (mask : List ℕ)
        → All (λ j. lookup j d ≡ some (ka.public_bytes (private j))) peers
        → IsVec word_mod dim mask
        → mask_loop ka (client_of roster i) d peers mask
          ≡ ok (vadd word_mod mask (word_sum dim (term i) peers))
    unfolding mask_loop
    mask_loop-term roster d i [] mask known hm =
        ap ok (sym (comm mask (replicate dim 0) ∙ zero_left mask hm))
    mask_loop-term roster d i (j ∷ peers) mask known hm =
        rw (mask_step-term roster d i j mask known.0 hm) (
          mask_loop-term roster d i peers (vadd word_mod mask (term i j)) known.1
            (vadd-IsVec word_mod word_mod-pos dim mask (term i j) hm (term-IsVec i j))
          ∙ ap ok (vadd_assoc word_mod mask (term i j) (word_sum dim (term i) peers)))
