-- ===== src/Crypto/SecretSharing/Split.antt =====
-- `share_vector` splits a vector into shares that reconstruct it.
use sentry_link.Base.{
  ℕ, zero, suc, ◌+◌, ◌<◌, String, text_eq, true, false, List, [], ◌∷◌, map, length, replicate, All,
  mem, mem-cons_false, beq-false, distinct, distinct-cons, beq_refl, if◌then◌else◌, ltb, lt→ltb,
  ◌≡◌, refl, sym, ap, ◌∙◌, some, arith, ◌==◌, Bool-cases, inl, inr,
}
use sentry_link.Base.Int.{pos}
use sentry_link.Base.Dict.{Dict, lookup, insert, lookup-insert_self, lookup-insert_ne}
use sentry_link.Errors.{ok, ◌>>=◌}
use sentry_link.Config.{field_p}
use sentry_link.Modular.{vadd, vsub}
use sentry_link.Modular.Group
use sentry_link.Modular.Vector.{IsVec, vadd_assoc, vsub-neg, vsub-IsVec, vadd-IsVec, zeros-IsVec}
use sentry_link.Crypto.SecretSharing.{Share, draws, share_loop, share_vector, as_ints, reconstruct}
use sentry_link.Crypto.SecretSharing.Sharing.{
  IsSharing, share, field_sum, field_group, field_p-pos, gather, reconstruct-IsSharing,
}

-- `f`, but `v` at one node.
abbrev patch : (String → List ℕ) → String → List ℕ → String → List ℕ
patch f node v j = if j == node then v else f j

patch-held :
    (f : String → List ℕ) (node : String) (v : List ℕ) (d : Dict String Share) (nodes : List String)
    → mem node nodes ≡ false
    → All (λ j. lookup j d ≡ some (share f j)) nodes
    → All (λ j. lookup j d ≡ some (share (patch f node v) j)) nodes
patch-held f node v d [] away h = tt
patch-held f node v d (j ∷ nodes) away h =
    let (apart, rest) = mem-cons_false node j nodes away in
    (rw (beq-false j node (λ e. apart (sym e))) h.0, patch-held f node v d nodes rest h.1)

patch-sum :
    (n : ℕ) (f : String → List ℕ) (node : String) (v : List ℕ) (nodes : List String)
    → mem node nodes ≡ false
    → field_sum n (patch f node v) nodes ≡ field_sum n f nodes
patch-sum n f node v [] away = refl
patch-sum n f node v (j ∷ nodes) away =
    let (apart, rest) = mem-cons_false node j nodes away in
    rw (beq-false j node (λ e. apart (sym e)))
      (ap (vadd field_p (f j)) (patch-sum n f node v nodes rest))

patch-IsVec :
    (n : ℕ) (f : String → List ℕ) (node : String) (v : List ℕ)
    → ((j : String) → IsVec field_p n (f j))
    → IsVec field_p n v
    → (j : String) → IsVec field_p n (patch f node v j)
patch-IsVec n f node v hf hv j = elim (Bool-cases (j == node)) [
  | inl e ↦ rw e hv
  | inr e ↦ rw e (hf j)
]

as_ints-pos :
    (values : List ℕ) → All (λ x. x < field_p) values → as_ints (map pos values) ≡ ok values
unfolding as_ints
as_ints-pos [] h = refl
as_ints-pos (x ∷ values) h = rw (lt→ltb x field_p h.0, as_ints-pos values h.1)

two_or_more : (nodes : List String) → ltb (suc (suc (length nodes))) 2 ≡ false
two_or_more nodes = ground arith

module _ (tape : ℕ → ℕ) (below : (k : ℕ) → tape k < field_p) where
  length-draws : (k n : ℕ) → length (draws tape k n) ≡ n
  unfolding draws
  length-draws k zero = refl
  length-draws k (suc n) = ap suc (length-draws (suc k) n)

  draws-All : (k n : ℕ) → All (λ x. x < field_p) (draws tape k n)
  unfolding draws
  draws-All k zero = tt
  draws-All k (suc n) = (below k, draws-All (suc k) n)

  draws-IsVec : (k n : ℕ) → IsVec field_p n (draws tape k n)
  draws-IsVec k n = record { size = length-draws k n; reduced = draws-All k n }

  -- What the loop leaves in the dict: the shares of its nodes, which with `acc` sum to `ints`, and
  -- every other entry as it was.
  record Splits (n : ℕ) (ints acc : List ℕ) (nodes : List String) (before after : Dict String Share)
      : Type 0 where
    share_of : String → List ℕ
    vec : (j : String) → IsVec field_p n (share_of j)
    held : All (λ j. lookup j after ≡ some (share share_of j)) nodes
    total : vadd field_p acc (field_sum n share_of nodes) ≡ ints
    others : (j : String) → mem j nodes ≡ false → lookup j after ≡ lookup j before

  share_loop-Splits :
      (k : ℕ) (ints : List ℕ) (node : String) (nodes : List String) (acc : List ℕ)
      (d : Dict String Share)
      → distinct (node ∷ nodes) ≡ true
      → IsVec field_p (length ints) ints
      → IsVec field_p (length ints) acc
      → Splits (length ints) ints acc (node ∷ nodes) d (share_loop tape k ints (node ∷ nodes) acc d)
  unfolding share_loop
  share_loop-Splits k ints last [] acc d apart hi ha = record {
    share_of = λ j. vsub field_p ints acc;
    vec = λ j. vsub-IsVec field_p field_p-pos (length ints) ints acc hi ha;
    held = (lookup-insert_self last _ d, tt);
    total =
        ap (λ t. vadd field_p acc (vadd field_p t (replicate (length ints) 0)))
          (vsub-neg field_p ints acc)
        ∙ Group.add_back (field_group (length ints)) acc ints ha hi;
    others = λ j h. lookup-insert_ne last j _ d (λ e. (mem-cons_false j last [] h).0 e);
  }
  share_loop-Splits k ints node (next ∷ nodes) acc d apart hi ha =
      let n = length ints in
      let vals = draws tape k n in
      let vv = draws-IsVec k n in
      let (away, apart') = distinct-cons node (next ∷ nodes) apart in
      let d' = insert node (record { node_id = node; values = vals }) d in
      let acc' = vadd field_p acc vals in
      let rest =
        share_loop-Splits (k + n) ints next nodes acc' d' apart' hi
          (vadd-IsVec field_p field_p-pos n acc vals ha vv) in
      let f = rest.share_of in
      let after = share_loop tape (k + n) ints (next ∷ nodes) acc' d' in
      record {
        share_of = patch f node vals;
        vec = patch-IsVec n f node vals rest.vec vv;
        held = (
          rw (beq_refl node) (rest.others node away ∙ lookup-insert_self node _ d),
          patch-held f node vals after (next ∷ nodes) away rest.held,
        );
        total = rw (beq_refl node) (
            ap (λ t. vadd field_p acc (vadd field_p vals t))
              (patch-sum n f node vals (next ∷ nodes) away)
            ∙ sym (vadd_assoc field_p acc vals (field_sum n f (next ∷ nodes)))
            ∙ rest.total);
        others = λ j h.
            let (ne, out) = mem-cons_false j node (next ∷ nodes) h in
            rest.others j out ∙ lookup-insert_ne node j _ d ne;
      }

  -- The shares of `share_vector` stand for the values, when its nodes are at least two and differ.
  pub share_vector-IsSharing :
      (values : List ℕ) (n₁ n₂ : String) (nodes : List String)
      → distinct (n₁ ∷ n₂ ∷ nodes) ≡ true
      → All (λ x. x < field_p) values
      → (d : Dict String Share) × (share_vector tape (map pos values) (n₁ ∷ n₂ ∷ nodes) ≡ ok d)
        × IsSharing (n₁ ∷ n₂ ∷ nodes) (length values) d values
  unfolding share_vector
  share_vector-IsSharing values n₁ n₂ nodes apart hv =
      let n = length values in
      let ints : IsVec field_p n values = record { size = refl; reduced = hv } in
      let zeros = zeros-IsVec field_p field_p-pos n in
      let loop = share_loop-Splits 0 values n₁ (n₂ ∷ nodes) (replicate n 0) [] apart ints zeros in
      let d = share_loop tape 0 values (n₁ ∷ n₂ ∷ nodes) (replicate n 0) [] in
      (
        d,
        rw (two_or_more nodes) (rw (as_ints-pos values hv)),
        record {
          share_of = loop.share_of;
          vec = loop.vec;
          held = loop.held;
          total =
              sym (
                (field_group n).zero_left _
                  (Group.sum-vec (field_group n) loop.share_of loop.vec (n₁ ∷ n₂ ∷ nodes)))
              ∙ loop.total;
        },
      )

  -- Splitting field values over at least two different nodes, gathering the nodes' shares and
  -- reconstructing gives the values back, whatever the random draws below FIELD_P.
  pub reconstruct-share_vector :
      (values : List ℕ) (n₁ n₂ : String) (nodes : List String)
      → distinct (n₁ ∷ n₂ ∷ nodes) ≡ true
      → All (λ x. x < field_p) values
      → (share_vector tape (map pos values) (n₁ ∷ n₂ ∷ nodes) >>= λ d.
          gather (n₁ ∷ n₂ ∷ nodes) d >>= reconstruct)
        ≡ ok values
  reconstruct-share_vector values n₁ n₂ nodes apart hv =
      let (d, made, sharing) = share_vector-IsSharing values n₁ n₂ nodes apart hv in
      rw made (reconstruct-IsSharing n₁ (n₂ ∷ nodes) (length values) d values sharing)
