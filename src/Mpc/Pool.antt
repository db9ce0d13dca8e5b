-- ===== src/Mpc/Pool.antt =====
-- What the shared totals open to.
use sentry_link.Base.{
  ℕ, suc, String, text_eq, nat_eq, beq_refl, List, [], ◌∷◌, map, All, distinct, true, some, none,
  ◌≡◌, refl, sym, ap, ap₂, subst, ◌∙◌, ◌<◌,
}
use sentry_link.Base.Int.{ℤ, pos}
use sentry_link.Base.Dict.{Dict, lookup, insert, lookup-insert_self, lookup-insert_agree}
use sentry_link.Errors.{Result, ok, ◌>>=◌, >>=_assoc}
use sentry_link.Config.{field_p}
use sentry_link.Modular.{vadd}
use sentry_link.Modular.Group
use sentry_link.Modular.Vector.{IsVec, vadd-IsVec, vadd_assoc}
use sentry_link.Crypto.SecretSharing.{Share, share_add, share_vector}
use sentry_link.Crypto.SecretSharing.Sharing.{
  IsSharing, share, field_sum, field_group, field_p-pos, reconstruct-IsSharing,
}
use sentry_link.Crypto.SecretSharing.Split.{share_vector-IsSharing}
use sentry_link.Mpc.{add_loop, elementwise_add, accumulate, share_rows, open_total}

module _ (n : ℕ) (f g : String → List ℕ) (fv : (j : String) → IsVec field_p n (f j))
    (gv : (j : String) → IsVec field_p n (g j)) where
  abbrev both : String → List ℕ
  both j = vadd field_p (f j) (g j)

  share_add-share : (j : String) → share_add (share f j) (share g j) ≡ ok (share both j)
  unfolding share_add
  share_add-share j = rw (beq_refl j, (fv j).size, (gv j).size, beq_refl n)

  Kept : List String → Dict String Share → Dict String Share → Type 0
  Kept nodes d d' =
      All (λ j. lookup j d' ≡ some (share both j)) nodes
      × ((j : String) → lookup j d ≡ some (share both j) → lookup j d' ≡ some (share both j))

  add_loop-Kept :
      (x y : Dict String Share) (nodes : List String) (d : Dict String Share)
      → All (λ j. lookup j x ≡ some (share f j)) nodes
      → All (λ j. lookup j y ≡ some (share g j)) nodes
      → (d' : Dict String Share) × (add_loop x y nodes d ≡ ok d') × Kept nodes d d'
  unfolding add_loop Kept
  add_loop-Kept x y [] d hx hy = (d, refl, (tt, λ j h. h))
  add_loop-Kept x y (node ∷ nodes) d hx hy =
      let (d', made, kept) = add_loop-Kept x y nodes (insert node (share both node) d) hx.1 hy.1 in
      (
        d',
        rw (hx.0, hy.0) (rw (share_add-share node) made),
        (
          (kept.1 node (lookup-insert_self node _ d), kept.0),
          λ j h. kept.1 j (lookup-insert_agree (share both) node j d h),
        ),
      )

module _ (n : ℕ) (nodes : List String) where
  open field_group n use {assoc, comm, zero_left}

  -- Adding two shared vectors node by node shares their sum.
  pub elementwise_add-IsSharing :
      {x y : Dict String Share} {u w : List ℕ}
      → IsSharing nodes n x u
      → IsSharing nodes n y w
      → (d : Dict String Share) × (elementwise_add x y nodes ≡ ok d)
        × IsSharing nodes n d (vadd field_p u w)
  unfolding elementwise_add
  elementwise_add-IsSharing {x} {y} hx hy =
      let f = hx.share_of in
      let g = hy.share_of in
      let (d, made, kept) = add_loop-Kept n f g hx.vec hy.vec x y nodes [] hx.held hy.held in
      (
        d,
        made,
        record {
          share_of = λ j. vadd field_p (f j) (g j);
          vec = λ j. vadd-IsVec field_p field_p-pos n (f j) (g j) (hx.vec j) (hy.vec j);
          held = (unfold Kept in kept.0);
          total = Group.sum-add (field_group n) f g nodes ∙ ap₂ (vadd field_p) hx.total hy.total;
        },
      )

  total-IsVec : {d : Dict String Share} {u : List ℕ} → IsSharing nodes n d u → IsVec field_p n u
  total-IsVec h =
      subst (IsVec field_p n) h.total (Group.sum-vec (field_group n) h.share_of h.vec nodes)

module _ (tapes : ℕ → ℕ → ℕ) (below : (k i : ℕ) → tapes k i < field_p) (n₁ n₂ : String)
    (more : List String) (apart : distinct (n₁ ∷ n₂ ∷ more) ≡ true) (n : ℕ) {A : Type 0}
    (row : A → Result (List ℤ)) (v : A → List ℕ) where
  abbrev all_nodes : List String
  all_nodes = n₁ ∷ n₂ ∷ more

  -- An organization whose row reduces to the vector `v`.
  abbrev pub IsRow : A → Type 0
  IsRow org = (row org ≡ ok (map pos (v org))) × IsVec field_p n (v org)

  share-IsSharing :
      (k : ℕ) (org : A)
      → IsVec field_p n (v org)
      → (d : Dict String Share) × (share_vector (tapes k) (map pos (v org)) all_nodes ≡ ok d)
        × IsSharing all_nodes n d (v org)
  share-IsSharing k org h =
      let (d, made, s) =
        share_vector-IsSharing (tapes k) (below k) (v org) n₁ n₂ more apart h.reduced in
      (d, made, subst (λ m. IsSharing all_nodes m d (v org)) h.size s)

  share_rows-some :
      (k : ℕ) (acc : Dict String Share) (u : List ℕ) (orgs : List A)
      → IsSharing all_nodes n acc u
      → All IsRow orgs
      → (d : Dict String Share) × (share_rows tapes row all_nodes k (some acc) orgs ≡ ok (some d))
        × IsSharing all_nodes n d (vadd field_p u (field_sum n v orgs))
  unfolding share_rows accumulate
  share_rows-some k acc u [] ha ho =
      let g = field_group n in
      let uv = total-IsVec n all_nodes ha in
      (acc, refl, subst (IsSharing all_nodes n acc) (sym (g.comm u _ ∙ g.zero_left u uv)) ha)
  share_rows-some k acc u (org ∷ orgs) ha ho =
      let (sh, made, hs) = share-IsSharing k org ho.0.1 in
      let (acc', added, ha') = elementwise_add-IsSharing n all_nodes ha hs in
      let (d, done, hd) = share_rows-some (suc k) acc' (vadd field_p u (v org)) orgs ha' ho.1 in
      (
        d,
        rw ho.0.0 (rw made (rw added done)),
        subst (IsSharing all_nodes n d) (vadd_assoc field_p u (v org) (field_sum n v orgs)) hd,
      )

  open_rows :
      (org : A) (orgs : List A)
      → All IsRow (org ∷ orgs)
      → (share_rows tapes row all_nodes 0 none (org ∷ orgs) >>= open_total all_nodes)
        ≡ ok (field_sum n v (org ∷ orgs))
  unfolding share_rows accumulate open_total
  open_rows org orgs ho =
      let (sh, made, hs) = share-IsSharing 0 org ho.0.1 in
      let (d, done, hd) = share_rows-some 1 sh (v org) orgs hs ho.1 in
      rw ho.0.0 (
        rw made
          (rw done (reconstruct-IsSharing n₁ (n₂ ∷ more) n d (field_sum n v (org ∷ orgs)) hd)))

  -- With at least one organization, the loop and the opening go on with the sum of the rows.
  pub share_rows-open_total :
      {B : Type 0} (f : List ℕ → Result B) (org : A) (orgs : List A)
      → All IsRow (org ∷ orgs)
      → (share_rows tapes row all_nodes 0 none (org ∷ orgs) >>= λ acc.
          open_total all_nodes acc >>= f)
        ≡ f (field_sum n v (org ∷ orgs))
  share_rows-open_total f org orgs ho =
      sym (>>=_assoc (share_rows tapes row all_nodes 0 none (org ∷ orgs)) (open_total all_nodes) f)
      ∙ ap (λ m. m >>= f) (open_rows org orgs ho)
