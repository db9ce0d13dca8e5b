-- ===== src/Crypto/SecretSharing/Sharing.antt =====
-- A dict of shares stands for the vector that its nodes' shares sum to, and `reconstruct` opens it.
use native.Mathlib.Nat.{add-mod-mod}
use sentry_link.Base.{
  ℕ, zero, suc, ◌+◌, ◌%◌, ◌<◌, String, text_eq, nat_eq, nat_beq_iff, false, not, List, [], ◌∷◌, map,
  any, length, replicate, All, ◌≡◌, refl, sym, ap, ap₂, ◌∙◌, some, arith, ◌==◌,
}
use sentry_link.Base.Dict.{Dict, lookup}
use sentry_link.Errors.{Failure, Result, ok, ◌>>=◌, or_raise}
use sentry_link.Config.{field_p}
use sentry_link.Modular.{zip_with, vadd}
use sentry_link.Modular.Group
use sentry_link.Modular.Vector.{IsVec, vneg, vector_group}
use sentry_link.Crypto.SecretSharing.{Share, column_sums, reconstruct}

-- `[shares[n] for n in node_ids]`
unfoldable pub gather : List String → Dict String Share → Result (List Share)
gather [] d = ok []
gather (node ∷ nodes) d = do
  s ← or_raise (lookup node d) Failure.key_error
  rest ← gather nodes d
  ok (s ∷ rest)

pub field_p-pos : 0 < field_p
field_p-pos = omega arith

abbrev pub field_group :
    (n : ℕ)
    → Group.GroupLaws (List ℕ) (IsVec field_p n) (vadd field_p) (vneg field_p) (replicate n 0)
field_group = vector_group field_p field_p-pos

-- The componentwise sum mod FIELD_P of one vector for each item.
abbrev pub field_sum : (n : ℕ) {A : Type 0} → (A → List ℕ) → List A → List ℕ
field_sum n f xs = Group.sum (field_group n) f xs

abbrev pub share : (String → List ℕ) → String → Share
share f j = record { node_id = j; values = f j }

pub record IsSharing (nodes : List String) (n : ℕ) (d : Dict String Share) (v : List ℕ)
    : Type 0 where
  pub share_of : String → List ℕ
  pub vec : (j : String) → IsVec field_p n (share_of j)
  pub held : All (λ j. lookup j d ≡ some (share share_of j)) nodes
  pub total : field_sum n share_of nodes ≡ v

gather-held :
    (f : String → List ℕ) (nodes : List String) (d : Dict String Share)
    → All (λ j. lookup j d ≡ some (share f j)) nodes
    → gather nodes d ≡ ok (map (share f) nodes)
unfolding gather
gather-held f [] d h = refl
gather-held f (j ∷ nodes) d h = rw (h.0, gather-held f nodes d h.1)

pub map_mod-zip_with :
    (u w : List ℕ)
    → map (λ t. t % field_p) (zip_with (λ a b. a + b) u w)
      ≡ vadd field_p u (map (λ t. t % field_p) w)
unfolding vadd
map_mod-zip_with (x ∷ u) (y ∷ w) = ap₂ ◌∷◌ (sym (add-mod-mod x y field_p)) (map_mod-zip_with u w)
map_mod-zip_with (x ∷ u) [] = refl
map_mod-zip_with [] w = refl

pub map_mod-zeros : (n : ℕ) → map (λ t. t % field_p) (replicate n 0) ≡ replicate n 0
map_mod-zeros zero = refl
map_mod-zeros (suc n) = ap₂ ◌∷◌ refl (map_mod-zeros n)

column_sums-mod :
    (n : ℕ) (f : String → List ℕ) (nodes : List String)
    → map (λ t. t % field_p) (column_sums n (map (share f) nodes)) ≡ field_sum n f nodes
unfolding column_sums
column_sums-mod n f [] = map_mod-zeros n
column_sums-mod n f (j ∷ nodes) =
    map_mod-zip_with (f j) (column_sums n (map (share f) nodes))
    ∙ ap (vadd field_p (f j)) (column_sums-mod n f nodes)

same_length :
    (n : ℕ) (f : String → List ℕ) (nodes : List String)
    → ((j : String) → length (f j) ≡ n)
    → any (λ t. not (length t.values == n)) (map (share f) nodes) ≡ false
same_length n f [] h = refl
same_length n f (j ∷ nodes) h =
    ground (arith, nat_beq_iff (length (f j)) n, h j, same_length n f nodes h)

reconstruct-first :
    (f : String → List ℕ) (j : String) (nodes : List String)
    → ((i : String) → length (f i) ≡ length (f j))
    → reconstruct (map (share f) (j ∷ nodes)) ≡ ok (field_sum (length (f j)) f (j ∷ nodes))
unfolding reconstruct
reconstruct-first f j nodes h =
    rw (same_length (length (f j)) f (j ∷ nodes) h)
      (ap ok (column_sums-mod (length (f j)) f (j ∷ nodes)))

-- Gathering the nodes' shares and reconstructing opens the vector that they share.
pub reconstruct-IsSharing :
    (j : String) (nodes : List String) (n : ℕ) (d : Dict String Share) (v : List ℕ)
    → IsSharing (j ∷ nodes) n d v
    → (gather (j ∷ nodes) d >>= reconstruct) ≡ ok v
reconstruct-IsSharing j nodes n d v h =
    let f = h.share_of in
    let size = λ (i : String). (h.vec i).size in
    rw (gather-held f (j ∷ nodes) d h.held) (
      reconstruct-first f j nodes (λ i. size i ∙ sym (size j))
      ∙ ap (λ k. ok (field_sum k f (j ∷ nodes))) (size j)
      ∙ ap ok h.total)
