-- ===== src/Modular/Vector.antt =====
-- Vectors of `n` residues mod `p` form a commutative group under `vadd`.
use native.Mathlib.Nat.{
  mod-lt, mod-eq_of_lt, mod-add-mod, add-mod-mod, mod_self, add_comm, add_assoc,
}
use sentry_link.Base.{
  ℕ, zero, suc, ◌+◌, ◌-◌, ◌%◌, ◌<◌, ◌≡◌, refl, sym, ap, ap₂, ◌∙◌, List, [], ◌∷◌, map, length,
  replicate, length-replicate, length-map, All, arith,
}
use sentry_link.Modular.{add_mod, sub_mod, vadd, vsub}
use sentry_link.Modular.Group.{GroupLaws}

abbrev pub neg_mod : ℕ → ℕ → ℕ
neg_mod p b = (p - b % p) % p

unfoldable pub vneg : ℕ → List ℕ → List ℕ
vneg p = map (neg_mod p)

-- `n` residues mod `p`.
pub record IsVec (p n : ℕ) (v : List ℕ) : Type 0 where
  pub size : length v ≡ n
  pub reduced : All (λ x. x < p) v

module _ (p : ℕ) where
  pub add_mod_comm : (a b : ℕ) → add_mod p a b ≡ add_mod p b a
  add_mod_comm a b = ap (λ t. t % p) (add_comm a b)

  pub add_mod_assoc : (a b c : ℕ) → add_mod p (add_mod p a b) c ≡ add_mod p a (add_mod p b c)
  add_mod_assoc a b c =
      mod-add-mod (a + b) p c ∙ ap (λ t. t % p) (add_assoc a b c) ∙ sym (add-mod-mod a (b + c) p)

  pub sub_mod-neg : (a b : ℕ) → sub_mod p a b ≡ add_mod p a (neg_mod p b)
  sub_mod-neg a b = sym (add-mod-mod a (p - b % p) p)

  pub add_mod-zero : (a : ℕ) → a < p → add_mod p 0 a ≡ a
  add_mod-zero a h = ap (λ t. t % p) (omega arith) ∙ mod-eq_of_lt h

  pub add_mod-neg : (a : ℕ) → a < p → add_mod p a (neg_mod p a) ≡ 0
  add_mod-neg a h =
      add-mod-mod a (p - a % p) p
      ∙ ap (λ t. (a + (p - t)) % p) (mod-eq_of_lt h)
      ∙ ap (λ t. t % p) (omega arith)
      ∙ mod_self p

  pub vadd_comm : (u v : List ℕ) → vadd p u v ≡ vadd p v u
  unfolding vadd
  vadd_comm (x ∷ u) (y ∷ v) = ap₂ ◌∷◌ (add_mod_comm x y) (vadd_comm u v)
  vadd_comm (x ∷ u) [] = refl
  vadd_comm [] (y ∷ v) = refl
  vadd_comm [] [] = refl

  pub vadd_assoc : (u v w : List ℕ) → vadd p (vadd p u v) w ≡ vadd p u (vadd p v w)
  unfolding vadd
  vadd_assoc (x ∷ u) (y ∷ v) (w ∷ ws) = ap₂ ◌∷◌ (add_mod_assoc x y w) (vadd_assoc u v ws)
  vadd_assoc (x ∷ u) (y ∷ v) [] = refl
  vadd_assoc (x ∷ u) [] ws = refl
  vadd_assoc [] v ws = refl

  pub vsub-neg : (u v : List ℕ) → vsub p u v ≡ vadd p u (vneg p v)
  unfolding vadd vsub vneg
  vsub-neg (x ∷ u) (y ∷ v) = ap₂ ◌∷◌ (sub_mod-neg x y) (vsub-neg u v)
  vsub-neg (x ∷ u) [] = refl
  vsub-neg [] v = refl

module _ (p : ℕ) (pos : 0 < p) where
  zeros-All : (n : ℕ) → All (λ x. x < p) (replicate n 0)
  zeros-All zero = tt
  zeros-All (suc n) = (pos, zeros-All n)

  pub zeros-IsVec : (n : ℕ) → IsVec p n (replicate n 0)
  zeros-IsVec n = record { size = length-replicate n 0; reduced = zeros-All n }

  length-vadd : (u v : List ℕ) → length u ≡ length v → length (vadd p u v) ≡ length u
  unfolding vadd
  length-vadd (x ∷ u) (y ∷ v) h = ap suc (length-vadd u v (omega arith))
  length-vadd (x ∷ u) [] h = absurd (omega arith)
  length-vadd [] v h = refl

  vadd-All : (u v : List ℕ) → All (λ x. x < p) (vadd p u v)
  unfolding vadd
  vadd-All (x ∷ u) (y ∷ v) = (mod-lt (x + y) pos, vadd-All u v)
  vadd-All (x ∷ u) [] = tt
  vadd-All [] v = tt

  pub vadd-IsVec : (n : ℕ) (u v : List ℕ) → IsVec p n u → IsVec p n v → IsVec p n (vadd p u v)
  vadd-IsVec n u v hu hv = record {
    size = length-vadd u v (hu.size ∙ sym hv.size) ∙ hu.size;
    reduced = vadd-All u v;
  }

  vneg-All : (v : List ℕ) → All (λ x. x < p) (vneg p v)
  unfolding vneg
  vneg-All [] = tt
  vneg-All (x ∷ v) = (mod-lt (p - x % p) pos, vneg-All v)

  pub vneg-IsVec : (n : ℕ) (v : List ℕ) → IsVec p n v → IsVec p n (vneg p v)
  unfolding vneg
  vneg-IsVec n v h = record { size = length-map v (neg_mod p) ∙ h.size; reduced = vneg-All v }

  zeros-vadd : (v : List ℕ) → All (λ x. x < p) v → vadd p (replicate (length v) 0) v ≡ v
  unfolding vadd
  zeros-vadd [] h = refl
  zeros-vadd (x ∷ v) h = ap₂ ◌∷◌ (add_mod-zero p x h.0) (zeros-vadd v h.1)

  vadd-vneg : (v : List ℕ) → All (λ x. x < p) v → vadd p v (vneg p v) ≡ replicate (length v) 0
  unfolding vadd vneg
  vadd-vneg [] h = refl
  vadd-vneg (x ∷ v) h = ap₂ ◌∷◌ (add_mod-neg p x h.0) (vadd-vneg v h.1)

  pub vector_group : (n : ℕ) → GroupLaws (List ℕ) (IsVec p n) (vadd p) (vneg p) (replicate n 0)
  vector_group n = record {
    assoc = vadd_assoc p;
    comm = vadd_comm p;
    add_vec = vadd-IsVec n;
    neg_vec = vneg-IsVec n;
    zero_vec = zeros-IsVec n;
    zero_left = λ v h. ap (λ k. vadd p (replicate k 0) v) (sym h.size) ∙ zeros-vadd v h.reduced;
    neg_right = λ v h. vadd-vneg v h.reduced ∙ ap (λ k. replicate k 0) h.size;
  }

  pub vsub-IsVec : (n : ℕ) (u v : List ℕ) → IsVec p n u → IsVec p n v → IsVec p n (vsub p u v)
  vsub-IsVec n u v hu hv = rw (vsub-neg p u v) (vadd-IsVec n u (vneg p v) hu (vneg-IsVec n v hv))
