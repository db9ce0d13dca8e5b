-- ===== src/Tests/Toys.antt =====
-- A key agreement for tests: the shared secret is the sum of the two keys.
use sentry_link.Base.{
  ℕ, ◌+◌, Eq, nat_beq, ◌&&◌, false, ◌↔◌, List, [], ◌∷◌, replicate, length, length-replicate, Bool,
  true, ◌≡◌, refl, ap, arith,
}
use sentry_link.Crypto.Prg.{Bytes}
use sentry_link.Crypto.SecureAggregation.{KeyAgreement}
use sentry_link.Crypto.SecureAggregation.Masks.{KeyLaws}

abbrev pub first_byte : Bytes → ℕ
first_byte [] = 0
first_byte (b ∷ bs) = b

abbrev pub toy_hmac : Bytes → ℕ → Bytes
toy_hmac seed counter = replicate 32 (first_byte seed)

abbrev pub toy : KeyAgreement
toy = record {
  PrivateKey = ℕ;
  public_bytes = λ k. k ∷ [];
  is_public = λ b. true;
  exchange = λ k b. (k + first_byte b) ∷ [];
  hkdf = λ s salt info. s;
  sha256 = λ s. [];
  hmac = toy_hmac;
}

pub toy-KeyLaws : KeyLaws toy
toy-KeyLaws = record { own_public = λ k. refl; agree = λ k l. ap (λ n. n ∷ []) (omega arith) }

pub toy_hmac-length : (s : Bytes) (k : ℕ) → length (toy_hmac s k) ≡ 32
toy_hmac-length s k = length-replicate 32 (first_byte s)

-- Lists of numbers as digests.
abbrev list_beq : List ℕ → List ℕ → Bool
list_beq [] [] = true
list_beq [] (y ∷ ys) = false
list_beq (x ∷ xs) [] = false
list_beq (x ∷ xs) (y ∷ ys) = nat_beq x y && list_beq xs ys

pub list_beq_iff : (xs ys : List ℕ) → (list_beq xs ys ≡ true) ↔ (xs ≡ ys)
list_beq_iff [] [] = ground arith
list_beq_iff [] (y ∷ ys) = ground arith
list_beq_iff (x ∷ xs) [] = ground arith
list_beq_iff (x ∷ xs) (y ∷ ys) = ground (arith, list_beq_iff xs ys)

instance abbrev pub list_eq : Eq (List ℕ)
list_eq = record { beq = list_beq; beq_iff = list_beq_iff }

-- A digest that keeps all its input.
abbrev pub chain_hash : List ℕ → ℕ → List ℕ
chain_hash prev payload = payload ∷ prev

pub chain_hash-injective :
    (p q : List ℕ) (x y : ℕ) → chain_hash p x ≡ chain_hash q y → (p ≡ q) × (x ≡ y)
chain_hash-injective p q x y h = ground (arith, h)
