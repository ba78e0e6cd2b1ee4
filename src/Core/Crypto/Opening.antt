-- ===== src/Core/Crypto/Opening.antt =====
-- What is encrypted opens again under the same key and purpose, and under nothing else.
use testing_platform_backend.Core.Crypto.{
  Aead, CryptoError, WrappedKey, decrypt, decryption_error, drop, encrypt, master_key, take,
  unwrap_key, wrap_key,
}
use testing_platform_backend.Prelude.{
  List, Result, Result-cases, [], arith, err, false, inl, inr, leb, length, length-append, none, ok,
  ok-injective, refl, some, subst, suc, zero, ℕ, ◌++◌, ◌<◌, ◌∷◌, ◌≡◌, ◌≢◌,
}

-- The documented behaviour of AES-GCM: a ciphertext carries a tag of at least one byte, opens under
-- the key, nonce and additional data that sealed it, and not under other additional data.
pub record AeadLaws (aead : Aead) : Type 0 where
  pub tagged : (k n p a : List ℕ) → 0 < length (aead.seal k n p a)
  pub opens : (k n p a : List ℕ) → aead.open_sealed k n (aead.seal k n p a) a ≡ some p
  pub bound : (k n p a b : List ℕ) → a ≢ b → aead.open_sealed k n (aead.seal k n p a) b ≡ none

pub take-append : (n : ℕ) (xs ys : List ℕ) → length xs ≡ n → take n (xs ++ ys) ≡ xs
unfolding take
take-append zero [] ys h = refl
take-append zero (x ∷ xs) ys h = absurd (omega arith)
take-append (suc n) [] ys h = absurd (omega arith)
take-append (suc n) (x ∷ xs) ys h = rw (take-append n xs ys (omega arith)) refl

pub drop-append : (n : ℕ) (xs ys : List ℕ) → length xs ≡ n → drop n (xs ++ ys) ≡ ys
unfolding drop
drop-append zero [] ys h = refl
drop-append zero (x ∷ xs) ys h = absurd (omega arith)
drop-append (suc n) [] ys h = absurd (omega arith)
drop-append (suc n) (x ∷ xs) ys h = drop-append n xs ys (omega arith)

module _ (aead : Aead) (laws : AeadLaws aead) where
  long :
      (nonce p key aad : List ℕ)
      → length nonce ≡ 12
      → leb (length (nonce ++ aead.seal key nonce p aad)) 12 ≡ false
  long nonce p key aad h =
      ground (arith, length-append nonce (aead.seal key nonce p aad), laws.tagged key nonce p aad)

  pub decrypt-encrypt_own :
      (nonce plaintext key aad : List ℕ)
      → length nonce ≡ 12
      → decrypt aead (encrypt aead nonce plaintext key aad) key aad ≡ ok plaintext
  unfolding decrypt encrypt
  decrypt-encrypt_own nonce p key aad h =
      let sealed = aead.seal key nonce p aad in
      rw
        (
          long nonce p key aad h,
          take-append 12 nonce sealed h,
          drop-append 12 nonce sealed h,
          laws.opens key nonce p aad,
        )
        refl

  -- A blob opens to its plaintext under the key and the purpose of its encryption, and is refused
  -- under every other purpose.
  decrypt-encrypt :
      (nonce plaintext key aad other : List ℕ)
      → length nonce ≡ 12
      → aad ≢ other
      → (decrypt aead (encrypt aead nonce plaintext key aad) key aad ≡ ok plaintext)
        × (decrypt aead (encrypt aead nonce plaintext key aad) key other ≡ err decryption_error)
  unfolding decrypt encrypt
  decrypt-encrypt nonce p key aad other h n =
      let sealed = aead.seal key nonce p aad in
      (
        decrypt-encrypt_own nonce p key aad h,
        rw
            (
              long nonce p key aad h,
              take-append 12 nonce sealed h,
              drop-append 12 nonce sealed h,
              laws.bound key nonce p aad other n,
            )
            refl,
      )

  -- A wrapped key is unwrapped to the key as long as the master key is the same.
  pub unwrap_key-wrap_key :
      (master : List ℕ) (version : ℕ) (nonce key aad : List ℕ) (w : WrappedKey)
      → wrap_key aead master version nonce key aad ≡ ok w
      → unwrap_key aead master w.ciphertext w.nonce aad ≡ ok key
  unfolding wrap_key unwrap_key
  unwrap_key-wrap_key master version nonce key aad w h = elim (Result-cases (master_key master)) [
    | inl (e, m) ↦
        let clash : ◌≡◌ {A = Result CryptoError WrappedKey} (err e) (ok w) =
          rw (wrap_key, m) at h in
        cc
    | inr (k, m) ↦
        let e : ◌≡◌ {A = Result CryptoError WrappedKey}
            (ok (record {
              ciphertext = aead.seal k nonce key aad;
              nonce = nonce;
              master_key_version = version;
            }))
            (ok w) =
          rw (wrap_key, m) at h in
        let same : record {
          ciphertext = aead.seal k nonce key aad;
          nonce = nonce;
          master_key_version = version;
        }
            ≡ w =
          ok-injective e in
        subst (λ (v : WrappedKey). unwrap_key aead master v.ciphertext v.nonce aad ≡ ok key) same
          (rw (unwrap_key, m, laws.opens k nonce key aad) refl)
  ]
