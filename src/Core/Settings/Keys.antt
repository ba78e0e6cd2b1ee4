-- ===== src/Core/Settings/Keys.antt =====
-- A master key that the checks at start accept serves every operation.
use testing_platform_backend.Assets.Verification.{accepted}
use testing_platform_backend.Core.Crypto.{
  Aead, WrappedKey, from_hex, master_key, unwrap_key, wrap_key,
}
use testing_platform_backend.Core.Crypto.Opening.{AeadLaws, unwrap_key-wrap_key}
use testing_platform_backend.Core.Settings.{
  AuthSettings, AuthSettingsError, auth_fields_in_range, auth_settings_are_coherent,
  check_master_key, field_below_bound, key_not_256_bits, key_not_hexadecimal,
}
use testing_platform_backend.Prelude.{
  ==_iff, >>=-ok, Bool-cases, List, Option-cases, Result, [], err, inl, inr, length, ok, refl,
  require-ok, ℕ, ◌==◌, ◌>>=◌, ◌∷◌, ◌≡◌, ◌≢◌,
}

module _ (s : AuthSettings) (accepted : auth_settings_are_coherent s ≡ ok tt) where
  key_accepted : check_master_key s.app_encryption_master_key ≡ ok tt
  unfolding auth_settings_are_coherent
  key_accepted =
      let (_, k) =
        require-ok (auth_fields_in_range s) field_below_bound
          (check_master_key s.app_encryption_master_key >>= (λ _. _)) accepted in
      let (x, e, _) = >>=-ok (check_master_key s.app_encryption_master_key) (λ _. _) k in e

is_master :
    (text : List ℕ)
    → check_master_key text ≡ ok tt
    → text ≢ []
    → (key : List ℕ) × (master_key text ≡ ok key) × (length key ≡ 32)
unfolding check_master_key master_key
is_master [] h n = absurd (n refl)
is_master (c ∷ t) h n = elim (Option-cases (from_hex (c ∷ t))) [
  | inl e ↦
      let clash : ◌≡◌ {A = Result AuthSettingsError (Unit {0})} (err key_not_hexadecimal) (ok tt) =
        rw (check_master_key, e) at h in
      cc
  | inr (raw, e) ↦ elim (Bool-cases (length raw == 32)) [
    | inl y ↦ (raw, rw (master_key, e) refl, (==_iff (length raw) 32).0 y)
    | inr z ↦
        let clash : ◌≡◌ {A = Result AuthSettingsError (Unit {0})} (err key_not_256_bits) (ok tt) =
          rw (check_master_key, e, z) at h in
        cc
  ]
]

-- Under settings that the checks at start accept, with a master key set, every key is wrapped under
-- a key of 256 bits, and is unwrapped again to itself.
pub unwrap_key-coherent :
    (s : AuthSettings) (aead : Aead) (version : ℕ) (nonce key aad : List ℕ)
    → AeadLaws aead
    → auth_settings_are_coherent s ≡ ok tt
    → s.app_encryption_master_key ≢ []
    → (master : List ℕ) × (w : WrappedKey) × (master_key s.app_encryption_master_key ≡ ok master)
      × (length master ≡ 32)
      × (wrap_key aead s.app_encryption_master_key version nonce key aad ≡ ok w)
      × (unwrap_key aead s.app_encryption_master_key w.ciphertext w.nonce aad ≡ ok key)
unfolding wrap_key
unwrap_key-coherent s aead version nonce key aad laws accepted n =
    let (master, m, l) = is_master s.app_encryption_master_key (key_accepted s accepted) n in
    let w : WrappedKey = record {
      ciphertext = aead.seal master nonce key aad;
      nonce = nonce;
      master_key_version = version;
    } in
    let wrapped : wrap_key aead s.app_encryption_master_key version nonce key aad ≡ ok w =
      rw (wrap_key, m) refl in
    (
      master,
      w,
      m,
      l,
      wrapped,
      unwrap_key-wrap_key aead laws s.app_encryption_master_key version nonce key aad w wrapped,
    )
