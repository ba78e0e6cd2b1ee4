-- ===== src/Core/Settings.antt =====
-- core/settings.py: the checks at start on the settings of the authentication. A `Field` with a lower
-- bound and a validator each refuse a value that does not fit.
pub mod Keys
use testing_platform_backend.Core.Crypto.{from_hex}
use testing_platform_backend.Prelude.{
  Bool, List, Result, [], err, if◌then◌else◌, leb, length, none, ok, require, some, ℕ, ◌&&◌, ◌==◌,
  ◌>>=◌, ◌>>◌, ◌∷◌,
}

pub record AuthSettings : Type 0 where
  pub app_encryption_master_key : List ℕ
  pub auth_session_idle_seconds : ℕ
  pub auth_session_absolute_seconds : ℕ
  pub auth_mfa_assurance_max_age_seconds : ℕ
  pub auth_mfa_lockout_base_seconds : ℕ
  pub auth_mfa_lockout_cap_seconds : ℕ

pub data AuthSettingsError : Type 0 where
  field_below_bound key_not_hexadecimal key_not_256_bits : AuthSettingsError
  absolute_below_idle assurance_above_absolute cap_below_base : AuthSettingsError

-- the bounds of the `Field`s
abbrev pub auth_fields_in_range : AuthSettings → Bool
auth_fields_in_range s =
    leb 60 s.auth_session_idle_seconds
    && leb 300 s.auth_session_absolute_seconds
    && leb 60 s.auth_mfa_assurance_max_age_seconds
    && leb 60 s.auth_mfa_lockout_base_seconds
    && leb 60 s.auth_mfa_lockout_cap_seconds

-- the check of the key: an empty one is not set
unfoldable pub check_master_key : List ℕ → Result AuthSettingsError (Unit {0})
unfolding from_hex
check_master_key [] = ok tt
check_master_key (c ∷ s) = elim (from_hex (c ∷ s)) [
  | none ↦ err key_not_hexadecimal
  | some raw ↦ if length raw == 32 then ok tt else err key_not_256_bits
]

-- `_auth_settings_are_coherent`
unfoldable pub auth_settings_are_coherent : AuthSettings → Result AuthSettingsError (Unit {0})
unfolding check_master_key
auth_settings_are_coherent s = do
  require (auth_fields_in_range s) field_below_bound
  _ ← check_master_key s.app_encryption_master_key
  require (leb s.auth_session_idle_seconds s.auth_session_absolute_seconds) absolute_below_idle
  require (leb s.auth_mfa_assurance_max_age_seconds s.auth_session_absolute_seconds)
      assurance_above_absolute
  require (leb s.auth_mfa_lockout_base_seconds s.auth_mfa_lockout_cap_seconds) cap_below_base
  ok tt
