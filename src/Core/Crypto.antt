-- ===== src/Core/Crypto.antt =====
-- core/crypto.py: envelope encryption. Bytes are numbers; AES-GCM is the record `Aead`.
pub mod Opening
use testing_platform_backend.Prelude.{
  Bool, List, Option, Result, [], err, false, if◌then◌else◌, leb, length, none, ok, some, suc, true,
  zero, ℕ, ◌&&◌, ◌*◌, ◌++◌, ◌+◌, ◌-◌, ◌==◌, ◌||◌, ◌∷◌,
}

-- `AESGCM(key).encrypt` and `decrypt`; `none` is an `InvalidTag`.
pub record Aead : Type 0 where
  pub seal : List ℕ → List ℕ → List ℕ → List ℕ → List ℕ
  pub open_sealed : List ℕ → List ℕ → List ℕ → List ℕ → Option (List ℕ)

pub data CryptoError : Type 0 where
  master_key_unavailable decryption_error : CryptoError

-- `blob[:n]` and `blob[n:]`
unfoldable pub take : ℕ → List ℕ → List ℕ
take zero xs = []
take (suc n) [] = []
take (suc n) (x ∷ xs) = x ∷ take n xs

unfoldable pub drop : ℕ → List ℕ → List ℕ
drop zero xs = xs
drop (suc n) [] = []
drop (suc n) (x ∷ xs) = drop n xs

-- the value of a hexadecimal digit
unfoldable pub digit : ℕ → Option ℕ
digit c =
    if leb 48 c && leb c 57
    then some (c - 48)
    else if leb 97 c && leb c 102
    then some (c - 87)
    else if leb 65 c && leb c 70
    then some (c - 55)
    else none

abbrev pub push_byte : Option ℕ → Option ℕ → Option (List ℕ) → Option (List ℕ)
push_byte (some h) (some l) (some rest) = some ((16 * h + l) ∷ rest)
push_byte _ _ _ = none

-- ASCII white space
abbrev is_space : ℕ → Bool
is_space c = c == 32 || (leb 9 c && leb c 13)

-- `bytes.fromhex`, which skips white space before a byte and at the end; `none` is a `ValueError`
unfoldable pub from_hex : List ℕ → Option (List ℕ)
unfolding digit
from_hex [] = some []
from_hex (c ∷ []) = if is_space c then some [] else none
from_hex (c ∷ d ∷ s) = elim (is_space c) [
  | true ↦ from_hex (d ∷ s)
  | false ↦ push_byte (digit c) (digit d) (from_hex s)
]

-- `master_key`; the format was checked at start, so the last case is not reached
unfoldable pub master_key : List ℕ → Result CryptoError (List ℕ)
unfolding from_hex
master_key [] = err master_key_unavailable
master_key (c ∷ s) = elim (from_hex (c ∷ s)) [
  | none ↦ err master_key_unavailable
  | some key ↦ ok key
]

pub record WrappedKey : Type 0 where
  pub ciphertext : List ℕ
  pub nonce : List ℕ
  pub master_key_version : ℕ

module _ (aead : Aead) where
  -- `encrypt` with the drawn nonce
  unfoldable pub encrypt : List ℕ → List ℕ → List ℕ → List ℕ → List ℕ
  encrypt nonce plaintext key aad = nonce ++ aead.seal key nonce plaintext aad

  -- `decrypt`
  unfoldable pub decrypt : List ℕ → List ℕ → List ℕ → Result CryptoError (List ℕ)
  unfolding take drop
  decrypt blob key aad =
      if leb (length blob) 12
      then err decryption_error
      else elim (aead.open_sealed key (take 12 blob) (drop 12 blob) aad) [
        | none ↦ err decryption_error
        | some plaintext ↦ ok plaintext
      ]

module _ (aead : Aead) (app_encryption_master_key : List ℕ) where
  -- `wrap_key` with the drawn nonce
  unfoldable pub wrap_key : ℕ → List ℕ → List ℕ → List ℕ → Result CryptoError WrappedKey
  unfolding master_key
  wrap_key version nonce key aad = elim (master_key app_encryption_master_key) [
    | err e ↦ err e
    | ok master ↦ ok (record {
      ciphertext = aead.seal master nonce key aad;
      nonce = nonce;
      master_key_version = version;
    })
  ]

  -- `unwrap_key`
  unfoldable pub unwrap_key : List ℕ → List ℕ → List ℕ → Result CryptoError (List ℕ)
  unfolding master_key
  unwrap_key ciphertext nonce aad = elim (master_key app_encryption_master_key) [
    | err e ↦ err e
    | ok master ↦ elim (aead.open_sealed master nonce ciphertext aad) [
      | none ↦ err decryption_error
      | some key ↦ ok key
    ]
  ]
