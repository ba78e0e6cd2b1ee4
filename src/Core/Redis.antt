-- ===== src/Core/Redis.antt =====
-- core/redis_utils.py: the rate windows, the challenges and the cache. Redis is a list of entries,
-- each of which is gone when it expires; a value is a number, or a JSON document by its number. A
-- transaction is one step.
pub mod Windows
pub mod Challenges
use testing_platform_backend.Modules.Namespaced.{codes}
use testing_platform_backend.Prelude.{
  Bool, List, Option, Result, all, count, err, find, if◌then◌else◌, keep, leb, length, ltb, none,
  not, ok, some, ℕ, ◌&&◌, ◌++◌, ◌+◌, ◌-◌, ◌==◌, ◌||◌, ◌∷◌,
}
use testing_platform_backend.Text.{text_eq}

pub record Entry : Type 0 where
  pub key : List ℕ
  pub value : ℕ
  pub expires_at : ℕ

abbrev pub has_key : List ℕ → Entry → Bool
has_key key e = text_eq e.key key

abbrev pub is_live : ℕ → List ℕ → Entry → Bool
is_live now key e = has_key key e && ltb now e.expires_at

-- GET
unfoldable pub get_entry : ℕ → List ℕ → List Entry → Option Entry
get_entry now key store = find (is_live now key) store

-- DEL
unfoldable pub delete_entry : List ℕ → List Entry → List Entry
delete_entry key store = keep (λ e. not (has_key key e)) store

-- SET with EX
unfoldable pub set_entry : ℕ → List ℕ → ℕ → ℕ → List Entry → List Entry
unfolding delete_entry
set_entry now key value ttl_seconds store =
    record { key = key; value = value; expires_at = now + ttl_seconds } ∷ delete_entry key store

pub record RateLimitDecision : Type 0 where
  pub allowed : Bool
  pub limit : ℕ
  pub remaining : ℕ
  pub reset_seconds : ℕ

abbrev pub decision : ℕ → ℕ → ℕ → RateLimitDecision
decision limit count ttl = record {
  allowed = leb count limit;
  limit = limit;
  remaining = limit - count;
  reset_seconds = ttl;
}

abbrev pub window_key : List ℕ → List ℕ
window_key key = codes "ratelimit:" ++ key

-- `consume`: INCR, EXPIRE when there is none, and TTL
unfoldable pub consume : List ℕ → ℕ → ℕ → ℕ → List Entry → RateLimitDecision × List Entry
unfolding get_entry set_entry
consume key limit window_seconds now store = elim (get_entry now (window_key key) store) [
  | none ↦ (decision limit 1 window_seconds, set_entry now (window_key key) 1 window_seconds store)
  | some e ↦ (
    decision limit (e.value + 1) (e.expires_at - now),
    set_entry now (window_key key) (e.value + 1) (e.expires_at - now) store,
  )
]

-- `enforce_rate_limit` of core/security.py: `none` is a Redis that does not answer, which lets the
-- request through
unfoldable pub enforce_rate_limit : Option RateLimitDecision → Result RateLimitDecision (Unit {0})
enforce_rate_limit none = ok tt
enforce_rate_limit (some d) = if d.allowed then ok tt else err d

-- `_NONCE_RE`: thirty-two digits of a hexadecimal number, in lower case
abbrev pub is_hex_digit : ℕ → Bool
is_hex_digit c = (leb 48 c && leb c 57) || (leb 97 c && leb c 102)

unfoldable pub is_nonce : List ℕ → Bool
is_nonce s = length s == 32 && all is_hex_digit s

abbrev pub challenge_key : List ℕ → List ℕ → List ℕ
challenge_key scope nonce = codes "pow:" ++ (scope ++ (58 ∷ nonce))

pub record PowChallenge : Type 0 where
  pub nonce : List ℕ
  pub difficulty : ℕ
  pub ttl_seconds : ℕ

-- `issue_challenge` with the drawn nonce
unfoldable pub issue_challenge :
    List ℕ → List ℕ → ℕ → ℕ → ℕ → List Entry → PowChallenge × List Entry
unfolding set_entry
issue_challenge scope nonce difficulty ttl_seconds now store = (
  record { nonce = nonce; difficulty = difficulty; ttl_seconds = ttl_seconds },
  set_entry now (challenge_key scope nonce) difficulty ttl_seconds store,
)

-- `verify_and_consume`, with GETDEL
unfoldable pub verify_and_consume : List ℕ → List ℕ → ℕ → List Entry → Option ℕ × List Entry
unfolding is_nonce get_entry delete_entry
verify_and_consume scope nonce now store =
    if not (is_nonce nonce)
    then (none, store)
    else elim (get_entry now (challenge_key scope nonce) store) [
      | none ↦ (none, store)
      | some e ↦ (some e.value, delete_entry (challenge_key scope nonce) store)
    ]

abbrev pub cache_key : List ℕ → List ℕ
cache_key key = codes "cache:" ++ key

-- `get_json`
unfoldable pub get_json : List ℕ → ℕ → List Entry → Option ℕ
unfolding get_entry
get_json key now store = elim (get_entry now (cache_key key) store) [
  | none ↦ none
  | some e ↦ some e.value
]

-- `set_json`
unfoldable pub set_json : List ℕ → ℕ → ℕ → ℕ → List Entry → List Entry
unfolding set_entry
set_json key value ttl_seconds now store = set_entry now (cache_key key) value ttl_seconds store
