-- ===== src/Core/Redis/Windows.antt =====
-- How many requests a window lets through.
use testing_platform_backend.Core.Redis.{Entry, consume, get_entry, set_entry, window_key}
use testing_platform_backend.Prelude.{
  All, All-map, Bool-cases, List, [], arith, if◌then◌else◌, inl, inr, leb, length, ltb, min, none,
  refl, some, suc, true, ℕ, ◌+◌, ◌-◌, ◌<◌, ◌∷◌, ◌≡◌,
}
use testing_platform_backend.Text.{text_eq}
use testing_platform_backend.Text.Laws.{text_eq_iff}

-- The requests that are allowed in a run of requests under one key.
pub grants : List ℕ → ℕ → ℕ → List ℕ → List Entry → ℕ
unfolding consume
grants key limit window [] store = 0
grants key limit window (now ∷ times) store =
    let (d, after) = consume key limit window now store in
    let rest = grants key limit window times after in if d.allowed then suc rest else rest

module _ (key : List ℕ) (limit window : ℕ) where
  get_entry-set_entry :
      (k : List ℕ) (t value ttl now : ℕ) (store : List Entry)
      → now < t + ttl
      → get_entry now k (set_entry t k value ttl store)
        ≡ some (record { key = k; value = value; expires_at = t + ttl })
  unfolding get_entry set_entry
  get_entry-set_entry k t value ttl now store h =
      let same : text_eq k k ≡ true = (text_eq_iff k k).1 refl in
      let early : ltb now (t + ttl) ≡ true = ground arith in rw (same, early) refl

  counted :
      (times : List ℕ) (e : Entry) (store : List Entry)
      → ((now : ℕ) → now < e.expires_at → get_entry now (window_key key) store ≡ some e)
      → All (λ now. now < e.expires_at) times
      → grants key limit window times store ≡ min (limit - e.value) (length times)
  unfolding grants consume
  counted [] e store h k = omega arith
  counted (now ∷ times) e store h k =
      let after : List Entry =
        set_entry now (window_key key) (e.value + 1) (e.expires_at - now) store in
      let e' : Entry = record {
        key = window_key key;
        value = e.value + 1;
        expires_at = now + (e.expires_at - now);
      } in
      let until : now + (e.expires_at - now) ≡ e.expires_at = omega (arith, k.0) in
      let rest : grants key limit window times after ≡ min (limit - (e.value + 1)) (length times) =
        counted times e' after
          (λ t q.
            get_entry-set_entry (window_key key) now (e.value + 1) (e.expires_at - now) t store q)
          (All-map (λ t. t < e.expires_at) (λ t. t < now + (e.expires_at - now)) times
            (λ t q. omega (arith, until, q)) k.1) in
      elim (Bool-cases (leb (e.value + 1) limit)) [
        | inl y ↦ rw (grants, consume, h now k.0, y, rest) (ground arith)
        | inr n ↦ rw (grants, consume, h now k.0, n, rest) (ground arith)
      ]

  -- In a window that the first request of a key opens, the requests that follow before it closes are
  -- allowed up to the limit and no further, however they are spaced.
  pub grants-min :
      (start : ℕ) (times : List ℕ) (store : List Entry)
      → get_entry start (window_key key) store ≡ none
      → 0 < window
      → All (λ now. now < start + window) times
      → grants key limit window (start ∷ times) store ≡ min limit (suc (length times))
  unfolding grants consume
  grants-min start times store h pos k =
      let after : List Entry = set_entry start (window_key key) 1 window store in
      let e : Entry = record { key = window_key key; value = 1; expires_at = start + window } in
      let rest : grants key limit window times after ≡ min (limit - 1) (length times) =
        counted times e after (λ t q. get_entry-set_entry (window_key key) start 1 window t store q)
          k in
      elim (Bool-cases (leb 1 limit)) [
        | inl y ↦ rw (grants, consume, h, y, rest) (ground arith)
        | inr n ↦ rw (grants, consume, h, n, rest) (ground arith)
      ]
