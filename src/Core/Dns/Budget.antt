-- ===== src/Core/Dns/Budget.antt =====
-- The outbound budget: how many queries a process admits, whatever the callers do.
use testing_platform_backend.Core.Dns.{DnsSettings, OutboundBudget, budget_limit, rolled, try_spend}
use testing_platform_backend.Prelude.{
  All, All-map, Bool-cases, List, [], arith, false, if◌then◌else◌, inl, inr, leb, ltb, refl, true,
  ℕ, ◌*◌, ◌+◌, ◌<◌, ◌∷◌, ◌≡◌, ◌≤◌, ◌⊎◌,
}

-- One call of `try_spend`: its instant, and its queries.
abbrev pub Call : Type 0
Call = ℕ × ℕ

-- The queries that a run of calls admits.
pub admitted : DnsSettings → List Call → OutboundBudget → ℕ
admitted s [] b = 0
admitted s ((now, queries) ∷ calls) b =
    let (granted, after) = try_spend s queries now b in
    let rest = admitted s calls after in if granted then queries + rest else rest

module _ (s : DnsSettings) where
  abbrev Within : ℕ → ℕ → Call → Type 0
  Within from span (now, queries) = (from ≤ now) × (now < from + span)

  abbrev pub InBudget : OutboundBudget → Type 0
  InBudget b = b.spent ≤ budget_limit s

  abbrev charged : ℕ → OutboundBudget → OutboundBudget
  charged queries w = record w { spent = w.spent + queries }

  -- A call, by the window that it falls in.
  try_spend-cases :
      (now queries : ℕ) (b w : OutboundBudget)
      → rolled s now b ≡ w
      → (try_spend s queries now b ≡ (false, w))
        ⊎ ((w.spent + queries ≤ budget_limit s)
            × (try_spend s queries now b ≡ (true, charged queries w)))
  unfolding try_spend
  try_spend-cases now queries b w e = elim (Bool-cases (ltb (budget_limit s) (w.spent + queries))) [
    | inl y ↦ inl (rw (try_spend, e, y) refl)
    | inr n ↦ inr (ground arith, rw (try_spend, e, n) refl)
  ]

  -- A run of calls in the running window stays within what is left of it.
  admitted-inside :
      (calls : List Call) (b : OutboundBudget)
      → b.spent ≤ budget_limit s
      → All (λ c. c.0 < b.window_started + s.global_rate_window) calls
      → b.spent + admitted s calls b ≤ budget_limit s
  unfolding admitted
  admitted-inside [] b h k = omega arith
  admitted-inside ((now, queries) ∷ calls) b h k =
      let n : leb (b.window_started + s.global_rate_window) now ≡ false = ground (arith, k.0) in
      elim (try_spend-cases now queries b b (rw n refl)) [
        | inl e ↦ rw (admitted, e) (admitted-inside calls b h k.1)
        | inr (fits, e) ↦
            let rest = admitted-inside calls (charged queries b) fits k.1 in
            rw (admitted, e) (omega (arith, rest))
      ]

  through :
      (from : ℕ) (calls : List Call) (b : OutboundBudget)
      → b.spent ≤ budget_limit s
      → All (λ c. (from ≤ c.0) × (c.0 < from + s.global_rate_window)) calls
      → b.spent + admitted s calls b ≤ budget_limit s + budget_limit s
  unfolding admitted
  through from [] b h k = omega arith
  through from ((now, queries) ∷ calls) b h k =
      elim (Bool-cases (leb (b.window_started + s.global_rate_window) now)) [
        | inr n ↦ elim (try_spend-cases now queries b b (rw n refl)) [
          | inl e ↦ rw (admitted, e) (through from calls b h k.1)
          | inr (fits, e) ↦
              let rest = through from calls (charged queries b) fits k.1 in
              rw (admitted, e) (omega (arith, rest))
        ]
        | inl y ↦
            let w : OutboundBudget = record { window_started = now; spent = 0 } in
            let later : All (λ (c : Call). c.0 < now + s.global_rate_window) calls =
              All-map (λ c. (from ≤ c.0) × (c.0 < from + s.global_rate_window))
                (λ c. c.0 < now + s.global_rate_window) calls (λ c q. omega (arith, q.1, k.0.0))
                k.1 in
            elim (try_spend-cases now queries b w (rw y refl)) [
              | inl e ↦
                  let rest = admitted-inside calls w (omega arith) later in
                  rw (admitted, e) (omega (arith, rest))
              | inr (fits, e) ↦
                  let rest = admitted-inside calls (charged queries w) fits later in
                  rw (admitted, e) (omega (arith, rest))
            ]
      ]

  -- In any stretch of time as long as the window, a process that keeps its budget admits at most
  -- twice the limit, however often and for however many queries the checks ask.
  pub admitted-le :
      (from : ℕ) (calls : List Call) (b : OutboundBudget)
      → b.spent ≤ budget_limit s
      → All (λ c. (from ≤ c.0) × (c.0 < from + s.global_rate_window)) calls
      → admitted s calls b ≤ 2 * budget_limit s
  admitted-le from calls b h k = omega (arith, through from calls b h k)
