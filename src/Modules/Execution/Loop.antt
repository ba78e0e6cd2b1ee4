-- ===== src/Modules/Execution/Loop.antt =====
-- The loop of `run_engine`: it ends once the clock has passed the deadline, and in one way only.
use testing_platform_backend.Modules.Execution.{
  EngineError, EngineOutcome, Fields, Finish, Line, Message, Poll, Ran, Round, Step, Step-cases,
  blocks, child_error, closed, emits, ends, escapes, exited_without_result, gives, goes_on, line,
  malformed_message, no_object, object, overran, overran_budget, poll_loop, progress_kind, raises,
  read_error, read_line, read_poll, read_progress, read_result, result_kind, round_step, run_engine,
  silence, stalled, unreadable,
}
use testing_platform_backend.Prelude.{
  Bool, Bool-cases, Option, Option-cases, [], arith, false, inl, inr, is_some, leb, none, not, ok,
  refl, some, subst, suc, true, zero, ℕ, ◌+◌, ◌<◌, ◌==◌, ◌∷◌, ◌≡◌, ◌≤◌, ◌⊎◌,
}
use testing_platform_backend.Text.{text_eq}

late_ends : (deadline : ℕ) (r : Round) → deadline ≤ r.now → round_step deadline r ≡ ends overran
unfolding round_step
late_ends deadline r h = ground arith

abbrev is_overrun : Option EngineError → Bool
is_overrun none = false
is_overrun (some overran_budget) = true
is_overrun (some exited_without_result) = false
is_overrun (some (child_error t m)) = false
is_overrun (some (malformed_message l)) = false

-- There is a report just when there is no error, and only an overrun is timed out.
abbrev pub Exclusive : EngineOutcome → Type 0
Exclusive o = (is_some o.report ≡ not (is_some o.error)) × (o.timed_out ≡ is_overrun o.error)

-- what a step says of the poll that it comes from
abbrev StepOk : Poll → Step → Type 0
StepOk p (ends o) = Exclusive o
StepOk p goes_on = Unit
StepOk p (emits c m) = Unit
StepOk p blocks = p ≡ stalled
StepOk p (raises e) = p ≡ unreadable e

read_progress-StepOk : (p : Poll) (f : Fields) → StepOk p (read_progress f)
read_progress-StepOk p f = elim (Option-cases f.message) [
  | inl n ↦ rw n (refl, refl)
  | inr (m, e) ↦ elim (Option-cases f.channel) [
    | inl n ↦ rw (e, n) (refl, refl)
    | inr (c, k) ↦ rw (e, k) tt
  ]
]

read_result-StepOk : (p : Poll) (f : Fields) → StepOk p (read_result f)
read_result-StepOk p f = elim (Option-cases f.report) [
  | inl n ↦ rw n (refl, refl)
  | inr (v, e) ↦ elim (Option-cases v) [
    | inl n ↦ rw (e, n) tt
    | inr (r, k) ↦ rw (e, k) (refl, refl)
  ]
]

read_error-StepOk : (p : Poll) (f : Fields) → StepOk p (read_error f)
read_error-StepOk p f = elim (Option-cases f.error_type) [
  | inl n ↦ rw n (refl, refl)
  | inr (t, e) ↦ elim (Option-cases f.message) [
    | inl n ↦ rw (e, n) (refl, refl)
    | inr (m, k) ↦ rw (e, k) (refl, refl)
  ]
]

read_line-StepOk : (p : Poll) (l : Line) → StepOk p (read_line l)
unfolding read_line
read_line-StepOk p (no_object v) = (refl, refl)
read_line-StepOk p (object f) = elim (Option-cases f.kind) [
  | inl n ↦ rw n (refl, refl)
  | inr (k, e) ↦ elim (Bool-cases (text_eq k progress_kind)) [
    | inl y ↦ rw (e, y) (read_progress-StepOk p f)
    | inr n ↦ elim (Bool-cases (text_eq k result_kind)) [
      | inl r ↦ rw (e, n, r) (read_result-StepOk p f)
      | inr x ↦ rw (e, n, x) (read_error-StepOk p f)
    ]
  ]
]

round_step-StepOk : (deadline : ℕ) (r : Round) → StepOk r.poll (round_step deadline r)
unfolding round_step
round_step-StepOk deadline r = elim (Bool-cases (leb deadline r.now)) [
  | inl y ↦ rw y (refl, refl)
  | inr n ↦ rw n (poll_ok r.poll)
]
  where
    poll_ok : (p : Poll) → StepOk p (read_poll p)
    poll_ok silence = (refl, refl)
    poll_ok closed = (refl, refl)
    poll_ok stalled = refl
    poll_ok (line l) = read_line-StepOk (line l) l
    poll_ok (unreadable e) = refl

module _ (deadline : ℕ) (rounds : ℕ → Round) where
  -- An outcome is exclusive, and an exception comes from a message, before the `j`th round, that
  -- cannot be read.
  abbrev pub Finished : ℕ → Finish → Type 0
  Finished j (gives o) = Exclusive o
  Finished j (escapes e) = (i : ℕ) × (i < j) × ((rounds i).poll ≡ unreadable e)

  abbrev Ended : ℕ → Option Ran → Type 0
  Ended j run = (r : Ran) × (run ≡ some r) × Finished j r.finish

  -- a message that is begun before the `j`th round and never completed
  abbrev pub Stalls : ℕ → Type 0
  Stalls j = (i : ℕ) × (i < j) × ((rounds i).poll ≡ stalled)

  abbrev Hangs : ℕ → ℕ → Type 0
  Hangs j i = Stalls j × ((fuel : ℕ) → poll_loop deadline rounds fuel i ≡ none)

  goes_on-Hangs : (i j : ℕ) → round_step deadline (rounds i) ≡ goes_on → Hangs j (i + 1) → Hangs j i
  unfolding poll_loop
  goes_on-Hangs i j s (stall, none_after) = (stall, never)
    where
      never : (fuel : ℕ) → poll_loop deadline rounds fuel i ≡ none
      never zero = refl
      never (suc fuel) = rw (poll_loop, s) (none_after fuel)

  emits-Hangs :
      (i j : ℕ) (c m : Message)
      → round_step deadline (rounds i) ≡ emits c m
      → Hangs j (i + 1)
      → Hangs j i
  unfolding poll_loop
  emits-Hangs i j c m s (stall, none_after) = (stall, never)
    where
      never : (fuel : ℕ) → poll_loop deadline rounds fuel i ≡ none
      never zero = refl
      never (suc fuel) = rw (poll_loop, s, none_after fuel) refl

  blocks-Hangs : (i j : ℕ) → i < j → round_step deadline (rounds i) ≡ blocks → Hangs j i
  unfolding poll_loop
  blocks-Hangs i j h s =
      ((i, h, subst (StepOk (rounds i).poll) s (round_step-StepOk deadline (rounds i))), never)
    where
      never : (fuel : ℕ) → poll_loop deadline rounds fuel i ≡ none
      never zero = refl
      never (suc fuel) = rw (poll_loop, s) refl

  goes_on-Ended :
      (n i j : ℕ)
      → round_step deadline (rounds i) ≡ goes_on
      → Ended j (poll_loop deadline rounds n (i + 1))
      → Ended j (poll_loop deadline rounds (suc n) i)
  unfolding poll_loop
  goes_on-Ended n i j s (r, e, g) = (r, rw (poll_loop, s) e, g)

  emits-Ended :
      (n i j : ℕ) (c m : Message)
      → round_step deadline (rounds i) ≡ emits c m
      → Ended j (poll_loop deadline rounds n (i + 1))
      → Ended j (poll_loop deadline rounds (suc n) i)
  unfolding poll_loop
  emits-Ended n i j c m s (r, e, g) =
      (record r { emitted = (c, m) ∷ r.emitted }, rw (poll_loop, s, e) refl, g)

  -- Once the clock reads the deadline in some round, the loop has ended by that round, or an earlier
  -- one holds it for ever.
  poll_loop_ends :
      (n i j : ℕ)
      → i + n ≡ j
      → deadline ≤ (rounds j).now
      → Ended j (poll_loop deadline rounds (suc n) i) ⊎ Hangs j i
  unfolding poll_loop
  poll_loop_ends zero i j e h =
      let same : i ≡ j = omega arith in
      let late : round_step deadline (rounds i) ≡ ends overran =
        late_ends deadline (rounds i) (rw same h) in
      inl (record { emitted = []; finish = gives overran }, rw (poll_loop, late) refl, (refl, refl))
  poll_loop_ends (suc n) i j e h =
      let ok_step = round_step-StepOk deadline (rounds i) in
      let earlier : i < j = omega arith in
      elim (Step-cases (round_step deadline (rounds i))) [
        | inl (o, s) ↦ inl (
          record { emitted = []; finish = gives o },
          rw (poll_loop, s) refl,
          subst (StepOk (rounds i).poll) s ok_step,
        )
        | inr (inl s) ↦ elim (poll_loop_ends n (i + 1) j (omega arith) h) [
          | inl done ↦ inl (goes_on-Ended (suc n) i j s done)
          | inr hang ↦ inr (goes_on-Hangs i j s hang)
        ]
        | inr (inr (inl (c, m, s))) ↦ elim (poll_loop_ends n (i + 1) j (omega arith) h) [
          | inl done ↦ inl (emits-Ended (suc n) i j c m s done)
          | inr hang ↦ inr (emits-Hangs i j c m s hang)
        ]
        | inr (inr (inr (inl s))) ↦ inr (blocks-Hangs i j earlier s)
        | inr (inr (inr (inr (x, s)))) ↦ inl (
          record { emitted = []; finish = escapes x },
          rw (poll_loop, s) refl,
          (i, earlier, subst (StepOk (rounds i).poll) s ok_step),
        )
      ]

-- A run with a positive budget ends by the first round in which the clock reads the deadline,
-- unless the child begins a message in an earlier round and never completes it, in which case the
-- run has no end with any fuel. It ends with an outcome that holds either a report or an error, and
-- is timed out just when it overran; or an exception escapes, and then a message before that round
-- is no JSON or is cut off.
pub run_engine-ends :
    (budget started j : ℕ) (rounds : ℕ → Round) (fuel : ℕ)
    → 0 < budget
    → started + budget ≤ (rounds j).now
    → ((r : Ran) × (run_engine (suc j) budget started rounds ≡ ok (some r))
        × Finished (started + budget) rounds j r.finish)
      ⊎ (Stalls (started + budget) rounds j × (run_engine fuel budget started rounds ≡ ok none))
unfolding run_engine
run_engine-ends budget started j rounds fuel h late =
    let positive : (budget == 0) ≡ false = ground arith in
    elim (poll_loop_ends (started + budget) rounds j 0 j (omega arith) late) [
      | inl (r, e, g) ↦ inl (r, rw (positive, e) refl, g)
      | inr (stall, never) ↦ inr (stall, rw (positive, never fuel) refl)
    ]
