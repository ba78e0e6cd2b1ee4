-- ===== src/Modules/Child/Pipe.antt =====
-- What the child writes on the pipe against what the parent reads from it.
use testing_platform_backend.Modules.Child.{
  Marshal, Returned, child_main, join_spaces, last_line, marshalled_line, or_channel, present,
  progress_line, raised, returned_other, returned_report,
}
use testing_platform_backend.Modules.Execution.{
  EngineOutcome, Line, Message, Round, child_error, emits, ends, failed_run, gives, line, poll_loop,
  read_line, reported, round_step, run_engine,
}
use testing_platform_backend.Prelude.{
  List, Option, Result, [], arith, err, false, leb, length, map, ok, refl, some, suc, ℕ, ◌+◌, ◌<◌,
  ◌==◌, ◌∙◌, ◌∷◌, ◌≡◌,
}
use testing_platform_backend.Text.{text_eq}

module _ (deadline : ℕ) (rounds : ℕ → Round) where
  -- From the `i`th round on, the pipe gives these lines, each before the deadline.
  abbrev pub Feeds : ℕ → List Line → Type 0
  Feeds i [] = Unit
  Feeds i (l ∷ ls) = ((rounds i).poll ≡ line l) × ((rounds i).now < deadline) × Feeds (i + 1) ls

-- the outcome of a report that was marshalled, or whose marshalling raised
abbrev pub marshalled_outcome : Result (Message × Message) ℕ → EngineOutcome
marshalled_outcome (err (t, m)) = failed_run (child_error t m)
marshalled_outcome (ok value) = reported value

marshalled_line_ends :
    (m : Result (Message × Message) ℕ) → read_line (marshalled_line m) ≡ ends (marshalled_outcome m)
unfolding read_line text_eq
marshalled_line_ends (err x) = refl
marshalled_line_ends (ok value) = refl

module _ (marshal : Marshal) (type_error_message : Message → Message) where
  -- What the parent emits for a call of a callback.
  abbrev pub emitted_for : Message × List (Option Message) → Message × Message
  emitted_for (channel, args) = (channel, or_channel channel (join_spaces (present args)))

  -- The outcome that belongs to what the engine did: a report is the JSON value that it is sent as.
  abbrev pub outcome_for : Returned → EngineOutcome
  outcome_for (returned_report r) = marshalled_outcome (marshal r)
  outcome_for (returned_other t) =
      failed_run (
        child_error (84 ∷ 121 ∷ 112 ∷ 101 ∷ 69 ∷ 114 ∷ 114 ∷ 111 ∷ 114 ∷ []) (type_error_message t))
  outcome_for (raised t m) = failed_run (child_error t m)

  last_line_ends :
      (r : Returned) → read_line (last_line marshal type_error_message r) ≡ ends (outcome_for r)
  unfolding read_line last_line text_eq
  last_line_ends (returned_report r) = marshalled_line_ends (marshal r)
  last_line_ends (returned_other t) = refl
  last_line_ends (raised t m) = refl

  progress_line_emits :
      (c : Message) (args : List (Option Message))
      → read_line (progress_line c args) ≡ emits c (or_channel c (join_spaces (present args)))
  unfolding read_line progress_line text_eq
  progress_line_emits c args = refl

  read_in_time :
      (deadline : ℕ) (r : Round) (l : Line)
      → r.poll ≡ line l
      → r.now < deadline
      → round_step deadline r ≡ read_line l
  unfolding round_step
  read_in_time deadline r l p h =
      let early : leb deadline r.now ≡ false = ground arith in rw (early, p) refl

  poll_loop-child_main :
      (deadline : ℕ) (rounds : ℕ → Round) (calls : List (Message × List (Option Message)))
      (r : Returned) (i : ℕ)
      → Feeds deadline rounds i (child_main marshal type_error_message calls r)
      → poll_loop deadline rounds (suc (length calls)) i
        ≡ some (record { emitted = map emitted_for calls; finish = gives (outcome_for r) })
  unfolding poll_loop child_main
  poll_loop-child_main deadline rounds [] r i h =
      let step : round_step deadline (rounds i) ≡ ends (outcome_for r) =
        read_in_time deadline (rounds i) (last_line marshal type_error_message r) h.0 h.1
        ∙ last_line_ends r in
      rw (poll_loop, step) refl
  poll_loop-child_main deadline rounds ((c, args) ∷ calls) r i h =
      let step : round_step deadline (rounds i)
          ≡ emits c (or_channel c (join_spaces (present args))) =
        read_in_time deadline (rounds i) (progress_line c args) h.0 h.1
        ∙ progress_line_emits c args in
      rw (poll_loop, step, poll_loop-child_main deadline rounds calls r (i + 1) h.2) refl

  -- If the lines of the child arrive in time, the run gives back what the engine did: the report
  -- that it returned, as the JSON value that it is sent as, or the error that it raised, that of a
  -- report that cannot be sent included, after exactly the progress of its calls.
  pub run_engine-child_main :
      (budget started : ℕ) (rounds : ℕ → Round) (calls : List (Message × List (Option Message)))
      (r : Returned)
      → 0 < budget
      → Feeds (started + budget) rounds 0 (child_main marshal type_error_message calls r)
      → run_engine (suc (length calls)) budget started rounds
        ≡ ok (some (record { emitted = map emitted_for calls; finish = gives (outcome_for r) }))
  unfolding run_engine
  run_engine-child_main budget started rounds calls r h feeds =
      let positive : (budget == 0) ≡ false = ground arith in
      rw (positive, poll_loop-child_main (started + budget) rounds calls r 0 feeds) refl
