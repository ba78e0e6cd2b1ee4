-- ===== src/Modules/Execution.antt =====
-- modules/execution.py: one engine call in a child process, which the parent bounds by a budget.
pub mod Loop
use testing_platform_backend.Prelude.{
  Bool, List, Option, Result, [], err, false, if◌then◌else◌, inl, inr, is_some, leb, none, not, ok,
  refl, some, suc, true, zero, ℕ, ◌&&◌, ◌++◌, ◌+◌, ◌==◌, ◌∷◌, ◌≡◌, ◌⊎◌,
}
use testing_platform_backend.Text.{text_eq}

-- A text of a message, as a list of code points.
abbrev pub Message : Type 0
Message = List ℕ

-- The keys of a JSON object on the pipe. A report is a JSON value by its number; it may be null.
pub record Fields : Type 0 where
  pub kind : Option Message
  pub channel : Option Message
  pub message : Option Message
  pub error_type : Option Message
  pub report : Option (Option ℕ)

-- A JSON value on the pipe. One that is no object has no keys, which is a `TypeError`.
pub data Line : Type 0 where
  object : Fields → Line
  no_object : ℕ → Line

-- What `json.loads(parent_conn.recv())` raises beside `EOFError`: the error of a text that is no
-- JSON, or the `OSError` of a child that ends within a message.
pub data RecvError : Type 0 where
  undecodable cut_off : RecvError

-- What `parent_conn.poll` and `recv` find: nothing before the deadline, a line, the end of file, a
-- message that cannot be read, or the beginning of one that is never completed.
pub data Poll : Type 0 where
  silence closed stalled : Poll
  line : Line → Poll
  unreadable : RecvError → Poll

-- One round of the loop: the clock at its start and what the pipe then gives.
pub record Round : Type 0 where
  pub now : ℕ
  pub poll : Poll

-- the texts of `EngineOutcome.error`, by what they are made of
pub data EngineError : Type 0 where
  overran_budget exited_without_result : EngineError
  child_error : Message → Message → EngineError
  malformed_message : Line → EngineError

pub record EngineOutcome : Type 0 where
  pub report : Option ℕ
  pub timed_out : Bool
  pub error : Option EngineError

-- `EngineOutcome.ok`
abbrev pub is_ok : EngineOutcome → Bool
is_ok o = is_some o.report && not (is_some o.error) && not o.timed_out

-- `EngineOutcome.unwrap`: `none` as the error is the text for a run without a result
unfoldable pub unwrap : EngineOutcome → Result (Option EngineError) ℕ
unwrap o = elim o.report [ some r ↦ if is_ok o then ok r else err o.error | none ↦ err o.error ]

abbrev pub failed_run : EngineError → EngineOutcome
failed_run e = record { report = none; timed_out = false; error = some e }

abbrev pub overran : EngineOutcome
overran = record { report = none; timed_out = true; error = some overran_budget }

abbrev pub reported : ℕ → EngineOutcome
reported r = record { report = some r; timed_out = false; error = none }

-- What a round does: the loop goes on, having emitted a progress line or nothing, or it ends, or an
-- exception leaves it, or `recv` never returns.
pub data Step : Type 0 where
  emits : Message → Message → Step
  goes_on blocks : Step
  ends : EngineOutcome → Step
  raises : RecvError → Step

pub Step-cases :
    (s : Step)
    → ((o : EngineOutcome) × (s ≡ ends o))
      ⊎ ((s ≡ goes_on)
          ⊎ (((c : Message) × (m : Message) × (s ≡ emits c m))
              ⊎ ((s ≡ blocks) ⊎ ((e : RecvError) × (s ≡ raises e)))))
Step-cases (emits c m) = inr (inr (inl (c, m, refl)))
Step-cases goes_on = inr (inl refl)
Step-cases blocks = inr (inr (inr (inl refl)))
Step-cases (ends o) = inl (o, refl)
Step-cases (raises e) = inr (inr (inr (inr (e, refl))))

abbrev pub progress_kind : Message
progress_kind = 112 ∷ 114 ∷ 111 ∷ 103 ∷ 114 ∷ 101 ∷ 115 ∷ 115 ∷ []

abbrev pub result_kind : Message
result_kind = 114 ∷ 101 ∷ 115 ∷ 117 ∷ 108 ∷ 116 ∷ []

abbrev pub error_kind : Message
error_kind = 101 ∷ 114 ∷ 114 ∷ 111 ∷ 114 ∷ []

-- the branches on a missing key are the `KeyError`s; `message["message"]` is read first
abbrev pub read_progress : Fields → Step
read_progress f = elim f.message [
  | none ↦ ends (failed_run (malformed_message (object f)))
  | some m ↦ elim f.channel [
    | none ↦ ends (failed_run (malformed_message (object f)))
    | some c ↦ emits c m
  ]
]

abbrev pub read_result : Fields → Step
read_result f = elim f.report [
  | none ↦ ends (failed_run (malformed_message (object f)))
  | some value ↦ elim value [ none ↦ goes_on | some r ↦ ends (reported r) ]
]

abbrev pub read_error : Fields → Step
read_error f = elim f.error_type [
  | none ↦ ends (failed_run (malformed_message (object f)))
  | some t ↦ elim f.message [
    | none ↦ ends (failed_run (malformed_message (object f)))
    | some m ↦ ends (failed_run (child_error t m))
  ]
]

-- what the loop does with a line
unfoldable pub read_line : Line → Step
unfolding text_eq
read_line (no_object v) = ends (failed_run (malformed_message (no_object v)))
read_line (object f) = elim f.kind [
  | none ↦ ends (failed_run (malformed_message (object f)))
  | some k ↦
      if text_eq k progress_kind
      then read_progress f
      else if text_eq k result_kind
      then read_result f
      else read_error f
]

abbrev pub read_poll : Poll → Step
read_poll silence = ends overran
read_poll closed = ends (failed_run exited_without_result)
read_poll stalled = blocks
read_poll (line l) = read_line l
read_poll (unreadable e) = raises e

-- one round of the `while` loop of `run_engine`
unfoldable pub round_step : ℕ → Round → Step
unfolding read_line
round_step deadline r = if leb deadline r.now then ends overran else read_poll r.poll

-- how a run ends: with an outcome, or with an exception that escapes once the child is reaped
pub data Finish : Type 0 where
  gives : EngineOutcome → Finish
  escapes : RecvError → Finish

-- the progress lines that a run emitted, and its end
pub record Ran : Type 0 where
  pub emitted : List (Message × Message)
  pub finish : Finish

abbrev pub emit_first : Message × Message → Option Ran → Option Ran
emit_first e none = none
emit_first e (some r) = some (record r { emitted = e ∷ r.emitted })

-- The loop, over the rounds from the `i`th, on fuel: `none` is a run that has not ended yet, and
-- stays so for every fuel when `recv` does not return.
unfoldable pub poll_loop : ℕ → (ℕ → Round) → ℕ → ℕ → Option Ran
unfolding round_step
poll_loop deadline rounds zero i = none
poll_loop deadline rounds (suc fuel) i = elim (round_step deadline (rounds i)) [
  | ends o ↦ some (record { emitted = []; finish = gives o })
  | raises e ↦ some (record { emitted = []; finish = escapes e })
  | blocks ↦ none
  | goes_on ↦ poll_loop deadline rounds fuel (i + 1)
  | emits c m ↦ emit_first (c, m) (poll_loop deadline rounds fuel (i + 1))
]

-- The signals of `_reap`, in order.
pub data Signal : Type 0 where
  group_term terminate join_grace group_kill kill join_end : Signal

-- `_reap` of a child that is alive, or that outlives the grace period
unfoldable pub reap_child : Bool → Bool → List Signal
reap_child is_alive outlives =
    (if is_alive then group_term ∷ terminate ∷ join_grace ∷ [] else [])
    ++ ((if is_alive && outlives then group_kill ∷ kill ∷ [] else []) ++ (join_end ∷ []))

pub data RunError : Type 0 where
  bad_budget : RunError

-- `run_engine`, started at `started`: a budget is a whole number of the clock's ticks
unfoldable pub run_engine : ℕ → ℕ → ℕ → (ℕ → Round) → Result RunError (Option Ran)
unfolding poll_loop
run_engine fuel budget started rounds =
    if budget == 0 then err bad_budget else ok (poll_loop (started + budget) rounds fuel 0)
