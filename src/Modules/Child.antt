-- ===== src/Modules/Child.antt =====
-- modules/execution.py, the side of the child: the lines that it writes on the pipe.
pub mod Pipe
use testing_platform_backend.Modules.Execution.{
  Line, Message, error_kind, object, progress_kind, result_kind,
}
use testing_platform_backend.Prelude.{List, Option, Result, [], err, none, ok, some, ℕ, ◌++◌, ◌∷◌}

-- What an engine returns to `_child_main`: a dataclass or a mapping, by a number, or another object;
-- or it raises, a failed import included.
pub data Returned : Type 0 where
  returned_report : ℕ → Returned
  returned_other : Message → Returned
  raised : Message → Message → Returned

-- `" ".join(...)`
unfoldable pub join_spaces : List Message → Message
join_spaces [] = []
join_spaces (m ∷ []) = m
join_spaces (m ∷ n ∷ ms) = m ++ (32 ∷ join_spaces (n ∷ ms))

abbrev pub present : List (Option Message) → List Message
present [] = []
present (none ∷ args) = present args
present (some a ∷ args) = a ∷ present args

abbrev pub or_channel : Message → Message → Message
or_channel channel [] = channel
or_channel channel (c ∷ m) = c ∷ m

-- the line that `_progress_writer` writes for one call
unfoldable pub progress_line : Message → List (Option Message) → Line
unfolding join_spaces
progress_line channel args = object (record {
  kind = some progress_kind;
  channel = some channel;
  message = some (or_channel channel (join_spaces (present args)));
  error_type = none;
  report = none;
})

abbrev pub error_line : Message → Message → Line
error_line t m = object (record {
  kind = some error_kind;
  channel = none;
  message = some m;
  error_type = some t;
  report = none;
})

abbrev pub result_line : ℕ → Line
result_line value = object (record {
  kind = some result_kind;
  channel = none;
  message = none;
  error_type = none;
  report = some (some value);
})

-- the line of a report that was marshalled, or whose marshalling raised
abbrev pub marshalled_line : Result (Message × Message) ℕ → Line
marshalled_line (err (t, m)) = error_line t m
marshalled_line (ok value) = result_line value

-- What `asdict` or `dict`, `json.dumps` with `default=str` and then `json.loads` make of a report: a
-- JSON value, or the type and the text of the exception.
abbrev pub Marshal : Type 0
Marshal = ℕ → Result (Message × Message) ℕ

-- the last line of the child
unfoldable pub last_line : Marshal → (Message → Message) → Returned → Line
last_line marshal type_error_message (returned_report r) = marshalled_line (marshal r)
last_line marshal type_error_message (returned_other t) =
    error_line (84 ∷ 121 ∷ 112 ∷ 101 ∷ 69 ∷ 114 ∷ 114 ∷ 111 ∷ 114 ∷ []) (type_error_message t)
last_line marshal type_error_message (raised t m) = error_line t m

-- the lines of `_child_main`: one for each call of a callback, then the last one
unfoldable pub child_main :
    Marshal → (Message → Message) → List (Message × List (Option Message)) → Returned → List Line
unfolding progress_line last_line
child_main marshal type_error_message [] r = last_line marshal type_error_message r ∷ []
child_main marshal type_error_message ((c, args) ∷ calls) r =
    progress_line c args ∷ child_main marshal type_error_message calls r
