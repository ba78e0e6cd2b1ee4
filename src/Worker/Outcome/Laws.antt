-- ===== src/Worker/Outcome/Laws.antt =====
-- The counting rule of `derive_job_outcome` against the rule that the state diagram states in words
-- (the docstring of worker/orchestration.py).
use mathlib.Core.List.{Perm}
use mathlib.Core.Logic.{∥∥₁_elim}
use testing_platform_backend.Core.Enums.{ScanJobStatus, ScanTaskStatus}
use testing_platform_backend.Prelude.{
  All, All-map, All-not_any, Bool-cases, List, Option, Some, Some-map, [], any, any-Some, any-perm,
  arith, count, count-perm, count_full, count_not_full, count_pos, count_zero, false, if◌then◌else◌,
  inl, inr, is_some, length, length-perm, none, not, not_any-All, refl, some, some-injective, subst,
  true, ◌==◌, ◌||◌, ◌∷◌, ◌≡◌, ◌≢◌,
}
use testing_platform_backend.Worker.Models.{
  Reason, job_canceled, job_no_usable_results, job_tasks_incomplete,
}
use testing_platform_backend.Worker.Outcome.{Outcome, derive_job_outcome, override}
use testing_platform_backend.Worker.Status.{task_is_canceled, task_is_completed, task_is_terminal}

-- What the children of a job in a terminal state have in common.
abbrev pub Verdict : ScanJobStatus → List ScanTaskStatus → Type 0
Verdict ScanJobStatus.completed ss = All (λ s. s ≡ ScanTaskStatus.completed) ss
Verdict ScanJobStatus.partial ss =
    Some (λ s. s ≡ ScanTaskStatus.completed) ss × Some (λ s. s ≢ ScanTaskStatus.completed) ss
Verdict ScanJobStatus.canceled ss =
    All (λ s. s ≢ ScanTaskStatus.completed) ss × Some (λ s. s ≡ ScanTaskStatus.canceled) ss
Verdict ScanJobStatus.failed ss =
    All (λ s. (s ≢ ScanTaskStatus.completed) × (s ≢ ScanTaskStatus.canceled)) ss
Verdict ScanJobStatus.queued ss = ⊥
Verdict ScanJobStatus.running ss = ⊥

-- The reason that goes with a state when no cause of the job overrides it.
abbrev pub default_reason : ScanJobStatus → Option Reason
default_reason ScanJobStatus.partial = some job_tasks_incomplete
default_reason ScanJobStatus.canceled = some job_canceled
default_reason ScanJobStatus.failed = some job_no_usable_results
default_reason _ = none

completed_of : (s : ScanTaskStatus) → task_is_completed s ≡ true → s ≡ ScanTaskStatus.completed
completed_of ScanTaskStatus.completed h = refl
completed_of _ h = cc

not_completed_of : (s : ScanTaskStatus) → task_is_completed s ≡ false → s ≢ ScanTaskStatus.completed
not_completed_of s h e = ground arith

canceled_of : (s : ScanTaskStatus) → task_is_canceled s ≡ true → s ≡ ScanTaskStatus.canceled
canceled_of ScanTaskStatus.canceled h = refl
canceled_of _ h = cc

not_canceled_of : (s : ScanTaskStatus) → task_is_canceled s ≡ false → s ≢ ScanTaskStatus.canceled
not_canceled_of s h e = ground arith

both :
    (ss : List ScanTaskStatus)
    → All (λ s. task_is_completed s ≡ false) ss
    → All (λ s. task_is_canceled s ≡ false) ss
    → All (λ s. (s ≢ ScanTaskStatus.completed) × (s ≢ ScanTaskStatus.canceled)) ss
both [] h k = tt
both (s ∷ ss) h k = ((not_completed_of s h.0, not_canceled_of s k.0), both ss h.1 k.1)

All-completed :
    (ss : List ScanTaskStatus)
    → count task_is_completed ss ≡ length ss
    → All (λ s. s ≡ ScanTaskStatus.completed) ss
All-completed ss h =
    All-map (λ s. task_is_completed s ≡ true) (λ s. s ≡ ScanTaskStatus.completed) ss completed_of
      (count_full task_is_completed ss h)

none_completed :
    (ss : List ScanTaskStatus)
    → count task_is_completed ss ≡ 0
    → All (λ s. s ≢ ScanTaskStatus.completed) ss
none_completed ss h =
    All-map (λ s. task_is_completed s ≡ false) (λ s. s ≢ ScanTaskStatus.completed) ss
      not_completed_of (count_zero task_is_completed ss h)

-- The three ways on, once all the children are terminal.
abbrev completed_or_not : List ScanTaskStatus → Option Reason → Option Outcome
completed_or_not ss o =
    if count task_is_completed ss == length ss
    then some (ScanJobStatus.completed, o)
    else if not (count task_is_completed ss == 0)
    then some (ScanJobStatus.partial, override o job_tasks_incomplete)
    else if any task_is_canceled ss
    then some (ScanJobStatus.canceled, override o job_canceled)
    else some (ScanJobStatus.failed, override o job_no_usable_results)

settled :
    (ss : List ScanTaskStatus) (rest : Option Outcome) {out : Outcome}
    → (if length ss == 0 || any (λ s. not (task_is_terminal s)) ss then none else rest) ≡ some out
    → All (λ s. task_is_terminal s ≡ true) ss × (rest ≡ some out)
settled ss rest h = elim (Bool-cases (length ss == 0 || any (λ s. not (task_is_terminal s)) ss)) [
  | inl y ↦ ground arith
  | inr n ↦ (
    All-map (λ s. not (task_is_terminal s) ≡ false) (λ s. task_is_terminal s ≡ true) ss
        (λ s e. ground arith) (not_any-All (λ s. not (task_is_terminal s)) ss (ground arith)),
    rw n at h,
  )
]

nonempty :
    (ss : List ScanTaskStatus) (o : Option Reason) (st : ScanJobStatus) (r : Option Reason)
    → derive_job_outcome ss o ≡ some (st, r)
    → ss ≢ []
unfolding derive_job_outcome
nonempty [] o st r h e = cc
nonempty (s ∷ ss) o st r h e = cc

abbrev Decided : List ScanTaskStatus → Option Reason → Outcome → Type 0
Decided ss o out = Verdict out.0 ss × (out.1 ≡ (if is_some o then o else default_reason out.0))

override_lem : (o : Option Reason) (d : Reason) → override o d ≡ (if is_some o then o else some d)
override_lem none d = refl
override_lem (some r) d = refl

kept : (o : Option Reason) → o ≡ (if is_some o then o else none)
kept none = refl
kept (some r) = refl

Some-canceled :
    (ss : List ScanTaskStatus)
    → any task_is_canceled ss ≡ true
    → Some (λ s. s ≡ ScanTaskStatus.canceled) ss
Some-canceled ss h =
    Some-map (λ s. task_is_canceled s ≡ true) (λ s. s ≡ ScanTaskStatus.canceled) ss canceled_of
      (any-Some task_is_canceled ss h)

partly_completed :
    (ss : List ScanTaskStatus)
    → count task_is_completed ss ≢ 0
    → count task_is_completed ss ≢ length ss
    → Verdict ScanJobStatus.partial ss
partly_completed ss h k = (
  Some-map (λ s. task_is_completed s ≡ true) (λ s. s ≡ ScanTaskStatus.completed) ss completed_of
      (count_pos task_is_completed ss h),
  Some-map (λ s. task_is_completed s ≡ false) (λ s. s ≢ ScanTaskStatus.completed) ss
      not_completed_of (count_not_full task_is_completed ss k),
)

decided :
    (ss : List ScanTaskStatus) (o : Option Reason) (st : ScanJobStatus) (r : Option Reason)
    → completed_or_not ss o ≡ some (st, r)
    → Decided ss o (st, r)
decided ss o st r h = elim (Bool-cases (count task_is_completed ss == length ss)) [
  | inl y ↦
      subst (Decided ss o) (some-injective _ _ (rw y at h))
        (All-completed ss (ground arith), kept o)
  | inr n ↦ elim (Bool-cases (count task_is_completed ss == 0)) [
    | inl z ↦ elim (Bool-cases (any task_is_canceled ss)) [
      | inl c ↦
          subst (Decided ss o) (some-injective _ _ (rw (n, z, c) at h))
            ((none_completed ss (ground arith), Some-canceled ss c), override_lem o job_canceled)
      | inr c ↦ subst (Decided ss o) (some-injective _ _ (rw (n, z, c) at h)) (
        both ss (count_zero task_is_completed ss (ground arith))
            (not_any-All task_is_canceled ss c),
        override_lem o job_no_usable_results,
      )
    ]
    | inr z ↦
        subst (Decided ss o) (some-injective _ _ (rw (n, z) at h))
          (partly_completed ss (ground arith) (ground arith), override_lem o job_tasks_incomplete)
  ]
]

-- Every outcome is right: all the children are terminal, there is one, and the state and the reason
-- are those of the rule.
pub derive_job_outcome-Verdict :
    (ss : List ScanTaskStatus) (o : Option Reason) (st : ScanJobStatus) (r : Option Reason)
    → derive_job_outcome ss o ≡ some (st, r)
    → (ss ≢ [])
      × All (λ s. task_is_terminal s ≡ true) ss
      × Verdict st ss
      × (r ≡ (if is_some o then o else default_reason st))
unfolding derive_job_outcome
derive_job_outcome-Verdict ss o st r h =
    let (terminal, f) = settled ss (completed_or_not ss o) h in
    let (v, e) = decided ss o st r f in (λ empty. nonempty ss o st r h empty, terminal, v, e)

decision :
    (ss : List ScanTaskStatus) (o : Option Reason)
    → (out : Outcome) × (completed_or_not ss o ≡ some out)
decision ss o = elim (Bool-cases (count task_is_completed ss == length ss)) [
  | inl y ↦ ((ScanJobStatus.completed, o), rw y)
  | inr n ↦ elim (Bool-cases (count task_is_completed ss == 0)) [
    | inl z ↦ elim (Bool-cases (any task_is_canceled ss)) [
      | inl c ↦ ((ScanJobStatus.canceled, override o job_canceled), rw (n, z, c))
      | inr c ↦ ((ScanJobStatus.failed, override o job_no_usable_results), rw (n, z, c))
    ]
    | inr z ↦ ((ScanJobStatus.partial, override o job_tasks_incomplete), rw (n, z))
  ]
]

-- As long as there is a child and all the children are terminal, the job has an outcome.
pub derive_job_outcome-total :
    (ss : List ScanTaskStatus) (o : Option Reason)
    → ss ≢ []
    → All (λ s. task_is_terminal s ≡ true) ss
    → (out : Outcome) × (derive_job_outcome ss o ≡ some out)
unfolding derive_job_outcome
derive_job_outcome-total [] o n h = absurd (n refl)
derive_job_outcome-total (s ∷ ss) o n h =
    let (out, e) = decision (s ∷ ss) o in
    let t : any (λ s. not (task_is_terminal s)) (s ∷ ss) ≡ false =
      All-not_any (λ s. not (task_is_terminal s)) (s ∷ ss)
        (All-map (λ s. task_is_terminal s ≡ true) (λ s. not (task_is_terminal s) ≡ false) (s ∷ ss)
          (λ s e. ground arith) h) in
    let full : (length (s ∷ ss) == 0) ≡ false = ground arith in (out, rw (full, t) e)

-- The order in which the children are read does not matter.
derive_job_outcome-perm :
    (xs ys : List ScanTaskStatus) (o : Option Reason)
    → Perm xs ys
    → derive_job_outcome xs o ≡ derive_job_outcome ys o
unfolding derive_job_outcome
derive_job_outcome-perm xs ys o p =
    let Outcome-set : IsSet (Option Outcome) = hlevel in
    ∥∥₁_elim p (Outcome-set _ _) λ q. rw (
      length-perm q,
      any-perm (λ s. not (task_is_terminal s)) q,
      count-perm task_is_completed q,
      any-perm task_is_canceled q,
    )
