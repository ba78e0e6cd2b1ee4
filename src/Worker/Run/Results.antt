-- ===== src/Worker/Run/Results.antt =====
-- Which results are stored: those of completed tasks.
use testing_platform_backend.Core.Enums.{ScanTaskStatus}
use testing_platform_backend.Modules.Findings.{ModuleResult}
use testing_platform_backend.Modules.Rows.{scan_result_row}
use testing_platform_backend.Prelude.{
  All, All-append, All-map, Bool-cases, Grows-modify, Grows-refl, Option, Option-cases, Result,
  Result-cases, Some, Some-Grows, Some-modify, [], ap, false, find, find-modify, find_holds, inl,
  inr, is_some, none, ok, refl, some, some-injective, subst, sym, true, ℕ, ◌++◌, ◌∙◌, ◌∷◌, ◌≡◌, ◌≢◌,
  ◌⊎◌,
}
use testing_platform_backend.Worker.Db.{Db, External, Session, StoredResult, is_task}
use testing_platform_backend.Worker.Evolution.{
  DbEvolves, DbEvolves-refl, JobEvolves, JobEvolves-refl, TaskEvolves, TaskEvolves-refl,
}
use testing_platform_backend.Worker.Finalize.{persist_result}
use testing_platform_backend.Worker.Models.{Reason, ScanTask}
use testing_platform_backend.Worker.Run.{
  RecordEnd, closed_meanwhile, final_outcome, record_outcome, recorded, store_outcome, vanished,
}
use testing_platform_backend.Worker.Run.Record.{
  finished_row, finished_row-TaskEvolves, record_outcome-Recording, recorded_db,
  store_outcome-keeps,
}
use testing_platform_backend.Worker.Status.{JobStateOk, TaskStateOk, task_is_terminal}

-- a completed task whose result this is
abbrev pub OwnedBy : StoredResult → ScanTask → Type 0
OwnedBy res t = (t.id ≡ res.row.scan_task_id) × (t.status ≡ ScanTaskStatus.completed)

-- Every stored result belongs to a completed task.
abbrev pub ResultsOwned : Db → Type 0
ResultsOwned db = All (λ res. Some (OwnedBy res) db.tasks) db.results

OwnedBy-TaskEvolves :
    (res : StoredResult) (t u : ScanTask) → OwnedBy res t → TaskEvolves t u → OwnedBy res u
OwnedBy-TaskEvolves res t u h k = subst (OwnedBy res) (sym (k.frozen (ap task_is_terminal h.1))) h

-- The results that are there stay owned, whatever a transaction does to the rows.
pub results_stay_owned :
    (before after : Db)
    → DbEvolves before after
    → ResultsOwned before
    → All (λ res. Some (OwnedBy res) after.tasks) before.results
results_stay_owned before after d h =
    All-map (λ res. Some (OwnedBy res) before.tasks) (λ res. Some (OwnedBy res) after.tasks)
      before.results
      (λ res k.
        Some-Grows TaskEvolves TaskStateOk (OwnedBy res) (OwnedBy-TaskEvolves res) before.tasks
          after.tasks k d.tasks_evolve)
      h

module _ (s : Session) (task_id : ℕ) (x : External) (outcome : Result Reason ModuleResult)
    (finished : ℕ) (db : Db) where
  abbrev pub new_result : ScanTask → ModuleResult → StoredResult
  new_result t r = record {
    id = x.uuid7 db.drawn;
    row = scan_result_row r t.id finished t.organization_id;
  }

  -- a result and its findings are stored with the outcome `completed`, and with no other
  abbrev pub Storing : ScanTask → Type 0
  Storing t =
      (((final_outcome t outcome).0 ≢ ScanTaskStatus.completed)
        × ((store_outcome x t outcome finished db).results ≡ db.results)
        × ((store_outcome x t outcome finished db).findings ≡ db.findings))
      ⊎ ((r : ModuleResult) × ((final_outcome t outcome).0 ≡ ScanTaskStatus.completed)
          × (outcome ≡ ok r)
          × ((store_outcome x t outcome finished db).results ≡ db.results ++ new_result t r ∷ []))

  store_outcome-Storing : (t : ScanTask) → Storing t
  unfolding persist_result
  store_outcome-Storing t = elim (Bool-cases (is_some t.cancellation_requested_at)) [
    | inl y ↦ rw y (inl ((λ e. cc), refl, refl))
    | inr n ↦ elim (Result-cases outcome) [
      | inl (e, f) ↦ rw (n, f) (inl ((λ e. cc), refl, refl))
      | inr (r, f) ↦ rw (n, f) (inr (r, refl, refl, refl))
    ]
  ]

  recorded_db-DbEvolves :
      (t : ScanTask)
      → find (is_task s task_id) db.tasks ≡ some t
      → task_is_terminal t.status ≡ false
      → DbEvolves db (recorded_db s task_id x outcome finished db t)
  recorded_db-DbEvolves t f live =
      let (a, b) = store_outcome-keeps s task_id x outcome finished db t in
      record {
        tasks_evolve = rw a (
            Grows-modify TaskEvolves TaskStateOk TaskEvolves-refl (is_task s task_id)
              (λ _. finished_row t outcome finished) db.tasks
              λ v g.
                subst (λ w. TaskEvolves w (finished_row t outcome finished))
                  (some-injective _ _ (sym f ∙ g))
                  (finished_row-TaskEvolves s task_id x outcome finished db t live));
        jobs_evolve = rw b (Grows-refl JobEvolves JobStateOk JobEvolves-refl db.jobs);
      }

  pub record_outcome-DbEvolves : DbEvolves db (record_outcome s task_id x outcome finished db).1
  record_outcome-DbEvolves = elim (record_outcome-Recording s task_id x outcome finished db) [
    | inl (n, e) ↦ rw e (DbEvolves-refl db)
    | inr (inl (t, f, y, e)) ↦ rw e (DbEvolves-refl db)
    | inr (inr (t, f, live, e)) ↦ rw e (recorded_db-DbEvolves t f live)
  ]

  recorded_db-ResultsOwned :
      (t : ScanTask)
      → find (is_task s task_id) db.tasks ≡ some t
      → task_is_terminal t.status ≡ false
      → ResultsOwned db
      → ResultsOwned (recorded_db s task_id x outcome finished db t)
  unfolding scan_result_row
  recorded_db-ResultsOwned t f live h =
      let after = recorded_db s task_id x outcome finished db t in
      let stay = results_stay_owned db after (recorded_db-DbEvolves t f live) h in
      elim (store_outcome-Storing t) [
        | inl (n, e, g) ↦ rw e stay
        | inr (r, c, o, e) ↦
            let (a, b) = store_outcome-keeps s task_id x outcome finished db t in
            let mine : Some (OwnedBy (new_result t r)) after.tasks = rw a (
              Some-modify (OwnedBy (new_result t r)) (is_task s task_id)
                (λ _. finished_row t outcome finished) db.tasks f (refl, c)) in
            rw e (
              All-append (λ res. Some (OwnedBy res) after.tasks) db.results (new_result t r ∷ [])
                stay (mine, tt))
      ]

  -- Recording an outcome stores no result for a task that does not complete: if every stored result
  -- belonged to a completed task before, it does so after.
  pub record_outcome-ResultsOwned :
      ResultsOwned db → ResultsOwned (record_outcome s task_id x outcome finished db).1
  record_outcome-ResultsOwned h = elim (record_outcome-Recording s task_id x outcome finished db) [
    | inl (n, e) ↦ rw e h
    | inr (inl (t, f, y, e)) ↦ rw e h
    | inr (inr (t, f, live, e)) ↦ rw e (recorded_db-ResultsOwned t f live h)
  ]

  -- what a recorded end says of the row `t`, of its results and of its findings
  abbrev pub Ended : ScanTaskStatus → Option Reason → ScanTask → Db → Type 0
  Ended st reason t after =
      ((st ≡ ScanTaskStatus.completed)
        × (reason ≡ none)
        × (t.cancellation_requested_at ≡ none)
        × ((r : ModuleResult) × (outcome ≡ ok r)
            × (after.results ≡ db.results ++ new_result t r ∷ [])))
      ⊎ ((st ≢ ScanTaskStatus.completed)
          × (is_some reason ≡ true)
          × (after.results ≡ db.results)
          × (after.findings ≡ db.findings))

  recorded_db-Ended :
      (t : ScanTask)
      → Ended
          (final_outcome t outcome).0
          (final_outcome t outcome).1
          t
          (recorded_db s task_id x outcome finished db t)
  unfolding persist_result
  recorded_db-Ended t = elim (Option-cases t.cancellation_requested_at) [
    | inr (at, y) ↦ rw y (inr ((λ e. cc), refl, refl, refl))
    | inl n ↦ elim (Result-cases outcome) [
      | inl (e, f) ↦ rw (n, f) (inr ((λ e. cc), refl, refl, refl))
      | inr (r, f) ↦ rw (n, f) (inl (refl, refl, refl, (r, refl, refl)))
    ]
  ]

  recorded_db-found :
      (t : ScanTask)
      → find (is_task s task_id) db.tasks ≡ some t
      → find (is_task s task_id) (recorded_db s task_id x outcome finished db t).tasks
        ≡ some (finished_row t outcome finished)
  recorded_db-found t f =
      let (a, b) = store_outcome-keeps s task_id x outcome finished db t in
      rw a (
        find-modify (is_task s task_id) (λ _. finished_row t outcome finished) db.tasks f
          (find_holds (is_task s task_id) db.tasks f))

  -- An outcome is recorded for a live row only. It is `completed` with the result of the run, for a
  -- row without a request for cancellation, or another state with a reason and nothing stored; the
  -- row then has that state, that reason and the instant.
  pub record_outcome-Ended :
      (st : ScanTaskStatus) (reason : Option Reason) (after : Db)
      → record_outcome s task_id x outcome finished db ≡ (recorded st reason, after)
      → (t : ScanTask) × (find (is_task s task_id) db.tasks ≡ some t)
        × (task_is_terminal t.status ≡ false)
        × Ended st reason t after
        × (find (is_task s task_id) after.tasks
            ≡ some (record t { status = st; status_reason = reason; finished_at = some finished }))
  record_outcome-Ended st reason after h =
      elim (record_outcome-Recording s task_id x outcome finished db) [
        | inl (n, e) ↦
            let z : ◌≡◌ {A = RecordEnd} vanished (recorded st reason) = ap (λ p. p.0) (sym e ∙ h) in
            cc
        | inr (inl (t, f, y, e)) ↦
            let z : ◌≡◌ {A = RecordEnd} (closed_meanwhile t.status) (recorded st reason) =
              ap (λ p. p.0) (sym e ∙ h) in
            cc
        | inr (inr (t, f, live, e)) ↦
            let z : ◌≡◌ {A = RecordEnd}
                (recorded (final_outcome t outcome).0 (final_outcome t outcome).1)
                (recorded st reason) =
              ap (λ p. p.0) (sym e ∙ h) in
            let same_state : (final_outcome t outcome).0 ≡ st = cc in
            let same_reason : (final_outcome t outcome).1 ≡ reason = cc in
            let there : recorded_db s task_id x outcome finished db t ≡ after =
              ap (λ p. p.1) (sym e ∙ h) in
            let ended_there : Ended st reason t after = subst (Ended st reason t) there (
              subst (λ v. Ended st v t (recorded_db s task_id x outcome finished db t)) same_reason
                (subst
                  (λ v.
                    Ended v (final_outcome t outcome).1 t
                      (recorded_db s task_id x outcome finished db t))
                  same_state (recorded_db-Ended t))) in
            let row_there =
              subst (λ w. find (is_task s task_id) w.tasks ≡ some (finished_row t outcome finished))
                there (recorded_db-found t f) in
            (t, f, live, ended_there, row_there ∙ rw (same_state, same_reason) refl)
      ]
