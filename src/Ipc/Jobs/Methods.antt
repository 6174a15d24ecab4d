-- ===== src/Ipc/Jobs/Methods.antt =====
-- ipc/jobs.go: `Start`, the methods that end a job, the readers and `CancelAll`.
use cliamp.Base.{
  ℕ, Bool, true, false, ◌||◌, Option, none, some, List, [], ◌∷◌, ◌++◌, ltb, if◌then◌else◌, length,
}
use cliamp.Base.Results.{Result, success, failure}
use Prim.Native.String.{String}
use text.Mathlib.Text.{◌==◌ as str_eq}
use cliamp.Ipc.Jobs.{
  canceled, Job, JobError, JobEvent, JobState, JobStore, Stored, V2Error, canceled_error,
  event_kind, failed, find_job, invalid_job_result, invalid_job_state, is_terminal, job_not_found,
  prune_expired, queued, running, succeeded, update_job,
}

-- `Start` on a job that is found in this state.
unfoldable pub start_found :
    {S : Type 0} → JobState → ℕ → ℕ → Stored S → JobStore S → JobStore S × Result JobError ℕ
unfolding update_job
start_found queued id later j p = (
  record p {
    jobs = update_job id (λ k. record k { state = running; started_at = some later }) p.jobs;
  },
  success j.ctx,
)
start_found _ id later j p = (p, failure invalid_job_state)

-- `Start`: the context of the job, which runs from then on.
unfoldable pub start : {S : Type 0} → ℕ → ℕ → ℕ → JobStore S → JobStore S × Result JobError ℕ
unfolding prune_expired find_job start_found
start id now later s =
    let p = prune_expired now s in
    elim (find_job id p.jobs) [
      | none ↦ (p, failure job_not_found)
      | some j ↦ start_found j.job.state id later j p
    ]

-- The outcome that `finish` records.
pub record Ending (S : Type 0) : Type 0 where
  pub state : JobState
  pub result : Option String
  pub snapshot : Option S
  pub error : Option V2Error

abbrev pub ended : {S : Type 0} → Ending S → ℕ → Job S → Job S
ended e at j = record j {
  state = e.state;
  finished_at = some at;
  result = e.result;
  snapshot = e.snapshot;
  error = e.error;
}

-- The test of `finish` on the job's state: a cancel ends a queued or a running job, all else a
-- running one.
unfoldable pub may_end : JobState → JobState → Bool
may_end canceled queued = true
may_end _ running = true
may_end _ _ = false

-- `finish` up to the unlock, with the event to send.
unfoldable pub finish_locked :
    {S : Type 0} → ℕ → Ending S → ℕ → ℕ → JobStore S → JobStore S × Result JobError (JobEvent S)
unfolding prune_expired find_job update_job may_end
finish_locked id e now later s =
    let p = prune_expired now s in
    elim (find_job id p.jobs) [
      | none ↦ (p, failure job_not_found)
      | some j ↦
          if may_end e.state j.job.state
          then (
            record p {
              jobs = update_job id (ended e later) p.jobs;
              canceled = p.canceled ++ j.ctx ∷ [];
            },
            success (record { kind = event_kind e.state; job = ended e later j.job }),
          )
          else (p, failure invalid_job_state)
    ]

-- The `select` behind it: an event is dropped when the channel is full.
unfoldable pub emit : {S : Type 0} → JobEvent S → JobStore S → JobStore S
emit event s =
    if ltb (length s.events) s.capacity then record s { events = s.events ++ event ∷ [] } else s

-- The rest of `finish` behind the unlock.
unfoldable pub send :
    {S : Type 0} → Result JobError (JobEvent S) → JobStore S → JobStore S × Option JobError
unfolding emit
send (failure x) s = (s, some x)
send (success event) s = (emit event s, none)

-- `finish`, undisturbed.
unfoldable pub finish :
    {S : Type 0} → ℕ → Ending S → ℕ → ℕ → JobStore S → JobStore S × Option JobError
unfolding finish_locked send
finish id e now later s = let r = finish_locked id e now later s in send r.1 r.0

-- What `Succeed`, `SucceedSnapshot`, `SucceedWithSnapshot`, `Fail` and `Cancel` ask of `finish`.
pub data Request (S : Type 0) : Type 0 where
  succeeds : String → Request S
  succeeds_snapshot : S → Request S
  succeeds_with_snapshot : String → S → Request S
  fails : V2Error → Request S
  cancels : Request S

-- `cloneRawMessage`: an empty message becomes nil.
abbrev clone_raw_message : String → Option String
clone_raw_message text = if str_eq text "" then none else some text

-- The checks before `finish`, with `json.Valid` as a parameter.
unfoldable pub ending : {S : Type 0} → (String → Bool) → Request S → Result JobError (Ending S)
ending valid (succeeds text) =
    if str_eq text "" || valid text
    then success (record {
      state = succeeded;
      result = clone_raw_message text;
      snapshot = none;
      error = none;
    })
    else failure invalid_job_result
ending valid (succeeds_snapshot shot) =
    success (record { state = succeeded; result = none; snapshot = some shot; error = none })
ending valid (succeeds_with_snapshot text shot) =
    if str_eq text "" || valid text
    then success (record {
      state = succeeded;
      result = clone_raw_message text;
      snapshot = some shot;
      error = none;
    })
    else failure invalid_job_result
ending valid (fails e) =
    if str_eq e.code "" || str_eq e.message ""
    then failure invalid_job_result
    else success (record { state = failed; result = none; snapshot = none; error = some e })
ending valid cancels =
    success
      (record { state = canceled; result = none; snapshot = none; error = some canceled_error })

-- `Succeed`, `SucceedSnapshot`, `SucceedWithSnapshot`, `Fail` and `Cancel`.
unfoldable pub conclude :
    {S : Type 0}
    → (String → Bool)
    → ℕ
    → Request S
    → ℕ
    → ℕ
    → JobStore S
    → JobStore S × Option JobError
unfolding ending finish
conclude valid id r now later s = elim (ending valid r) [
  | failure x ↦ (s, some x)
  | success e ↦ finish id e now later s
]

-- `Get`.
unfoldable pub get : {S : Type 0} → ℕ → ℕ → JobStore S → JobStore S × Option (Job S)
unfolding prune_expired find_job
get id now s =
    let p = prune_expired now s in
    (p, elim (find_job id p.jobs) [ none ↦ none | some j ↦ some j.job ])

-- `Context`.
unfoldable pub context : {S : Type 0} → ℕ → ℕ → JobStore S → JobStore S × Option ℕ
unfolding prune_expired find_job
context id now s =
    let p = prune_expired now s in
    (p, elim (find_job id p.jobs) [ none ↦ none | some j ↦ some j.ctx ])

-- A receive from `Events()`.
unfoldable pub receive : {S : Type 0} → JobStore S → JobStore S
receive s = elim s.events [ [] ↦ s | e ∷ es ↦ record s { events = es } ]

-- The first part of `CancelAll`: the jobs that are not terminal.
unfoldable pub active_ids : {S : Type 0} → List (Stored S) → List ℕ
active_ids [] = []
active_ids (j ∷ jobs) =
    let rest = active_ids jobs in if is_terminal j.job.state then rest else j.job.id ∷ rest

-- The second part, undisturbed: the readings of the clock in `Cancel` are those for the identifier.
unfoldable pub cancel_each : {S : Type 0} → (ℕ → ℕ × ℕ) → List ℕ → JobStore S → JobStore S
unfolding conclude
cancel_each clock [] s = s
cancel_each clock (id ∷ ids) s =
    cancel_each clock ids (conclude (λ t. true) id cancels (clock id).0 (clock id).1 s).0

-- `CancelAll`.
unfoldable pub cancel_all : {S : Type 0} → (ℕ → ℕ × ℕ) → JobStore S → JobStore S
unfolding active_ids cancel_each
cancel_all clock s = cancel_each clock (active_ids s.jobs) s
