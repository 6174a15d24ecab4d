-- ===== src/Ipc/Jobs.antt =====
-- ipc/jobs.go: the bounded store of asynchronous jobs, and ipc/v2.go: the errors that a job carries. A
-- method holds the mutex from its first read of the store to its last write, so it is one step; the
-- send of an event, which `finish` makes behind the mutex, is a step of its own. A map of jobs is the
-- list of its entries in the order of iteration. An identifier, 16 random bytes in hex, is only
-- compared, and is a number here; `newJobID` may fail. A context is a handle, and `canceled` lists the
-- contexts whose cancel function was called. A clock reading is an argument, one for each
-- `time.Now()`, in nanoseconds. The type of the runtime snapshot is a parameter.
pub mod Methods
pub mod Entries
pub mod Invariant
pub mod Transitions
pub mod Eviction
pub mod Admission
pub mod Histories
pub mod Shutdown
use cliamp.Base.{
  ℕ, ◌+◌, ◌≡◌, Bool, true, false, not, ◌&&◌, ◌||◌, Option, none, some, List, [], ◌∷◌, ◌++◌, map,
  ltb, leb, ◌==◌, if◌then◌else◌, length,
}
use cliamp.Base.Results.{Result, success, failure}
use Prim.Native.String.{String}
use text.Mathlib.Text.{◌==◌ as str_eq}

pub data JobState : Type 0 where
  queued running succeeded failed canceled : JobState

pub data JobError : Type 0 where
  job_not_found job_store_full invalid_job_state invalid_job_result random_failed : JobError

pub record V2Error : Type 0 where
  pub code : String
  pub message : String
  pub detail : String

-- `v2Error`.
abbrev v2_error : String → String → V2Error
v2_error code message = record { code = code; message = message; detail = "" }

-- `v2Error(V2ErrorCodeCanceled, V2MessageCanceled)`.
abbrev canceled_error : V2Error
canceled_error = v2_error "canceled" "job canceled"

pub record Job (S : Type 0) : Type 0 where
  pub id : ℕ
  pub operation : String
  pub state : JobState
  pub created_at : ℕ
  pub started_at : Option ℕ
  pub finished_at : Option ℕ
  pub result : Option String
  pub snapshot : Option S
  pub error : Option V2Error

pub record JobEvent (S : Type 0) : Type 0 where
  pub kind : String
  pub job : Job S

-- `storedJob`.
pub record Stored (S : Type 0) : Type 0 where
  pub ctx : ℕ
  pub job : Job S

pub record JobStore (S : Type 0) : Type 0 where
  pub jobs : List (Stored S)
  pub capacity : ℕ
  pub ttl : ℕ
  pub events : List (JobEvent S)
  pub canceled : List ℕ

-- `DefaultJobStoreCapacity`, and `DefaultJobTTL` in nanoseconds.
abbrev default_capacity : ℕ
default_capacity = 256

abbrev default_ttl : ℕ
default_ttl = 900000000000

-- An option of `NewJobStore`: a value that is not positive is ignored.
abbrev option_or : Option ℕ → ℕ → ℕ
option_or none default = default
option_or (some n) default = if ltb 0 n then n else default

-- `NewJobStore`, with the last value of each option.
unfoldable pub new_job_store : {S : Type 0} → Option ℕ → Option ℕ → JobStore S
new_job_store capacity ttl = record {
  jobs = [];
  capacity = option_or capacity default_capacity;
  ttl = option_or ttl default_ttl;
  events = [];
  canceled = [];
}

-- `terminalJobState`.
abbrev pub is_terminal : JobState → Bool
is_terminal queued = false
is_terminal running = false
is_terminal _ = true

abbrev event_kind : JobState → String
event_kind queued = "job.queued"
event_kind running = "job.running"
event_kind succeeded = "job.succeeded"
event_kind failed = "job.failed"
event_kind canceled = "job.canceled"

pub finish_time : {S : Type 0} → Stored S → Option ℕ
finish_time j = if is_terminal j.job.state then j.job.finished_at else none

-- The test of `pruneExpiredLocked`.
is_expired : {S : Type 0} → ℕ → ℕ → Stored S → Bool
unfolding finish_time
is_expired now ttl j = elim (finish_time j) [ none ↦ false | some at ↦ leb (at + ttl) now ]

abbrev drop_where {ℓ} : {A : Type ℓ} → (A → Bool) → List A → List A
drop_where test [] = []
drop_where test (x ∷ xs) = let rest = drop_where test xs in if test x then rest else x ∷ rest

abbrev pick_where {ℓ} : {A : Type ℓ} → (A → Bool) → List A → List A
pick_where test [] = []
pick_where test (x ∷ xs) = let rest = pick_where test xs in if test x then x ∷ rest else rest

-- `pruneExpiredLocked`.
pub prune_expired : {S : Type 0} → ℕ → JobStore S → JobStore S
unfolding is_expired
prune_expired now s = record s {
  jobs = drop_where (is_expired now s.ttl) s.jobs;
  canceled = s.canceled ++ map (λ j. j.ctx) (pick_where (is_expired now s.ttl) s.jobs);
}

-- The loop of `evictTerminalLocked`: the first of the jobs that finished earliest. `none` is the empty
-- `oldestID`, which no job has.
oldest_terminal : {S : Type 0} → Option (ℕ × Stored S) → List (Stored S) → Option (ℕ × Stored S)
unfolding finish_time
oldest_terminal oldest [] = oldest
oldest_terminal oldest (j ∷ jobs) = elim (finish_time j) [
  | none ↦ oldest_terminal oldest jobs
  | some at ↦
      oldest_terminal
        (elim oldest [ none ↦ some (at, j) | some o ↦ if ltb at o.0 then some (at, j) else some o ])
        jobs
]

-- `delete(s.jobs, id)`.
abbrev delete_job : {S : Type 0} → ℕ → List (Stored S) → List (Stored S)
delete_job id = drop_where (λ j. j.job.id == id)

-- `evictTerminalLocked`: `none` if no job is terminal.
unfoldable pub evict_terminal : {S : Type 0} → JobStore S → Option (JobStore S)
unfolding oldest_terminal
evict_terminal s = elim (oldest_terminal none s.jobs) [
  | none ↦ none
  | some o ↦
      some (record s { jobs = delete_job o.1.job.id s.jobs; canceled = s.canceled ++ o.1.ctx ∷ [] })
]

-- `s.jobs[id]`.
unfoldable pub find_job : {S : Type 0} → ℕ → List (Stored S) → Option (Stored S)
find_job id [] = none
find_job id (j ∷ jobs) = if j.job.id == id then some j else find_job id jobs

-- A write through the pointer `s.jobs[id]`.
unfoldable pub update_job : {S : Type 0} → ℕ → (Job S → Job S) → List (Stored S) → List (Stored S)
update_job id f [] = []
update_job id f (j ∷ jobs) =
    let rest = update_job id f jobs in
    if j.job.id == id then record j { job = f j.job } ∷ jobs else j ∷ rest

-- `s.jobs[id] = j`.
unfoldable pub insert_job : {S : Type 0} → Stored S → List (Stored S) → List (Stored S)
insert_job j [] = j ∷ []
insert_job j (k ∷ jobs) =
    let rest = insert_job j jobs in if k.job.id == j.job.id then j ∷ jobs else k ∷ rest

-- The job that `CreateWithContext` makes.
abbrev pub new_job : {S : Type 0} → ℕ → String → ℕ → Job S
new_job id operation created_at = record {
  id = id;
  operation = operation;
  state = queued;
  created_at = created_at;
  started_at = none;
  finished_at = none;
  result = none;
  snapshot = none;
  error = none;
}

-- `CreateWithContext` from the lock on, with the new job and its context. A refused job's context is
-- canceled.
admit : {S : Type 0} → Stored S → ℕ → JobStore S → JobStore S × Result JobError (Job S)
unfolding prune_expired evict_terminal insert_job
admit j now s =
    let p = prune_expired now s in
    if leb p.capacity (length p.jobs)
    then elim (evict_terminal p) [
      | none ↦ (record p { canceled = p.canceled ++ j.ctx ∷ [] }, failure job_store_full)
      | some q ↦ (record q { jobs = insert_job j q.jobs }, success j.job)
    ]
    else (record p { jobs = insert_job j p.jobs }, success j.job)

-- `CreateWithContext`, and `Create`: the readings of the clock are `created_at` and `now`.
unfoldable pub create :
    {S : Type 0} → Option ℕ → ℕ → String → ℕ → ℕ → JobStore S → JobStore S × Result JobError (Job S)
unfolding admit
create id ctx operation created_at now s =
    if str_eq operation "" then (s, failure invalid_job_state) else elim id [
      | none ↦ (s, failure random_failed)
      | some i ↦ admit (record { ctx = ctx; job = new_job i operation created_at }) now s
    ]
