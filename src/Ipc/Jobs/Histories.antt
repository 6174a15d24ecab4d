-- ===== src/Ipc/Jobs/Histories.antt =====
-- ipc/jobs.go: histories of the job store. Any of its methods may be called, in any order; an event of
-- `finish` is sent some time after its job has ended.
use cliamp.Base.{
  ℕ, ◌≤◌, ◌≡◌, refl, ◌∙◌, ◌⊎◌, inl, inr, Bool, true, Option, none, some, List, [], ◌∷◌, ◌++◌, arith,
  ltb, length, length-append, Bool-cases, Option-cases,
}
use cliamp.Base.Results.{Result, success, failure}
use Prim.Native.String.{String}
use text.Mathlib.Text.{◌==◌ as str_eq}
use cliamp.Ipc.Jobs.{
  JobState, queued, running, JobError, Job, JobEvent, Stored, JobStore, new_job_store, is_terminal,
  prune_expired, find_job, create,
}
use cliamp.Ipc.Jobs.Methods.{
  start, start_found, Ending, ended, may_end, finish_locked, emit, Request, succeeds,
  succeeds_snapshot, succeeds_with_snapshot, fails, cancels, ending, get, context, receive,
}
use cliamp.Ipc.Jobs.Entries.{IsDistinct}
use cliamp.Ipc.Jobs.Invariant.{
  IsValid, is_proper, proper, is_set, has-append, prune_expired-IsValid, update_job-IsValid,
}
use cliamp.Ipc.Jobs.Admission.{create-Admission}
use cliamp.Base.{get_elem?, delete}

-- A store, and the events on their way to its channel.
pub record World (S : Type 0) : Type 0 where
  pub store : JobStore S
  pub pending : List (JobEvent S)

pub data Call (S : Type 0) : Type 0 where
  creates : Option ℕ → ℕ → String → ℕ → ℕ → Call S
  starts : ℕ → ℕ → ℕ → Call S
  settles : ℕ → Request S → ℕ → ℕ → Call S
  emits : ℕ → Call S
  receives : Call S
  gets : ℕ → ℕ → Call S
  reads_context : ℕ → ℕ → Call S

-- The event that is to be sent.
abbrev raised : {S : Type 0} → Result JobError (JobEvent S) → List (JobEvent S)
raised (failure x) = []
raised (success event) = event ∷ []

-- A call, with `json.Valid` as a parameter.
unfoldable pub step : {S : Type 0} → (String → Bool) → Call S → World S → World S
step valid (creates id ctx operation created_at now) w = record w {
  store = (create id ctx operation created_at now w.store).0;
}
step valid (starts id now later) w = record w { store = (start id now later w.store).0 }
step valid (settles id r now later) w = elim (ending valid r) [
  | failure x ↦ w
  | success e ↦
      let t = finish_locked id e now later w.store in
      record { store = t.0; pending = w.pending ++ raised t.1 }
]
step valid (emits i) w = elim (get_elem? w.pending i) [
  | none ↦ w
  | some event ↦ record { store = emit event w.store; pending = delete w.pending i }
]
step valid receives w = record w { store = receive w.store }
step valid (gets id now) w = record w { store = (get id now w.store).0 }
step valid (reads_context id now) w = record w { store = (context id now w.store).0 }

unfoldable pub run : {S : Type 0} → (String → Bool) → List (Call S) → World S → World S
run valid [] w = w
run valid (c ∷ calls) w = run valid calls (step valid c w)

-- The world of a new store.
abbrev pub new_world : {S : Type 0} → Option ℕ → Option ℕ → World S
new_world capacity ttl = record { store = new_job_store capacity ttl; pending = [] }

-- An ending that the exported methods ask for.
abbrev pub IsFair : {S : Type 0} → Ending S → Type 0
IsFair e = (proper e.state true true (is_set e.error) ≡ true) × (is_terminal e.state ≡ true)

pub ending-IsFair :
    {S : Type 0} (valid : String → Bool) (r : Request S) (e : Ending S)
    → ending valid r ≡ success e
    → IsFair e
unfolding ending
ending-IsFair valid (succeeds text) e h = ground (arith, h)
ending-IsFair valid (succeeds_snapshot shot) e h = ground (arith, h)
ending-IsFair valid (succeeds_with_snapshot text shot) e h = ground (arith, h)
ending-IsFair valid (fails x) e h = ground (arith, h)
ending-IsFair valid cancels e h = ground (arith, h)

pub ending-cases :
    {S : Type 0} (valid : String → Bool) (r : Request S)
    → ((x : JobError) × (ending valid r ≡ failure x))
      ⊎ ((e : Ending S) × (ending valid r ≡ success e))
ending-cases {S} valid r = split (ending valid r) refl
  where
    split :
        (t : Result JobError (Ending S))
        → ending valid r ≡ t
        → ((x : JobError) × (ending valid r ≡ failure x))
          ⊎ ((e : Ending S) × (ending valid r ≡ success e))
    split (failure x) f = inl (x, f)
    split (success e) f = inr (e, f)

start_found-IsValid :
    {S : Type 0} (state : JobState) (id later : ℕ) (j : Stored S) (p : JobStore S)
    → j.job.state ≡ state
    → IsValid p
    → find_job id p.jobs ≡ some j
    → IsValid (start_found state id later j p).0
unfolding start_found
start_found-IsValid queued id later j p q v e =
    update_job-IsValid id _ p.canceled p j (λ k. refl) v e (λ n h. h)
      (record { fields = ground (arith, (v.entries id j e).fields, q); ctx_closed = λ t. cc })
start_found-IsValid running id later j p q v e = v
start_found-IsValid _ id later j p q v e = v

start-IsValid :
    {S : Type 0} (id now later : ℕ) (s : JobStore S) → IsValid s → IsValid (start id now later s).0
unfolding start
start-IsValid id now later s v =
    let p = prune_expired now s in
    let w = prune_expired-IsValid now s v in
    elim (Option-cases (find_job id p.jobs)) [
      | inl e ↦ rw (e, start) w
      | inr (j, e) ↦ rw (e, start) (start_found-IsValid j.job.state id later j p refl w e)
    ]

-- A job that may end has a start time, unless it is canceled.
ended_fields :
    {S : Type 0} (e : Ending S) (at : ℕ) (j : Job S)
    → IsFair e
    → may_end e.state j.state ≡ true
    → is_proper j ≡ true
    → is_proper (ended e at j) ≡ true
unfolding may_end
ended_fields e at j fair may h = ground (arith, fair, may, h)

pub finish_locked-IsValid :
    {S : Type 0} (id : ℕ) (e : Ending S) (now later : ℕ) (s : JobStore S)
    → IsFair e
    → IsValid s
    → IsValid (finish_locked id e now later s).0
unfolding finish_locked
finish_locked-IsValid id e now later s fair v =
    let p = prune_expired now s in
    let w = prune_expired-IsValid now s v in
    elim (Option-cases (find_job id p.jobs)) [
      | inl f ↦ rw (f, finish_locked) w
      | inr (j, f) ↦ elim (Bool-cases (may_end e.state j.job.state)) [
        | inr stays ↦ rw (f, finish_locked) (rw stays w)
        | inl may ↦
            rw (f, finish_locked)
              (rw may (
                update_job-IsValid id (ended e later) (p.canceled ++ j.ctx ∷ []) p j (λ k. refl) w f
                  (λ n h. has-append n p.canceled (j.ctx ∷ []) ∙ ground (arith, h))
                  (record {
                    fields = ended_fields e later j.job fair may (w.entries id j f).fields;
                    ctx_closed = λ t. has-append j.ctx p.canceled (j.ctx ∷ []) ∙ ground arith;
                  })))
      ]
    ]

pub emit-IsValid : {S : Type 0} (e : JobEvent S) (s : JobStore S) → IsValid s → IsValid (emit e s)
unfolding emit
emit-IsValid e s v = elim (Bool-cases (ltb (length s.events) s.capacity)) [
  | inl room ↦ rw room (record {
    distinct = v.distinct;
    bounded = v.bounded;
    events_bounded = ground (arith, room, length-append s.events (e ∷ []));
    entries = v.entries;
  })
  | inr full ↦ rw full v
]

receive-IsValid : {S : Type 0} (s : JobStore S) → IsValid s → IsValid (receive s)
unfolding receive
receive-IsValid {S} s v = taken s.events v.events_bounded
  where
    taken :
        (es : List (JobEvent S))
        → length es ≤ s.capacity
        → IsValid (elim es as (λ x. JobStore S) [ [] ↦ s | e ∷ rest ↦ record s { events = rest } ])
    taken [] h = v
    taken (e ∷ rest) h = record {
      distinct = v.distinct;
      bounded = v.bounded;
      events_bounded = omega (arith, h);
      entries = v.entries;
    }

create-IsValid :
    {S : Type 0} (id : Option ℕ) (ctx : ℕ) (operation : String) (created_at now : ℕ)
    (s : JobStore S)
    → IsValid s
    → IsValid (create id ctx operation created_at now s).0
unfolding create
create-IsValid id ctx operation created_at now s v = elim (Bool-cases (str_eq operation "")) [
  | inl e ↦ rw e v
  | inr e ↦ elim (Option-cases id) [
    | inl f ↦ rw e (rw f v)
    | inr (i, f) ↦ rw f (create-Admission i ctx operation created_at now s v e).1
  ]
]

-- Any call on a store keeps it well-formed.
step-IsValid :
    {S : Type 0} (valid : String → Bool) (c : Call S) (w : World S)
    → IsValid w.store
    → IsValid (step valid c w).store
unfolding step get context
step-IsValid valid (creates id ctx operation created_at now) w v =
    create-IsValid id ctx operation created_at now w.store v
step-IsValid valid (starts id now later) w v = start-IsValid id now later w.store v
step-IsValid valid (settles id r now later) w v = elim (ending-cases valid r) [
  | inl (x, f) ↦ rw (f, step) v
  | inr (e, f) ↦
      rw (f, step) (finish_locked-IsValid id e now later w.store (ending-IsFair valid r e f) v)
]
step-IsValid valid (emits i) w v = elim (Option-cases (get_elem? w.pending i)) [
  | inl e ↦ rw (e, step) v
  | inr (event, e) ↦ rw (e, step) (emit-IsValid event w.store v)
]
step-IsValid valid receives w v = receive-IsValid w.store v
step-IsValid valid (gets id now) w v = prune_expired-IsValid now w.store v
step-IsValid valid (reads_context id now) w v = prune_expired-IsValid now w.store v

run-IsValid :
    {S : Type 0} (valid : String → Bool) (calls : List (Call S)) (w : World S)
    → IsValid w.store
    → IsValid (run valid calls w).store
unfolding run
run-IsValid valid [] w v = v
run-IsValid valid (c ∷ calls) w v =
    run-IsValid valid calls (step valid c w) (step-IsValid valid c w v)

-- Whatever calls are made on a new store, in whatever order, it stays well-formed: its identifiers
-- differ, it holds at most as many jobs and events as its capacity, each job has the times and
-- the error of its state, and the context of each job that has ended is canceled.
pub run-new-IsValid :
    {S : Type 0} (valid : String → Bool) (capacity ttl : Option ℕ) (calls : List (Call S))
    → IsValid (run valid calls (new_world capacity ttl)).store
unfolding new_job_store IsDistinct find_job
run-new-IsValid valid capacity ttl calls =
    run-IsValid valid calls (new_world capacity ttl) (record {
      distinct = tt;
      bounded = omega arith;
      events_bounded = omega arith;
      entries = λ i j h. absurd (ground (arith, h));
    })
