-- ===== src/Ipc/Jobs/Admission.antt =====
-- ipc/jobs.go: what a full store gives up for a new job.
use cliamp.Base.{
  ℕ, ◌≤◌, ◌<◌, ◌≡◌, refl, inl, inr, false, none, some, List, [], ◌∷◌, arith, leb, length,
  Bool-cases, Option-cases,
}
use cliamp.Base.Results.{Result, success, failure}
use Prim.Native.String.{String}
use text.Mathlib.Text.{◌==◌ as str_eq}
use cliamp.Ipc.Jobs.{
  JobError, job_store_full, Job, Stored, JobStore, is_terminal, finish_time, prune_expired,
  evict_terminal, insert_job, new_job, admit, create,
}
use cliamp.Ipc.Jobs.Entries.{id_of}
use cliamp.Ipc.Jobs.Invariant.{
  IsProper-append, IsValid, IsProper, prune_expired-IsValid, insert_job-IsValid,
}
use cliamp.Ipc.Jobs.Eviction.{Evicts, In, In-find_job, evict_terminal-Evicts, evict_terminal-none}

-- How a store with the live jobs `p` answers to the new job `j`.
pub data Admission {S : Type 0} (p : JobStore S) (j : Stored S)
    (r : JobStore S × Result JobError (Job S)) : Type 0 where
  -- Every place is taken by a job that has not ended: the new job is refused.
  refused :
      r.1 ≡ failure job_store_full
      → r.0.jobs ≡ p.jobs
      → p.capacity ≤ length p.jobs
      → ((k : Stored S) → In k p.jobs → is_terminal k.job.state ≡ false)
      → Admission p j r
  -- There is a place.
  placed :
      r ≡ (record p { jobs = insert_job j p.jobs }, success j.job)
      → length p.jobs < p.capacity
      → Admission p j r
  -- The job that ended first gives its place up.
  displaced :
      (q : JobStore S)
      → r ≡ (record q { jobs = insert_job j q.jobs }, success j.job)
      → p.capacity ≤ length p.jobs
      → Evicts p q
      → Admission p j r

active_of_none :
    {S : Type 0} (closed : List ℕ) (k : Stored S)
    → IsProper closed k
    → finish_time k ≡ none
    → is_terminal k.job.state ≡ false
unfolding finish_time
active_of_none closed k h e = ground (arith, h.fields, e)

admit-Admission :
    {S : Type 0} (j : Stored S) (now : ℕ) (s : JobStore S)
    → IsValid s
    → IsProper [] j
    → Admission (prune_expired now s) j (admit j now s) × IsValid (admit j now s).0
unfolding admit
admit-Admission j now s v h =
    let p = prune_expired now s in
    let w : IsValid p = prune_expired-IsValid now s v in
    elim (Bool-cases (leb p.capacity (length p.jobs))) [
      | inr room ↦ (
        placed (rw room refl) (ground (arith, room)),
        rw room
            (insert_job-IsValid j p w (ground (arith, room)) (IsProper-append [] p.canceled j h)),
      )
      | inl full ↦ elim (Option-cases (evict_terminal p)) [
        | inl e ↦ (
          refused (rw full (rw (e, admit) refl)) (rw full (rw (e, admit) refl))
              (ground (arith, full))
              (λ k m.
                active_of_none p.canceled k
                  (w.entries (id_of k) k (In-find_job k p.jobs w.distinct m))
                  (evict_terminal-none p e k m)),
          rw full (
              rw (e, admit)
                (record {
                  distinct = w.distinct;
                  bounded = w.bounded;
                  events_bounded = w.events_bounded;
                  entries = λ i k g. IsProper-append p.canceled (j.ctx ∷ []) k (w.entries i k g);
                })),
        )
        | inr (q, e) ↦
            let out : Evicts p q = evict_terminal-Evicts p q w e in
            (
              displaced q (rw full (rw (e, admit) refl)) (ground (arith, full)) out,
              rw full (
                  rw (e, admit)
                    (insert_job-IsValid j q out.well_formed
                      (omega (arith, out.room, out.capacity_eq, w.bounded))
                      (IsProper-append [] q.canceled j h))),
            )
      ]
    ]

-- `Create` with an operation and an identifier, on a well-formed store: with `p` the store once expired
-- jobs are gone, it refuses the job exactly where all places of `p` are taken by jobs that have
-- not ended; otherwise it stores the job, in a free place or in that of a job that ended first; and the
-- store stays well-formed.
pub create-Admission :
    {S : Type 0} (id ctx : ℕ) (operation : String) (created_at now : ℕ) (s : JobStore S)
    → IsValid s
    → str_eq operation "" ≡ false
    → let r = create (some id) ctx operation created_at now s in
      Admission
        (prune_expired now s)
        (record { ctx = ctx; job = new_job id operation created_at })
        r
      × IsValid r.0
unfolding create
create-Admission id ctx operation created_at now s v named =
    rw (named, create)
      (admit-Admission (record { ctx = ctx; job = new_job id operation created_at }) now s v
        (record { fields = refl; ctx_closed = λ e. cc }))
