-- ===== src/Ipc/Jobs/Shutdown.antt =====
-- ipc/jobs.go: the jobs behind `CancelAll`.
use cliamp.Base.{
  ℕ, ◌≡◌, refl, sym, ap, subst, ◌∙◌, ◌≢◌, inl, inr, true, false, none, some, List, [], ◌∷◌, arith,
  ◌==◌, Bool-cases, Option-cases,
}
use cliamp.Base.Results.{Result, success, failure}
use cliamp.Ipc.Jobs.{
  canceled, JobError, canceled_error, JobEvent, Stored, JobStore, is_terminal, is_expired,
  prune_expired, find_job, update_job,
}
use cliamp.Ipc.Jobs.Methods.{
  Ending, ended, may_end, finish_locked, emit, send, finish, cancels, ending, conclude, active_ids,
  cancel_each, cancel_all,
}
use cliamp.Ipc.Jobs.Entries.{id_of, find-update_job}
use cliamp.Ipc.Jobs.Invariant.{IsValid, find_job-some, has}
use cliamp.Ipc.Jobs.Histories.{finish_locked-IsValid, emit-IsValid}

abbrev cancellation : {S : Type 0} → Ending S
cancellation = record {
  state = canceled;
  result = none;
  snapshot = none;
  error = some canceled_error;
}

-- `Cancel`.
abbrev cancel : {S : Type 0} → ℕ → ℕ → ℕ → JobStore S → JobStore S
cancel id now later s = (conclude (λ t. true) id cancels now later s).0

module _ {S : Type 0} where
  jobs-send : (t : Result JobError (JobEvent S)) (s : JobStore S) → (send t s).0.jobs ≡ s.jobs
  unfolding send emit
  jobs-send (failure x) s = refl
  jobs-send (success e) s = ground arith

  send-IsValid :
      (t : Result JobError (JobEvent S)) (s : JobStore S) → IsValid s → IsValid (send t s).0
  unfolding send
  send-IsValid (failure x) s v = v
  send-IsValid (success e) s v = emit-IsValid e s v

  jobs-cancel :
      (id now later : ℕ) (s : JobStore S)
      → (cancel id now later s).jobs ≡ (finish_locked id cancellation now later s).0.jobs
  unfolding conclude ending finish
  jobs-cancel id now later s =
      let r = finish_locked id cancellation now later s in jobs-send r.1 r.0

  cancel-IsValid : (id now later : ℕ) (s : JobStore S) → IsValid s → IsValid (cancel id now later s)
  unfolding conclude ending finish
  cancel-IsValid id now later s v =
      let r = finish_locked id cancellation now later s in
      send-IsValid r.1 r.0 (finish_locked-IsValid id cancellation now later s (refl, refl) v)

  -- A job that has not ended behind the cancel of `id` is another one, and stood in the store before.
  finish_locked-active :
      (id now later i : ℕ) (k : Stored S) (s : JobStore S)
      → IsValid s
      → find_job i (finish_locked id cancellation now later s).0.jobs ≡ some k
      → is_terminal k.job.state ≡ false
      → (id ≢ i) × (find_job i s.jobs ≡ some k)
  unfolding finish_locked prune_expired may_end
  finish_locked-active id now later i k s v h live =
      let p = prune_expired now s in
      let back = λ (g : find_job i p.jobs ≡ some k).
        (find_job-some (is_expired now s.ttl) i s.jobs k v.distinct g).0 in
      elim (Option-cases (find_job id p.jobs)) [
        | inl f ↦
            let g : find_job i p.jobs ≡ some k = rw (f, finish_locked) at h in
            (λ e. cc (subst (λ x. find_job x p.jobs ≡ none) e f, g), back g)
        | inr (j, f) ↦ elim (Bool-cases (may_end canceled j.job.state)) [
          | inr ended_before ↦
              let g : find_job i p.jobs ≡ some k =
                rw ended_before at (rw (f, finish_locked) at h) in
              (
                λ e.
                    let same : j ≡ k = cc (subst (λ x. find_job x p.jobs ≡ some j) e f, g) in
                    let live_j : is_terminal j.job.state ≡ false =
                      subst (λ x. is_terminal x.job.state ≡ false) (sym same) live in
                    absurd (ground (arith, ended_before, live_j)),
                back g,
              )
          | inl may ↦
              let g : find_job i (update_job id (ended cancellation later) p.jobs) ≡ some k =
                rw may at (rw (f, finish_locked) at h) in
              let u = find-update_job id i (ended cancellation later) p.jobs (λ x. refl) in
              elim (Bool-cases (id == i)) [
                | inl same ↦
                    let at_i : find_job i p.jobs ≡ some j =
                      subst (λ x. find_job x p.jobs ≡ some j) (ground (arith, same)) f in
                    absurd (ground (arith, u, same, at_i, g, live))
                | inr other ↦ (ground (arith, other), back (ground (arith, u, other, g)))
              ]
        ]
      ]

-- Every job of the store that has not ended is listed.
abbrev Lists : {S : Type 0} → List ℕ → JobStore S → Type 0
Lists ids s =
    (i : ℕ) (k : Stored _)
    → find_job i s.jobs ≡ some k
    → is_terminal k.job.state ≡ false
    → has i ids ≡ true

cancel-Lists :
    {S : Type 0} (id now later : ℕ) (ids : List ℕ) (s : JobStore S)
    → IsValid s
    → Lists (id ∷ ids) s
    → Lists ids (cancel id now later s)
cancel-Lists id now later ids s v all i k h live =
    let r =
      finish_locked-active id now later i k s v
        (sym (ap (find_job i) (jobs-cancel id now later s)) ∙ h) live in
    ground (arith, all i k r.1 live, r.0)

cancel_each-Lists :
    {S : Type 0} (clock : ℕ → ℕ × ℕ) (ids : List ℕ) (s : JobStore S)
    → IsValid s
    → Lists ids s
    → Lists [] (cancel_each clock ids s) × IsValid (cancel_each clock ids s)
unfolding cancel_each
cancel_each-Lists clock [] s v all = (all, v)
cancel_each-Lists clock (id ∷ ids) s v all =
    cancel_each-Lists clock ids (cancel id (clock id).0 (clock id).1 s)
      (cancel-IsValid id (clock id).0 (clock id).1 s v)
      (cancel-Lists id (clock id).0 (clock id).1 ids s v all)

active_ids-Lists :
    {S : Type 0} (i : ℕ) (k : Stored S) (jobs : List (Stored S))
    → find_job i jobs ≡ some k
    → is_terminal k.job.state ≡ false
    → has i (active_ids jobs) ≡ true
unfolding active_ids find_job
active_ids-Lists i k [] h live = absurd (ground (arith, h))
active_ids-Lists i k (j ∷ jobs) h live = elim (Bool-cases (id_of j == i)) [
  | inl e ↦
      let same : j ≡ k = ground (arith, e, h) in
      let live_j : is_terminal j.job.state ≡ false =
        subst (λ x. is_terminal x.job.state ≡ false) (sym same) live in
      rw live_j (ground (arith, e))
  | inr e ↦
      let later = active_ids-Lists i k jobs (ground (arith, e, h)) live in
      elim (Bool-cases (is_terminal j.job.state)) [
        | inl t ↦ rw t later
        | inr t ↦ rw t (rw later (ground arith))
      ]
]

-- After `CancelAll` on a well-formed store, undisturbed and at whatever times it runs, every job that the store
-- holds has ended, and the store is well-formed.
pub cancel_all-is_terminal :
    {S : Type 0} (clock : ℕ → ℕ × ℕ) (s : JobStore S)
    → IsValid s
    → ((i : ℕ) (k : Stored S)
        → find_job i (cancel_all clock s).jobs ≡ some k
        → is_terminal k.job.state ≡ true)
      × IsValid (cancel_all clock s)
unfolding cancel_all
cancel_all-is_terminal clock s v =
    let r = cancel_each-Lists clock (active_ids s.jobs) s v (λ i k. active_ids-Lists i k s.jobs) in
    (
      λ i k h. elim (Bool-cases (is_terminal k.job.state)) [
        | inl t ↦ t
        | inr live ↦ cc (r.0 i k h live)
      ],
      r.1,
    )
