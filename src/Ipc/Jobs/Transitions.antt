-- ===== src/Ipc/Jobs/Transitions.antt =====
-- ipc/jobs.go: the life of one job, along the edges of its state machine.
use cliamp.Base.{
  ℕ, ◌≡◌, refl, sym, ap, subst, ◌∙◌, ◌≢◌, ◌⊎◌, inl, inr, Bool, true, false, Option, none, some,
  List, arith, ◌==◌, Bool-cases, Option-cases,
}
use cliamp.Base.Results.{Result}
use Prim.Native.String.{String}
use text.Mathlib.Text.{◌==◌ as str_eq}
use cliamp.Ipc.Jobs.{
  JobState, queued, running, succeeded, failed, canceled, JobError, Job, Stored, JobStore,
  is_terminal, finish_time, is_expired, prune_expired, find_job, update_job, insert_job, create,
}
use cliamp.Ipc.Jobs.Methods.{
  start, Ending, ended, may_end, finish_locked, emit, get, context, receive,
}
use cliamp.Ipc.Jobs.Methods.{start_found}
use cliamp.Ipc.Jobs.Entries.{id_of, find-drop_where, find-update_job, find-insert_job}
use cliamp.Ipc.Jobs.Invariant.{IsValid}
use cliamp.Ipc.Jobs.Admission.{create-Admission, Admission, refused, placed, displaced}
use cliamp.Ipc.Jobs.Eviction.{Evicts}
use cliamp.Ipc.Jobs.Histories.{
  World, Call, creates, starts, settles, emits, receives, gets, reads_context, step, IsFair,
  ending-IsFair, ending-cases,
}
use cliamp.Base.{get_elem?}

-- The edges of the state machine.
abbrev may_move : JobState → JobState → Bool
may_move queued running = true
may_move queued canceled = true
may_move running succeeded = true
may_move running failed = true
may_move running canceled = true
may_move _ _ = false

-- A job after a call: unchanged, or in a next state, with the same identity.
abbrev Moves : {S : Type 0} → Job S → Job S → Type 0
Moves a b =
    (a ≡ b)
    ⊎ ((may_move a.state b.state ≡ true)
        × (a.id ≡ b.id)
        × (a.operation ≡ b.operation)
        × (a.created_at ≡ b.created_at))

-- What a lookup of the job finds after a call: the job, in its context, or nothing if it had ended.
abbrev pub Progress : {S : Type 0} → Stored S → Option (Stored S) → Type 0
Progress j none = is_terminal j.job.state ≡ true
Progress j (some k) = Moves j.job k.job × (j.ctx ≡ k.ctx)

module _ {S : Type 0} where
  stays : (j : Stored S) (o : Option (Stored S)) → o ≡ some j → Progress j o
  stays j none e = cc
  stays j (some k) e =
      let same : k ≡ j = cc e in (inl (ap (λ x. x.job) (sym same)), ap (λ x. x.ctx) (sym same))

  leaves :
      (j : Stored S) (o : Option (Stored S))
      → is_terminal j.job.state ≡ true
      → o ≡ none
      → Progress j o
  leaves j none t e = t
  leaves j (some k) t e = cc

  prune_expired-cases :
      (now i : ℕ) (j : Stored S) (s : JobStore S)
      → IsValid s
      → find_job i s.jobs ≡ some j
      → (find_job i (prune_expired now s).jobs ≡ some j)
        ⊎ ((find_job i (prune_expired now s).jobs ≡ none) × (is_terminal j.job.state ≡ true))
  unfolding prune_expired is_expired finish_time
  prune_expired-cases now i j s v h =
      let f = find-drop_where (is_expired now s.ttl) i s.jobs j v.distinct h in
      elim (Bool-cases (is_expired now s.ttl j)) [
        | inl t ↦ inr (ground (arith, f, t), ground (arith, t))
        | inr t ↦ inl (ground (arith, f, t))
      ]

  prune_expired-Progress :
      (now i : ℕ) (j : Stored S) (s : JobStore S)
      → IsValid s
      → find_job i s.jobs ≡ some j
      → Progress j (find_job i (prune_expired now s).jobs)
  prune_expired-Progress now i j s v h = elim (prune_expired-cases now i j s v h) [
    | inl e ↦ stays j _ e
    | inr (e, t) ↦ leaves j _ t e
  ]

  -- A change of the job found at `id`, whose move is allowed.
  update_job-Progress :
      (id i : ℕ) (f : Job S → Job S) (found j : Stored S) (jobs : List (Stored S))
      → ((k : Job S) → (f k).id ≡ k.id)
      → find_job id jobs ≡ some found
      → Moves found.job (f found.job)
      → find_job i jobs ≡ some j
      → Progress j (find_job i (update_job id f jobs))
  update_job-Progress id i f found j jobs keeps e m h = elim (Bool-cases (id == i)) [
    | inl same ↦
        let at_i : find_job i jobs ≡ some found =
          subst (λ x. find_job x jobs ≡ some found) (ground (arith, same)) e in
        let is_j : found ≡ j = cc (at_i, h) in
        let g : find_job i (update_job id f jobs) ≡ some (record j { job = f j.job }) =
          find-update_job id i f jobs keeps ∙ ground (arith, same, h) in
        rw g (subst (λ x. Moves x.job (f x.job)) is_j m, refl)
    | inr other ↦ stays j _ (find-update_job id i f jobs keeps ∙ ground (arith, other, h))
  ]

  update_job-leaves :
      (id i : ℕ) (f : Job S → Job S) (j : Stored S) (jobs : List (Stored S))
      → ((k : Job S) → (f k).id ≡ k.id)
      → is_terminal j.job.state ≡ true
      → find_job i jobs ≡ none
      → Progress j (find_job i (update_job id f jobs))
  update_job-leaves id i f j jobs keeps t h =
      leaves j _ t (find-update_job id i f jobs keeps ∙ ground (arith, h))

  start_found-Progress :
      (state : JobState) (id later i : ℕ) (found j : Stored S) (p : JobStore S)
      → found.job.state ≡ state
      → find_job id p.jobs ≡ some found
      → ((find_job i p.jobs ≡ some j)
          ⊎ ((find_job i p.jobs ≡ none) × (is_terminal j.job.state ≡ true)))
      → Progress j (find_job i (start_found state id later found p).0.jobs)
  unfolding start_found
  start_found-Progress queued id later i found j p q e (inl h) =
      update_job-Progress id i _ found j p.jobs (λ k. refl) e
        (inr (ground (arith, q), refl, refl, refl)) h
  start_found-Progress queued id later i found j p q e (inr (h, t)) =
      update_job-leaves id i _ j p.jobs (λ k. refl) t h
  start_found-Progress running id later i found j p q e (inl h) = stays j _ h
  start_found-Progress _ id later i found j p q e (inl h) = stays j _ h
  start_found-Progress _ id later i found j p q e (inr (h, t)) = leaves j _ t h

  start-Progress :
      (id now later i : ℕ) (j : Stored S) (s : JobStore S)
      → IsValid s
      → find_job i s.jobs ≡ some j
      → Progress j (find_job i (start id now later s).0.jobs)
  unfolding start
  start-Progress id now later i j s v h =
      elim (Option-cases (find_job id (prune_expired now s).jobs)) [
        | inl e ↦ rw (e, start) (prune_expired-Progress now i j s v h)
        | inr (k, e) ↦
            rw (e, start)
              (start_found-Progress k.job.state id later i k j (prune_expired now s) refl e
                (prune_expired-cases now i j s v h))
      ]

  may_end-Moves :
      (e : Ending S) (at : ℕ) (a : Job S)
      → IsFair e
      → may_end e.state a.state ≡ true
      → Moves a (ended e at a)
  unfolding may_end
  may_end-Moves e at a fair may = inr (ground (arith, fair, may), refl, refl, refl)

  pub finish_locked-Progress :
      (id : ℕ) (e : Ending S) (now later i : ℕ) (j : Stored S) (s : JobStore S)
      → IsFair e
      → IsValid s
      → find_job i s.jobs ≡ some j
      → Progress j (find_job i (finish_locked id e now later s).0.jobs)
  unfolding finish_locked
  finish_locked-Progress id e now later i j s fair v h =
      let p = prune_expired now s in
      elim (Option-cases (find_job id p.jobs)) [
        | inl f ↦ rw (f, finish_locked) (prune_expired-Progress now i j s v h)
        | inr (k, f) ↦ elim (Bool-cases (may_end e.state k.job.state)) [
          | inr stuck ↦ rw (f, finish_locked) (rw stuck (prune_expired-Progress now i j s v h))
          | inl may ↦
              let m = may_end-Moves e later k.job fair may in
              rw (f, finish_locked)
                (rw may (elim (prune_expired-cases now i j s v h) [
                  | inl g ↦ update_job-Progress id i _ k j p.jobs (λ x. refl) f m g
                  | inr (g, t) ↦ update_job-leaves id i _ j p.jobs (λ x. refl) t g
                ]))
        ]
      ]

  terminal_of_time :
      (k : Stored S) (t : ℕ) → finish_time k ≡ some t → is_terminal k.job.state ≡ true
  unfolding finish_time
  terminal_of_time k t e = ground (arith, e)

  Evicts-cases :
      (p q : JobStore S) (i : ℕ) (j : Stored S)
      → Evicts p q
      → ((find_job i p.jobs ≡ some j)
          ⊎ ((find_job i p.jobs ≡ none) × (is_terminal j.job.state ≡ true)))
      → (find_job i q.jobs ≡ some j)
        ⊎ ((find_job i q.jobs ≡ none) × (is_terminal j.job.state ≡ true))
  Evicts-cases p q i j out h = elim (Bool-cases (id_of out.out.1 == i)) [
    | inr other ↦
        let same : find_job i q.jobs ≡ find_job i p.jobs = out.others i (ground (arith, other)) in
        elim h [ inl g ↦ inl (same ∙ g) | inr g ↦ inr (same ∙ g.0, g.1) ]
    | inl e ↦
        let at_i : id_of out.out.1 ≡ i = ground (arith, e) in
        let gone : find_job i q.jobs ≡ none = subst (λ x. find_job x q.jobs ≡ none) at_i out.gone in
        let here : find_job i p.jobs ≡ some out.out.1 =
          subst (λ x. find_job x p.jobs ≡ some out.out.1) at_i out.stored in
        elim h [
          | inl g ↦
              let is_j : out.out.1 ≡ j = cc (here, g) in
              inr (
                gone,
                subst (λ x. is_terminal x.job.state ≡ true) is_j
                    (terminal_of_time out.out.1 out.out.0 out.oldest.ended_at),
              )
          | inr g ↦ inr (gone, g.1)
        ]
  ]

  insert_job-Progress :
      (n : Stored S) (i : ℕ) (j : Stored S) (jobs : List (Stored S))
      → id_of n ≢ i
      → ((find_job i jobs ≡ some j) ⊎ ((find_job i jobs ≡ none) × (is_terminal j.job.state ≡ true)))
      → Progress j (find_job i (insert_job n jobs))
  insert_job-Progress n i j jobs ne h = elim h [
    | inl g ↦ stays j _ (find-insert_job n i jobs ∙ ground (arith, ne, g))
    | inr (g, t) ↦ leaves j _ t (find-insert_job n i jobs ∙ ground (arith, ne, g))
  ]

  Admission-Progress :
      (p : JobStore S) (n : Stored S) (r : JobStore S × Result JobError (Job S)) (i : ℕ)
      (j : Stored S)
      → Admission p n r
      → id_of n ≢ i
      → ((find_job i p.jobs ≡ some j)
          ⊎ ((find_job i p.jobs ≡ none) × (is_terminal j.job.state ≡ true)))
      → Progress j (find_job i r.0.jobs)
  Admission-Progress p n r i j (refused e same full live) ne h = elim h [
    | inl g ↦ stays j _ (ap (find_job i) same ∙ g)
    | inr (g, t) ↦ leaves j _ t (ap (find_job i) same ∙ g)
  ]
  Admission-Progress p n r i j (placed e room) ne h =
      subst (λ x. Progress j (find_job i x.0.jobs)) (sym e) (insert_job-Progress n i j p.jobs ne h)
  Admission-Progress p n r i j (displaced q e full out) ne h =
      subst (λ x. Progress j (find_job i x.0.jobs)) (sym e)
        (insert_job-Progress n i j q.jobs ne (Evicts-cases p q i j out h))

  create-Progress :
      (id : Option ℕ) (ctx : ℕ) (operation : String) (created_at now i : ℕ) (j : Stored S)
      (s : JobStore S)
      → IsValid s
      → id ≢ some i
      → find_job i s.jobs ≡ some j
      → Progress j (find_job i (create id ctx operation created_at now s).0.jobs)
  unfolding create
  create-Progress id ctx operation created_at now i j s v ne h =
      elim (Bool-cases (str_eq operation "")) [
        | inl e ↦ rw e (stays j _ h)
        | inr e ↦ elim (Option-cases id) [
          | inl f ↦ rw e (rw f (stays j _ h))
          | inr (n, f) ↦
              let other : n ≢ i = λ q. ne (f ∙ ap (λ x. some x) q) in
              rw f (
                Admission-Progress (prune_expired now s) _ _ i j
                  (create-Admission n ctx operation created_at now s v e).0 other
                  (prune_expired-cases now i j s v h))
        ]
      ]

-- The identifier that a call brings.
abbrev created_id : {S : Type 0} → Call S → Option ℕ
created_id (creates id ctx operation created_at now) = id
created_id _ = none

-- Whatever call is made on a well-formed store, unless it creates a job under the same identifier, a stored
-- job stays as it is, or moves along an edge of the state machine and keeps its identity and context,
-- or is gone; and it can be gone only if it had ended.
pub step-Progress :
    {S : Type 0} (valid : String → Bool) (c : Call S) (w : World S) (i : ℕ) (j : Stored S)
    → IsValid w.store
    → created_id c ≢ some i
    → find_job i w.store.jobs ≡ some j
    → Progress j (find_job i (step valid c w).store.jobs)
unfolding step get context emit receive
step-Progress valid (creates id ctx operation created_at now) w i j v ne h =
    create-Progress id ctx operation created_at now i j w.store v ne h
step-Progress valid (starts id now later) w i j v ne h = start-Progress id now later i j w.store v h
step-Progress valid (settles id r now later) w i j v ne h = elim (ending-cases valid r) [
  | inl (x, f) ↦ rw (f, step) (stays j _ h)
  | inr (e, f) ↦
      rw (f, step)
        (finish_locked-Progress id e now later i j w.store (ending-IsFair valid r e f) v h)
]
step-Progress valid (emits n) w i j v ne h = elim (Option-cases (get_elem? w.pending n)) [
  | inl e ↦ rw (e, step) (stays j _ h)
  | inr (event, e) ↦ rw (e, step) (stays j _ (ground (arith, h)))
]
step-Progress valid receives w i j v ne h = stays j _ (ground (arith, h))
step-Progress valid (gets id now) w i j v ne h = prune_expired-Progress now i j w.store v h
step-Progress valid (reads_context id now) w i j v ne h = prune_expired-Progress now i j w.store v h
