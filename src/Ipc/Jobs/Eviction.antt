-- ===== src/Ipc/Jobs/Eviction.antt =====
-- ipc/jobs.go: which job a full store gives up.
use cliamp.Base.{
  ℕ, ◌≤◌, ◌<◌, ◌≡◌, refl, sym, ap, subst, ◌∙◌, ◌≢◌, ◌⊎◌, inl, inr, Option, none, some, List, [],
  ◌∷◌, ◌++◌, arith, ltb, ◌==◌, if◌then◌else◌, length, Bool-cases, Option-cases,
}
use cliamp.Ipc.Jobs.{
  Stored, JobStore, finish_time, oldest_terminal, delete_job, evict_terminal, find_job,
}
use cliamp.Ipc.Jobs.Methods.{start}
use cliamp.Ipc.Jobs.Entries.{id_of, IsDistinct, length-drop_where, find-drop_where}
use cliamp.Ipc.Jobs.Invariant.{IsValid, drop_where-IsValid}

abbrev pub In : {S : Type 0} → Stored S → List (Stored S) → Type 0
In j [] = ⊥
In j (k ∷ jobs) = (j ≡ k) ⊎ In j jobs

-- `o` is an ended job, with the time at which it ended, and none of the list ended before.
pub record IsOldest {S : Type 0} (jobs : List (Stored S)) (o : ℕ × Stored S) : Type 0 where
  pub ended_at : finish_time o.1 ≡ some o.0
  pub first : (k : Stored S) (t : ℕ) → In k jobs → finish_time k ≡ some t → o.0 ≤ t

-- What the loop returns from the oldest job so far.
abbrev Found :
    {S : Type 0} → Option (ℕ × Stored S) → List (Stored S) → Option (ℕ × Stored S) → Type 0
Found start jobs none = (start ≡ none) × ((k : Stored _) → In k jobs → finish_time k ≡ none)
Found start jobs (some o) =
    ((start ≡ some o) ⊎ (In o.1 jobs × (finish_time o.1 ≡ some o.0)))
    × ((a : ℕ × Stored _) → start ≡ some a → o.0 ≤ a.0)
    × ((k : Stored _) (t : ℕ) → In k jobs → finish_time k ≡ some t → o.0 ≤ t)

module _ {S : Type 0} where
  skip-Found :
      (start : Option (ℕ × Stored S)) (j : Stored S) (jobs : List (Stored S))
      (r : Option (ℕ × Stored S))
      → finish_time j ≡ none
      → Found start jobs r
      → Found start (j ∷ jobs) r
  skip-Found start j jobs none e h = (h.0, λ k m. elim m [ inl q ↦ rw q e | inr m' ↦ h.1 k m' ])
  skip-Found start j jobs (some o) e h = (
    elim h.0 [ inl q ↦ inl q | inr q ↦ inr (inr q.0, q.1) ],
    h.1,
    λ k t m f. elim m [
      | inl q ↦ let g : finish_time k ≡ none = rw q e in cc (f, g)
      | inr m' ↦ h.2 k t m' f
    ],
  )

  take-Found_first :
      (at : ℕ) (j : Stored S) (jobs : List (Stored S)) (o : ℕ × Stored S)
      → finish_time j ≡ some at
      → Found (some (at, j)) jobs (some o)
      → Found none (j ∷ jobs) (some o)
  take-Found_first at j jobs o e h = (
    inr (elim h.0 [
      | inl q ↦
          let same : j ≡ o.1 = cc q in
          let time : at ≡ o.0 = cc q in
          (inl (sym same), subst (λ k. finish_time k ≡ some o.0) same (e ∙ ap (λ t. some t) time))
      | inr q ↦ (inr q.0, q.1)
    ]),
    λ a q. cc q,
    λ k t m f. elim m [
      | inl q ↦
          let g : finish_time k ≡ some at = rw q e in
          let same : at ≡ t = cc (f, g) in subst (λ x. o.0 ≤ x) same (h.1 (at, j) refl)
      | inr m' ↦ h.2 k t m' f
    ],
  )

  better : ℕ → Stored S → Option (ℕ × Stored S) → Option (ℕ × Stored S)
  better at j start = elim start [
    | none ↦ some (at, j)
    | some o ↦ if ltb at o.0 then some (at, j) else some o
  ]

  take-Found :
      (start : Option (ℕ × Stored S)) (at : ℕ) (j : Stored S) (jobs : List (Stored S))
      (r : Option (ℕ × Stored S))
      → finish_time j ≡ some at
      → Found (better at j start) jobs r
      → Found start (j ∷ jobs) r
  unfolding better
  take-Found none at j jobs none e h = absurd (ground (arith, h.0))
  take-Found (some a) at j jobs none e h = absurd (ground (arith, h.0))
  take-Found none at j jobs (some o) e h = take-Found_first at j jobs o e h
  take-Found (some a) at j jobs (some o) e h = elim (Bool-cases (ltb at a.0)) [
    | inl b ↦
        let g : Found (some (at, j)) jobs (some o) = rw b at h in
        let r = take-Found_first at j jobs o e g in
        let low : o.0 ≤ at = g.1 (at, j) refl in
        (
          elim r.0 [ inl q ↦ absurd (ground (arith, q)) | inr q ↦ inr q ],
          λ b' q. let same : a ≡ b' = cc q in subst (λ x. o.0 ≤ x.0) same (ground (arith, b, low)),
          r.2,
        )
    | inr b ↦
        let g : Found (some a) jobs (some o) = rw b at h in
        let low : o.0 ≤ a.0 = g.1 a refl in
        (
          elim g.0 [ inl q ↦ inl q | inr q ↦ inr (inr q.0, q.1) ],
          g.1,
          λ k t m f. elim m [
            | inl q ↦
                let at_j : finish_time k ≡ some at = rw q e in
                let same : at ≡ t = cc (f, at_j) in ground (arith, b, low, same)
            | inr m' ↦ g.2 k t m' f
          ],
        )
  ]

  oldest_terminal-Found :
      (start : Option (ℕ × Stored S)) (jobs : List (Stored S))
      → Found start jobs (oldest_terminal start jobs)
  unfolding oldest_terminal better
  oldest_terminal-Found none [] = (refl, λ k m. absurd m)
  oldest_terminal-Found (some a) [] = (
    inl refl,
    (λ b q. let same : a ≡ b = cc q in subst (λ x. a.0 ≤ x.0) same (omega arith)),
    λ k t m. absurd m,
  )
  oldest_terminal-Found start (j ∷ jobs) = elim (Option-cases (finish_time j)) [
    | inl e ↦
        rw (e, oldest_terminal) (skip-Found start j jobs _ e (oldest_terminal-Found start jobs))
    | inr (at, e) ↦
        rw (e, oldest_terminal)
          (take-Found start at j jobs _ e (oldest_terminal-Found (better at j start) jobs))
  ]

  pub In-find_job :
      (j : Stored S) (jobs : List (Stored S))
      → IsDistinct jobs
      → In j jobs
      → find_job (id_of j) jobs ≡ some j
  unfolding find_job IsDistinct
  In-find_job j [] d m = elim m [ ]
  In-find_job j (k ∷ jobs) d (inl e) = rw (← e) (ground arith)
  In-find_job j (k ∷ jobs) d (inr m) =
      let later = In-find_job j jobs d.1 m in
      elim (Bool-cases (id_of k == id_of j)) [
        | inl same ↦
            let e : id_of k ≡ id_of j = ground (arith, same) in
            let gone : find_job (id_of j) jobs ≡ none = subst (λ i. find_job i jobs ≡ none) e d.0 in
            cc (later, gone)
        | inr other ↦ rw other later
      ]

  pub find_job-In :
      (i : ℕ) (j : Stored S) (jobs : List (Stored S))
      → find_job i jobs ≡ some j
      → In j jobs × (id_of j ≡ i)
  unfolding find_job
  find_job-In i j [] h = absurd (ground arith)
  find_job-In i j (k ∷ jobs) h = elim (Bool-cases (id_of k == i)) [
    | inl e ↦
        let same : k ≡ j = ground (arith, e, h) in
        (inl (sym same), subst (λ x. id_of x ≡ i) same (ground (arith, e)))
    | inr e ↦ let r = find_job-In i j jobs (ground (arith, e, h)) in (inr r.0, r.1)
  ]

  length-delete_job :
      (j : Stored S) (jobs : List (Stored S))
      → In j jobs
      → length (delete_job (id_of j) jobs) < length jobs
  length-delete_job j [] m = elim m [ ]
  length-delete_job j (k ∷ jobs) (inl e) =
      ground (arith, ap id_of e, length-drop_where (λ x. id_of x == id_of j) jobs)
  length-delete_job j (k ∷ jobs) (inr m) = ground (arith, length-delete_job j jobs m)

-- What a full store does to admit a job.
pub record Evicts {S : Type 0} (p q : JobStore S) : Type 0 where
  pub out : ℕ × Stored S
  pub stored : find_job (id_of out.1) p.jobs ≡ some out.1
  pub oldest : IsOldest p.jobs out
  pub gone : find_job (id_of out.1) q.jobs ≡ none
  pub others : (i : ℕ) → id_of out.1 ≢ i → find_job i q.jobs ≡ find_job i p.jobs
  pub room : length q.jobs < length p.jobs
  pub capacity_eq : q.capacity ≡ p.capacity
  pub well_formed : IsValid q

pub evict_terminal-none :
    {S : Type 0} (p : JobStore S)
    → evict_terminal p ≡ none
    → (k : Stored S) → In k p.jobs
    → finish_time k ≡ none
unfolding evict_terminal
evict_terminal-none p h = elim (Option-cases (oldest_terminal none p.jobs)) [
  | inl e ↦ (rw e at (oldest_terminal-Found none p.jobs)).1
  | inr (o, e) ↦ absurd (ground (arith, e, h))
]

find-delete_job :
    {S : Type 0} (id i : ℕ) (jobs : List (Stored S))
    → id ≢ i
    → find_job i (delete_job id jobs) ≡ find_job i jobs
unfolding find_job
find-delete_job id i [] ne = refl
find-delete_job id i (j ∷ jobs) ne = ground (arith, ne, find-delete_job id i jobs ne)

pub evict_terminal-Evicts :
    {S : Type 0} (p q : JobStore S) → IsValid p → evict_terminal p ≡ some q → Evicts p q
unfolding evict_terminal
evict_terminal-Evicts p q v h = elim (Option-cases (oldest_terminal none p.jobs)) [
  | inl e ↦ absurd (ground (arith, e, h))
  | inr (o, e) ↦
      let f = rw e at (oldest_terminal-Found none p.jobs) in
      let m : In o.1 p.jobs × (finish_time o.1 ≡ some o.0) = elim f.0 [
        | inl q ↦ cc q
        | inr q ↦ q
      ] in
      let same : record p {
        jobs = delete_job o.1.job.id p.jobs;
        canceled = p.canceled ++ o.1.ctx ∷ [];
      }
          ≡ q =
        ground (arith, e, h) in
      subst (Evicts p) same (record {
        out = o;
        stored = In-find_job o.1 p.jobs v.distinct m.0;
        oldest = record { ended_at = m.1; first = f.2 };
        gone =
            find-drop_where (λ k. id_of k == id_of o.1) (id_of o.1) p.jobs o.1 v.distinct
              (In-find_job o.1 p.jobs v.distinct m.0)
            ∙ ground arith;
        others = λ i ne. find-delete_job (id_of o.1) i p.jobs ne;
        room = length-delete_job o.1 p.jobs m.0;
        capacity_eq = refl;
        well_formed = drop_where-IsValid (λ k. id_of k == id_of o.1) (o.1.ctx ∷ []) p v;
      })
]
