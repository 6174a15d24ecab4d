-- ===== src/Ipc/Jobs/Invariant.antt =====
-- ipc/jobs.go: what holds of a job store between two calls, whatever the calls.
use cliamp.Base.{
  ℕ, ◌≤◌, ◌<◌, ◌≡◌, refl, ap, subst, ◌∙◌, inl, inr, Bool, true, false, not, ◌&&◌, ◌||◌, Option,
  none, some, List, [], ◌∷◌, ◌++◌, arith, ◌==◌, length, Bool-cases, Option-cases,
}
use cliamp.Ipc.Jobs.{
  JobState, queued, running, succeeded, failed, canceled, Job, Stored, JobStore, is_terminal,
  is_expired, drop_where, prune_expired, find_job, update_job, insert_job,
}
use cliamp.Ipc.Jobs.Entries.{
  id_of, IsDistinct, length-drop_where, find-drop_where-none, find-drop_where,
  drop_where-IsDistinct, find-update_job, length-update_job, update_job-IsDistinct, find-insert_job,
  insert_job-IsDistinct, length-insert_job,
}

abbrev pub has : ℕ → List ℕ → Bool
has n [] = false
has n (x ∷ xs) = x == n || has n xs

pub has-append : (n : ℕ) (xs ys : List ℕ) → has n (xs ++ ys) ≡ (has n xs || has n ys)
has-append n [] ys = refl
has-append n (x ∷ xs) ys = ground (arith, has-append n xs ys)

abbrev pub is_set {ℓ} : {A : Type ℓ} → Option A → Bool
is_set none = false
is_set (some a) = true

-- Which of the times and the error a state has.
abbrev pub proper : JobState → Bool → Bool → Bool → Bool
proper queued started finished error = not started && not finished && not error
proper running started finished error = started && not finished && not error
proper succeeded started finished error = started && finished && not error
proper failed started finished error = started && finished && error
proper canceled started finished error = finished && error

abbrev pub is_proper : {S : Type 0} → Job S → Bool
is_proper j = proper j.state (is_set j.started_at) (is_set j.finished_at) (is_set j.error)

-- The context of a job that has ended is canceled.
pub record IsProper {S : Type 0} (closed : List ℕ) (j : Stored S) : Type 0 where
  pub fields : is_proper j.job ≡ true
  pub ctx_closed : is_terminal j.job.state ≡ true → has j.ctx closed ≡ true

pub record IsValid {S : Type 0} (s : JobStore S) : Type 0 where
  pub distinct : IsDistinct s.jobs
  pub bounded : length s.jobs ≤ s.capacity
  pub events_bounded : length s.events ≤ s.capacity
  pub entries : (i : ℕ) (j : Stored S) → find_job i s.jobs ≡ some j → IsProper s.canceled j

pub IsProper-append :
    {S : Type 0} (xs ys : List ℕ) (j : Stored S) → IsProper xs j → IsProper (xs ++ ys) j
IsProper-append xs ys j h = record {
  fields = h.fields;
  ctx_closed = λ t. has-append j.ctx xs ys ∙ ground (arith, h.ctx_closed t);
}

pub find_job-some :
    {S : Type 0} (test : Stored S → Bool) (i : ℕ) (jobs : List (Stored S)) (j : Stored S)
    → IsDistinct jobs
    → find_job i (drop_where test jobs) ≡ some j
    → (find_job i jobs ≡ some j) × (test j ≡ false)
find_job-some test i jobs j d h = elim (Option-cases (find_job i jobs)) [
  | inl e ↦ cc (find-drop_where-none test i jobs e, h)
  | inr (k, e) ↦
      let f = find-drop_where test i jobs k d e in
      elim (Bool-cases (test k)) [
        | inl t ↦ absurd (ground (arith, f, t, h))
        | inr t ↦
            let same : k ≡ j = ground (arith, f, t, h) in
            (e ∙ ap (λ x. some x) same, subst (λ x. test x ≡ false) same t)
      ]
]

-- Entries dropped, and contexts canceled.
pub drop_where-IsValid :
    {S : Type 0} (test : Stored S → Bool) (closed : List ℕ) (s : JobStore S)
    → IsValid s
    → IsValid (record s { jobs = drop_where test s.jobs; canceled = s.canceled ++ closed })
drop_where-IsValid test closed s v = record {
  distinct = drop_where-IsDistinct test s.jobs v.distinct;
  bounded = omega (arith, v.bounded, length-drop_where test s.jobs);
  events_bounded = v.events_bounded;
  entries = λ i j h.
      IsProper-append s.canceled closed j
        (v.entries i j (find_job-some test i s.jobs j v.distinct h).0);
}

pub prune_expired-IsValid :
    {S : Type 0} (now : ℕ) (s : JobStore S) → IsValid s → IsValid (prune_expired now s)
unfolding prune_expired
prune_expired-IsValid now s v = drop_where-IsValid (is_expired now s.ttl) _ s v

IsProper-mono :
    {S : Type 0} (xs ys : List ℕ) (j : Stored S)
    → ((n : ℕ) → has n xs ≡ true → has n ys ≡ true)
    → IsProper xs j
    → IsProper ys j
IsProper-mono xs ys j more h = record {
  fields = h.fields;
  ctx_closed = λ t. more j.ctx (h.ctx_closed t);
}

-- One job changed, and contexts canceled.
pub update_job-IsValid :
    {S : Type 0} (id : ℕ) (f : Job S → Job S) (closed : List ℕ) (s : JobStore S) (j : Stored S)
    → ((k : Job S) → (f k).id ≡ k.id)
    → IsValid s
    → find_job id s.jobs ≡ some j
    → ((n : ℕ) → has n s.canceled ≡ true → has n closed ≡ true)
    → IsProper closed (record j { job = f j.job })
    → IsValid (record s { jobs = update_job id f s.jobs; canceled = closed })
update_job-IsValid id f closed s j keeps v e more h = record {
  distinct = update_job-IsDistinct id f s.jobs keeps v.distinct;
  bounded = omega (arith, v.bounded, length-update_job id f s.jobs);
  events_bounded = v.events_bounded;
  entries = λ i k g. elim (Bool-cases (id == i)) [
    | inl same ↦
        let at_i : find_job i s.jobs ≡ some j =
          subst (λ x. find_job x s.jobs ≡ some j) (ground (arith, same)) e in
        let changed : record j { job = f j.job } ≡ k =
          ground (arith, find-update_job id i f s.jobs keeps, same, at_i, g) in
        subst (IsProper closed) changed h
    | inr other ↦
        IsProper-mono s.canceled closed k more
          (v.entries i k (ground (arith, find-update_job id i f s.jobs keeps, other, g)))
  ];
}

pub insert_job-IsValid :
    {S : Type 0} (j : Stored S) (s : JobStore S)
    → IsValid s
    → length s.jobs < s.capacity
    → IsProper s.canceled j
    → IsValid (record s { jobs = insert_job j s.jobs })
insert_job-IsValid j s v room h = record {
  distinct = insert_job-IsDistinct j s.jobs v.distinct;
  bounded = omega (arith, room, length-insert_job j s.jobs);
  events_bounded = v.events_bounded;
  entries = λ i k g. elim (Bool-cases (id_of j == i)) [
    | inl same ↦
        let is_j : j ≡ k = ground (arith, find-insert_job j i s.jobs, same, g) in
        subst (IsProper s.canceled) is_j h
    | inr other ↦ v.entries i k (ground (arith, find-insert_job j i s.jobs, other, g))
  ];
}
