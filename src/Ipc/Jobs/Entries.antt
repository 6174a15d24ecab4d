-- ===== src/Ipc/Jobs/Entries.antt =====
-- ipc/jobs.go: the map of jobs, by its lookups.
use cliamp.Base.{
  ℕ, suc, ◌≤◌, ◌≡◌, refl, sym, subst, ◌∙◌, inl, inr, Bool, Option, none, some, List, [], ◌∷◌, arith,
  ◌==◌, if◌then◌else◌, length, Bool-cases,
}
use cliamp.Ipc.Jobs.{Job, Stored, drop_where, find_job, update_job, insert_job}

abbrev pub id_of : {S : Type 0} → Stored S → ℕ
id_of j = j.job.id

-- The keys of a map differ.
unfoldable pub IsDistinct : {S : Type 0} → List (Stored S) → Type 0
IsDistinct [] = Unit {0}
IsDistinct (j ∷ jobs) = (find_job (id_of j) jobs ≡ none) × IsDistinct jobs

-- The entry that a lookup found, with its job changed.
abbrev with_job : {S : Type 0} → (Job S → Job S) → Option (Stored S) → Option (Stored S)
with_job f none = none
with_job f (some j) = some (record j { job = f j.job })

module _ {S : Type 0} where
  pub length-drop_where :
      (test : Stored S → Bool) (jobs : List (Stored S))
      → length (drop_where test jobs) ≤ length jobs
  length-drop_where test [] = omega arith
  length-drop_where test (j ∷ jobs) = ground (arith, length-drop_where test jobs)

  pub find-drop_where-none :
      (test : Stored S → Bool) (id : ℕ) (jobs : List (Stored S))
      → find_job id jobs ≡ none
      → find_job id (drop_where test jobs) ≡ none
  unfolding find_job
  find-drop_where-none test id [] h = refl
  find-drop_where-none test id (j ∷ jobs) h = ground (arith, find-drop_where-none test id jobs)

  -- An entry is found behind the filter unless the filter drops it.
  pub find-drop_where :
      (test : Stored S → Bool) (id : ℕ) (jobs : List (Stored S)) (j : Stored S)
      → IsDistinct jobs
      → find_job id jobs ≡ some j
      → find_job id (drop_where test jobs) ≡ (if test j then none else some j)
  unfolding find_job IsDistinct
  find-drop_where test id [] j d h = absurd (ground arith)
  find-drop_where test id (k ∷ jobs) j d h = elim (Bool-cases (id_of k == id)) [
    | inl e ↦
        let same : id_of k ≡ id = ground arith in
        let is_j : k ≡ j = ground (arith, e, h) in
        subst (λ x. find_job id (drop_where test (k ∷ jobs)) ≡ (if test x then none else some x))
          is_j
          (elim (Bool-cases (test k)) [
            | inl t ↦
                rw t
                  (find-drop_where-none test id jobs (subst (λ i. find_job i jobs ≡ none) same d.0))
            | inr t ↦ rw t (rw e refl)
          ])
    | inr e ↦
        let later = find-drop_where test id jobs j d.1 (rw e at h) in
        elim (Bool-cases (test k)) [ inl t ↦ rw t later | inr t ↦ rw t (rw e later) ]
  ]

  pub drop_where-IsDistinct :
      (test : Stored S → Bool) (jobs : List (Stored S))
      → IsDistinct jobs
      → IsDistinct (drop_where test jobs)
  unfolding IsDistinct
  drop_where-IsDistinct test [] d = tt
  drop_where-IsDistinct test (j ∷ jobs) d = elim (Bool-cases (test j)) [
    | inl t ↦ rw t (drop_where-IsDistinct test jobs d.1)
    | inr t ↦
        rw t (find-drop_where-none test (id_of j) jobs d.0, drop_where-IsDistinct test jobs d.1)
  ]

  pub find-update_job :
      (id i : ℕ) (f : Job S → Job S) (jobs : List (Stored S))
      → ((j : Job S) → (f j).id ≡ j.id)
      → find_job i (update_job id f jobs)
        ≡ (if id == i then with_job f (find_job i jobs) else find_job i jobs)
  unfolding find_job update_job
  find-update_job id i f [] keeps = ground arith
  find-update_job id i f (j ∷ jobs) keeps =
      ground (arith, keeps j.job, find-update_job id i f jobs keeps)

  pub length-update_job :
      (id : ℕ) (f : Job S → Job S) (jobs : List (Stored S))
      → length (update_job id f jobs) ≡ length jobs
  unfolding update_job
  length-update_job id f [] = refl
  length-update_job id f (j ∷ jobs) = ground (arith, length-update_job id f jobs)

  pub update_job-IsDistinct :
      (id : ℕ) (f : Job S → Job S) (jobs : List (Stored S))
      → ((j : Job S) → (f j).id ≡ j.id)
      → IsDistinct jobs
      → IsDistinct (update_job id f jobs)
  unfolding update_job IsDistinct
  update_job-IsDistinct id f [] keeps d = tt
  update_job-IsDistinct id f (j ∷ jobs) keeps d = elim (Bool-cases (id_of j == id)) [
    | inl e ↦ rw e (subst (λ i. find_job i jobs ≡ none) (sym (keeps j.job)) d.0, d.1)
    | inr e ↦ rw e (
      find-update_job id (id_of j) f jobs keeps ∙ ground (arith, d.0),
      update_job-IsDistinct id f jobs keeps d.1,
    )
  ]

  pub find-insert_job :
      (j : Stored S) (i : ℕ) (jobs : List (Stored S))
      → find_job i (insert_job j jobs) ≡ (if id_of j == i then some j else find_job i jobs)
  unfolding find_job insert_job
  find-insert_job j i [] = ground arith
  find-insert_job j i (k ∷ jobs) = ground (arith, find-insert_job j i jobs)

  pub insert_job-IsDistinct :
      (j : Stored S) (jobs : List (Stored S)) → IsDistinct jobs → IsDistinct (insert_job j jobs)
  unfolding insert_job IsDistinct find_job
  insert_job-IsDistinct j [] d = (refl, tt)
  insert_job-IsDistinct j (k ∷ jobs) d = elim (Bool-cases (id_of k == id_of j)) [
    | inl e ↦
        let same : id_of k ≡ id_of j = ground arith in
        rw e (subst (λ i. find_job i jobs ≡ none) same d.0, d.1)
    | inr e ↦
        rw e (
          ground (arith, find-insert_job j (id_of k) jobs, d.0, e),
          insert_job-IsDistinct j jobs d.1,
        )
  ]

  pub length-insert_job :
      (j : Stored S) (jobs : List (Stored S)) → length (insert_job j jobs) ≤ suc (length jobs)
  unfolding insert_job
  length-insert_job j [] = omega arith
  length-insert_job j (k ∷ jobs) = ground (arith, length-insert_job j jobs)
