-- ===== src/Files/Transfer/Running.antt =====
-- internal/files/transfer.go: a running job in the lists of jobs that the operations leave.
use mathlib.Core.Path.{subst}
use secure_crt.Base.{
  ℕ, ◌≡◌, inl, inr, refl, sym, ap, ◌∙◌, Bool, true, false, Option, none, some, List, [], ◌∷◌,
  if-rule, Bool-cases, Bytes, bytes_eq, bytes_eq_sound, bytes_eq_refl,
}
use secure_crt.Files.Copy.{
  CopyError, canceled, already_exists, short_write, into_itself, host_error,
}
use secure_crt.Files.Transfer.{
  Job, job_running, delete_where, has_id, enter, find, update, ended_with, finish, cancelled_job,
}

-- A job of the account with the identifier is found, and runs.
pub record Runs (user_id id : Bytes) (jobs : List Job) : Type 0 where
  pub job : Job
  pub found : find (has_id id) jobs ≡ some job
  pub owned : job.user_id ≡ user_id
  pub is_running : job.state ≡ job_running
  pub unfinished : job.finished_at ≡ none

-- What a change of a job keeps.
pub record Keeps (f : Job → Job) : Type 0 where
  pub id_kept : (j : Job) → (f j).id ≡ j.id
  pub user_kept : (j : Job) → (f j).user_id ≡ j.user_id
  pub state_kept : (j : Job) → (f j).state ≡ j.state
  pub finish_kept : (j : Job) → (f j).finished_at ≡ j.finished_at

pub ended_with-id :
    (now : ℕ) (result : Option CopyError) (j : Job) → (ended_with now result j).id ≡ j.id
ended_with-id now none j = refl
ended_with-id now (some canceled) j = refl
ended_with-id now (some already_exists) j = refl
ended_with-id now (some short_write) j = refl
ended_with-id now (some into_itself) j = refl
ended_with-id now (some (host_error e)) j = refl

pub cancelled_job-Keeps : Keeps cancelled_job
cancelled_job-Keeps = record {
  id_kept = λ j. refl;
  user_kept = λ j. refl;
  state_kept = λ j. refl;
  finish_kept = λ j. refl;
}

pub find_sound :
    (test : Job → Bool) (jobs : List Job) (j : Job) → find test jobs ≡ some j → test j ≡ true
unfolding find
find_sound test [] j h = cc
find_sound test (x ∷ jobs) j h = elim (Bool-cases (test x)) [
  | inl t ↦ subst (λ (j : Job). test j ≡ true) (some-injective (rw t at h)) t
  | inr t ↦ find_sound test jobs j (rw t at h)
]
  where
    some-injective : {y : Job} → some x ≡ some y → x ≡ y
    some-injective h = cc

module _ (user_id id : Bytes) where
  -- What is found at the head, or further on.
  pub cons-Runs :
      (j : Job) (jobs : List Job)
      → bytes_eq j.id id ≡ false
      → Runs user_id id jobs
      → Runs user_id id (j ∷ jobs)
  unfolding find
  cons-Runs j jobs other r = record {
    job = r.job;
    found = rw other r.found;
    owned = r.owned;
    is_running = r.is_running;
    unfinished = r.unfinished;
  }

  pub tail-Runs :
      (j : Job) (jobs : List Job)
      → bytes_eq j.id id ≡ false
      → Runs user_id id (j ∷ jobs)
      → Runs user_id id jobs
  unfolding find
  tail-Runs j jobs other r = record {
    job = r.job;
    found = rw other at r.found;
    owned = r.owned;
    is_running = r.is_running;
    unfinished = r.unfinished;
  }

  head_found :
      (j : Job) (jobs : List Job)
      → bytes_eq j.id id ≡ true
      → (r : Runs user_id id (j ∷ jobs)) → j ≡ r.job
  unfolding find
  head_found j jobs same r = some-injective (rw same at r.found)
    where
      some-injective : {x y : Job} → some x ≡ some y → x ≡ y
      some-injective h = cc

  pub head-Runs :
      (j k : Job) (jobs : List Job)
      → bytes_eq k.id id ≡ true
      → k.user_id ≡ j.user_id
      → k.state ≡ j.state
      → k.finished_at ≡ j.finished_at
      → bytes_eq j.id id ≡ true
      → {others : List Job} → Runs user_id id (j ∷ others)
      → Runs user_id id (k ∷ jobs)
  unfolding find
  head-Runs j k jobs same user state finish own r =
      let at_head = head_found j _ own r in
      record {
        job = k;
        found = rw same refl;
        owned = user ∙ ap (λ j. j.user_id) at_head ∙ r.owned;
        is_running = state ∙ ap (λ j. j.state) at_head ∙ r.is_running;
        unfinished = finish ∙ ap (λ j. j.finished_at) at_head ∙ r.unfinished;
      }

  nothing-Runs : ¬ Runs user_id id []
  unfolding find
  nothing-Runs r = none-ne-some r.found
    where
      none-ne-some : {j : Job} → none ≡ some j → ⊥
      none-ne-some h = cc

  pub update-Runs :
      (other : Bytes) (f : Job → Job) (jobs : List Job)
      → Keeps f
      → Runs user_id id jobs
      → Runs user_id id (update other f jobs)
  unfolding update
  update-Runs other f [] k r = absurd (nothing-Runs r)
  update-Runs other f (j ∷ jobs) k r =
      let after = update other f jobs in
      elim (Bool-cases (bytes_eq j.id id)) [
        | inl own ↦
            if-rule (Runs user_id id) (bytes_eq j.id other)
              (λ _.
                head-Runs j (f j) after (ap (λ i. bytes_eq i id) (k.id_kept j) ∙ own)
                  (k.user_kept j) (k.state_kept j) (k.finish_kept j) own r)
              (λ _. head-Runs j j after own refl refl refl own r)
        | inr not_own ↦
            let rest = update-Runs other f jobs k (tail-Runs j jobs not_own r) in
            if-rule (Runs user_id id) (bytes_eq j.id other)
              (λ _. cons-Runs (f j) after (ap (λ i. bytes_eq i id) (k.id_kept j) ∙ not_own) rest)
              (λ _. cons-Runs j after not_own rest)
      ]

  pub delete_where-Runs :
      (gone : Job → Bool) (jobs : List Job)
      → ((j : Job) → bytes_eq j.id id ≡ true → j.finished_at ≡ none → gone j ≡ false)
      → Runs user_id id jobs
      → Runs user_id id (delete_where gone jobs)
  unfolding delete_where
  delete_where-Runs gone [] kept r = absurd (nothing-Runs r)
  delete_where-Runs gone (j ∷ jobs) kept r =
      let after = delete_where gone jobs in
      elim (Bool-cases (bytes_eq j.id id)) [
        | inl own ↦
            let unfinished = ap (λ j. j.finished_at) (head_found j jobs own r) ∙ r.unfinished in
            rw (kept j own unfinished) (head-Runs j j after own refl refl refl own r)
        | inr not_own ↦
            let rest = delete_where-Runs gone jobs kept (tail-Runs j jobs not_own r) in
            if-rule (Runs user_id id) (gone j) (λ _. rest) (λ _. cons-Runs j after not_own rest)
      ]

  other_id :
      (other own : Bytes)
      → bytes_eq other id ≡ false
      → bytes_eq own id ≡ true
      → bytes_eq own other ≡ false
  other_id other own apart same = elim (Bool-cases (bytes_eq own other)) [
    | inl e ↦
        let equal : other ≡ id = sym (bytes_eq_sound own other e) ∙ bytes_eq_sound own id same in
        absurd
          (true-ne-false (sym (bytes_eq_refl id) ∙ ap (λ o. bytes_eq o id) (sym equal) ∙ apart))
    | inr e ↦ e
  ]
    where
      true-ne-false : true ≡ false → ⊥
      true-ne-false h = cc

  pub enter-Runs :
      (j : Job) (jobs : List Job)
      → bytes_eq j.id id ≡ false
      → Runs user_id id jobs
      → Runs user_id id (enter j jobs)
  unfolding enter
  enter-Runs j jobs apart r =
      cons-Runs j (delete_where (has_id j.id) jobs) apart
        (delete_where-Runs (has_id j.id) jobs (λ own same _. other_id j.id own.id apart same) r)

  pub update_other-Runs :
      (other : Bytes) (f : Job → Job) (jobs : List Job)
      → ((j : Job) → (f j).id ≡ j.id)
      → bytes_eq other id ≡ false
      → Runs user_id id jobs
      → Runs user_id id (update other f jobs)
  unfolding update
  update_other-Runs other f [] k apart r = absurd (nothing-Runs r)
  update_other-Runs other f (j ∷ jobs) k apart r =
      let after = update other f jobs in
      elim (Bool-cases (bytes_eq j.id id)) [
        | inl own ↦
            rw (other_id other j.id apart own) (head-Runs j j after own refl refl refl own r)
        | inr not_own ↦
            let rest = update_other-Runs other f jobs k apart (tail-Runs j jobs not_own r) in
            if-rule (Runs user_id id) (bytes_eq j.id other)
              (λ _. cons-Runs (f j) after (ap (λ i. bytes_eq i id) (k j) ∙ not_own) rest)
              (λ _. cons-Runs j after not_own rest)
      ]
