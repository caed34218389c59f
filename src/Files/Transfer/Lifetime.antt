-- ===== src/Files/Transfer/Lifetime.antt =====
-- internal/files/transfer.go: a job stays until it ends.
use mathlib.Core.Path.{subst}
use secure_crt.Base.{
  ℕ, ◌≡◌, inl, inr, refl, sym, ap, ◌∙◌, Bool, true, false, not, Option, List, [], ◌∷◌, Bool-cases,
  Option-cases, Bytes, bytes_eq, bytes_eq_sound, All,
}
use secure_crt.Base.Outcome.{Outcome, failed, returned}
use secure_crt.Files.Copy.{CopyError}
use secure_crt.Files.Transfer.{
  Job, JobKind, TransferError, has_id, find, update, ended_with, is_old, sweep, finish, get,
  cancelled_job, cancel_found, cancel, shutdown, State, start, register, Step, starting,
  registering, reporting, finishing, cancelling, shutting_down, after_step, after_steps,
}
use secure_crt.Files.Transfer.Quota.{start_cases}
use secure_crt.Files.Transfer.Running.{
  Runs, cons-Runs, tail-Runs, head-Runs, update-Runs, delete_where-Runs, enter-Runs,
  update_other-Runs, ended_with-id, cancelled_job-Keeps, find_sound,
}

-- A step that neither ends the job with the identifier nor enters another in its place.
abbrev pub leaves : Bytes → Step → Bool
leaves id (registering other) = not (bytes_eq other id)
leaves id (finishing other now result) = not (bytes_eq other id)
leaves id _ = true

not-true : (b : Bool) → not b ≡ true → b ≡ false
not-true true h = cc
not-true false h = refl

module _ (user_id id : Bytes) where
  -- Another job ends, and the old ones are swept.
  finish-Runs :
      (other : Bytes) (now : ℕ) (result : Option CopyError) (jobs : List Job)
      → bytes_eq other id ≡ false
      → Runs user_id id jobs
      → Runs user_id id (finish other now result jobs)
  unfolding finish sweep
  finish-Runs other now result jobs apart r =
      delete_where-Runs user_id id (is_old now) (update other (ended_with now result) jobs)
        (λ j _ unfinished. rw (is_old, unfinished) refl)
        (update_other-Runs user_id id other (ended_with now result) jobs (ended_with-id now result)
          apart r)

  shutdown-Runs : (jobs : List Job) → Runs user_id id jobs → Runs user_id id (shutdown jobs)
  unfolding shutdown
  shutdown-Runs [] r = r
  shutdown-Runs (j ∷ jobs) r = elim (Bool-cases (bytes_eq j.id id)) [
    | inl own ↦ head-Runs user_id id j (cancelled_job j) (shutdown jobs) own refl refl refl own r
    | inr not_own ↦
        cons-Runs user_id id (cancelled_job j) (shutdown jobs) not_own
          (shutdown-Runs jobs (tail-Runs user_id id j jobs not_own r))
  ]

  cancel-Runs :
      (other_user other : Bytes) (jobs : List Job)
      → Runs user_id id jobs
      → Runs user_id id (cancel other_user other jobs).0
  unfolding cancel
  cancel-Runs other_user other jobs r = found (get other_user other jobs)
    where
      found : (o : Outcome TransferError Job) → Runs user_id id (cancel_found other jobs o).0
      found (failed e) = r
      found (returned j) = update-Runs user_id id other cancelled_job jobs cancelled_job-Keeps r

  register-Runs :
      (other : Bytes) (st : State)
      → bytes_eq other id ≡ false
      → Runs user_id id st.jobs
      → Runs user_id id (register other st).jobs
  unfolding register
  register-Runs other st apart r = elim (Option-cases (find (has_id other) st.pending)) [
    | inl e ↦ rw e r
    | inr (j, e) ↦
        let same = bytes_eq_sound j.id other (find_sound (has_id other) st.pending j e) in
        rw e (enter-Runs user_id id j st.jobs (ap (λ i. bytes_eq i id) same ∙ apart) r)
  ]

  start-Runs :
      (other : Bytes) (kind : JobKind) (user : Bytes) (now : ℕ) (st : State)
      → Runs user_id id st.jobs
      → Runs user_id id (start other kind user now st).0.jobs
  start-Runs other kind user now st r = elim (start_cases other kind user now st) [
    | inl same ↦ subst (λ (after : State). Runs user_id id after.jobs) (sym same) r
    | inr (_, same) ↦ subst (λ (after : State). Runs user_id id after.jobs) (sym same) r
  ]

  step-Runs :
      (st : State) (s : Step)
      → leaves id s ≡ true
      → Runs user_id id st.jobs
      → Runs user_id id (after_step st s).jobs
  unfolding after_step
  step-Runs st (starting other kind user now) h r = start-Runs other kind user now st r
  step-Runs st (registering other) h r = register-Runs other st (not-true (bytes_eq other id) h) r
  step-Runs st (reporting other p) h r =
      update-Runs user_id id other (λ j. record j { progress = p }) st.jobs
        (record {
          id_kept = λ j. refl;
          user_kept = λ j. refl;
          state_kept = λ j. refl;
          finish_kept = λ j. refl;
        })
        r
  step-Runs st (finishing other now result) h r =
      finish-Runs other now result st.jobs (not-true (bytes_eq other id) h) r
  step-Runs st (cancelling other_user other) h r = cancel-Runs other_user other st.jobs r
  step-Runs st shutting_down h r = shutdown-Runs st.jobs r

  -- A job that runs is found, and runs, after any steps but its own end and the entry of a job with its
  -- identifier: no other job's end, no sweep and no request to cancel removes it or ends it.
  pub steps-Runs :
      (st : State) (steps : List Step)
      → All (λ s. leaves id s ≡ true) steps
      → Runs user_id id st.jobs
      → Runs user_id id (after_steps st steps).jobs
  unfolding after_steps
  steps-Runs st [] _ r = r
  steps-Runs st (s ∷ steps) (h, hs) r = steps-Runs (after_step st s) steps hs (step-Runs st s h r)
