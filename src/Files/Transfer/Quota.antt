-- ===== src/Files/Transfer/Quota.antt =====
-- internal/files/transfer.go: how many jobs an account has running.
use mathlib.Core.Path.{subst}
use secure_crt.Base.{
  ℕ, ◌+◌, suc, ◌≤◌, ◌<◌, ◌≡◌, ◌⊎◌, inl, inr, refl, sym, Bool, true, false, ◌&&◌, Option, none, some,
  List, [], ◌∷◌, leb, if-rule, Bool-cases, Option-cases, Bytes, bytes_eq, bytes_eq_sound,
  bytes_eq_refl, arith,
}
use secure_crt.Base.Outcome.{Outcome, failed, returned}
use secure_crt.Files.Copy.{
  CopyError, canceled, already_exists, short_write, into_itself, host_error,
}
use secure_crt.Files.Transfer.{
  Job, JobKind, TransferError, max_jobs_per_user, is_running, runs_for, count, check_quota,
  delete_where, has_id, enter, find, update, ended_with, is_old, sweep, finish, new_job, get,
  cancelled_job, cancel_found, cancel, shutdown, State, start, register, Step, starting,
  registering, reporting, finishing, cancelling, shutting_down, after_step, after_steps,
}

abbrev one : Bool → ℕ
one true = 1
one false = 0

count-cons :
    (test : Job → Bool) (j : Job) (jobs : List Job)
    → count test (j ∷ jobs) ≡ one (test j) + count test jobs
unfolding count
count-cons test j jobs = elim (Bool-cases (test j)) [
  | inl h ↦ rw h (omega arith)
  | inr h ↦ rw h (omega arith)
]

module _ (test : Job → Bool) where
  count-delete_where :
      (gone : Job → Bool) (jobs : List Job) → count test (delete_where gone jobs) ≤ count test jobs
  unfolding delete_where
  count-delete_where gone [] = omega arith
  count-delete_where gone (j ∷ jobs) =
      let rest = count-delete_where gone jobs in
      let whole = count-cons test j jobs in
      if-rule (λ (r : List Job). count test r ≤ count test (j ∷ jobs)) (gone j)
        (λ _. omega (arith, rest, whole))
        (λ _. omega (arith, rest, whole, count-cons test j (delete_where gone jobs)))

  count-update :
      (id : Bytes) (f : Job → Job) (jobs : List Job)
      → ((j : Job) → one (test (f j)) ≤ one (test j))
      → count test (update id f jobs) ≤ count test jobs
  unfolding update
  count-update id f [] h = omega arith
  count-update id f (j ∷ jobs) h =
      let rest = count-update id f jobs h in
      let whole = count-cons test j jobs in
      if-rule (λ (r : List Job). count test r ≤ count test (j ∷ jobs)) (bytes_eq j.id id)
        (λ _. omega (arith, rest, whole, h j, count-cons test (f j) (update id f jobs)))
        (λ _. omega (arith, rest, whole, count-cons test j (update id f jobs)))

  -- A job that is found counts among those of its identifier.
  count-find :
      (found : Job → Bool) (jobs : List Job) (j : Job)
      → find found jobs ≡ some j
      → one (test j) + count test (delete_where (has_id j.id) jobs) ≤ count test jobs
  unfolding find delete_where
  count-find found [] j h = absurd (none-ne-some h)
    where
      none-ne-some : none ≡ some j → ⊥
      none-ne-some h = cc
  count-find found (x ∷ jobs) j h = elim (Bool-cases (found x)) [
    | inl t ↦
        let same : x ≡ j = some-injective (rw t at h) in
        subst
          (λ (j : Job).
            one (test j) + count test (delete_where (has_id j.id) (x ∷ jobs))
            ≤ count test (x ∷ jobs))
          same
          (rw (bytes_eq_refl x.id)
            (omega (arith, count-cons test x jobs, count-delete_where (has_id x.id) jobs)))
    | inr t ↦
        let rest = count-find found jobs j (rw t at h) in
        let whole = count-cons test x jobs in
        if-rule (λ (r : List Job). one (test j) + count test r ≤ count test (x ∷ jobs))
          (bytes_eq x.id j.id) (λ _. omega (arith, rest, whole))
          (λ _. omega (arith, rest, whole, count-cons test x (delete_where (has_id j.id) jobs)))
  ]
    where
      some-injective : {y : Job} → some x ≡ some y → x ≡ y
      some-injective h = cc

abbrev pub is_of : Bytes → Job → Bool
is_of user_id j = bytes_eq j.user_id user_id

abbrev pub running : Bytes → State → ℕ
running user_id st = count (runs_for user_id) st.jobs

-- The calls of an account that are between the look at the quota and the entry of the job.
abbrev pub between : Bytes → State → ℕ
between user_id st = count (λ j. bytes_eq j.user_id user_id) st.pending

pub start_cases :
    (id : Bytes) (kind : JobKind) (user_id : Bytes) (now : ℕ) (st : State)
    → ((start id kind user_id now st).0 ≡ st)
      ⊎ ((running user_id st < max_jobs_per_user)
          × ((start id kind user_id now st).0
              ≡ record st { pending = new_job id kind user_id now ∷ st.pending }))
unfolding start check_quota
start_cases id kind user_id now st =
    elim (Bool-cases (leb max_jobs_per_user (running user_id st))) [
      | inl full ↦ inl (rw (start, full) refl)
      | inr free ↦ inr (ground (arith, free), rw (start, free) refl)
    ]

one-and : (b c : Bool) → one (b && c) ≤ one b
one-and true true = omega arith
one-and true false = omega arith
one-and false c = omega arith

one-and_false : (b c : Bool) → one (b && false) ≤ one (b && c)
one-and_false true c = omega arith
one-and_false false c = omega arith

one-ended :
    (user_id : Bytes) (now : ℕ) (result : Option CopyError) (j : Job)
    → one (runs_for user_id (ended_with now result j)) ≤ one (runs_for user_id j)
one-ended user_id now none j = one-and_false (is_of user_id j) (is_running j.state)
one-ended user_id now (some canceled) j = one-and_false (is_of user_id j) (is_running j.state)
one-ended user_id now (some already_exists) j = one-and_false (is_of user_id j) (is_running j.state)
one-ended user_id now (some short_write) j = one-and_false (is_of user_id j) (is_running j.state)
one-ended user_id now (some into_itself) j = one-and_false (is_of user_id j) (is_running j.state)
one-ended user_id now (some (host_error e)) j = one-and_false (is_of user_id j) (is_running j.state)

module _ (user_id : Bytes) where
  load : State → ℕ
  load st = running user_id st + between user_id st

  cancel-fewer :
      (other id : Bytes) (jobs : List Job)
      → count (runs_for user_id) (cancel other id jobs).0 ≤ count (runs_for user_id) jobs
  unfolding cancel
  cancel-fewer other id jobs = found (get other id jobs)
    where
      found :
          (o : Outcome TransferError Job)
          → count (runs_for user_id) (cancel_found id jobs o).0 ≤ count (runs_for user_id) jobs
      found (failed e) = omega arith
      found (returned j) = count-update (runs_for user_id) id cancelled_job jobs (λ j. omega arith)

  shutdown-fewer :
      (jobs : List Job) → count (runs_for user_id) (shutdown jobs) ≤ count (runs_for user_id) jobs
  unfolding shutdown
  shutdown-fewer [] = omega arith
  shutdown-fewer (j ∷ jobs) = omega (
    arith,
    shutdown-fewer jobs,
    count-cons (runs_for user_id) j jobs,
    count-cons (runs_for user_id) (cancelled_job j) (shutdown jobs),
  )

  register-load : (id : Bytes) (st : State) → load (register id st) ≤ load st
  unfolding register load enter
  register-load id st = elim (Option-cases (find (has_id id) st.pending)) [
    | inl e ↦ rw e (omega arith)
    | inr (j, e) ↦ rw e (
        omega (
          arith,
          count-find (is_of user_id) (has_id id) st.pending j e,
          count-delete_where (runs_for user_id) (has_id j.id) st.jobs,
          count-cons (runs_for user_id) j (delete_where (has_id j.id) st.jobs),
          one-and (is_of user_id j) (is_running j.state),
        ))
  ]

  step-load :
      (k : ℕ) (st : State) (s : Step)
      → suc (load st) ≤ max_jobs_per_user + k
      → between user_id (after_step st s) ≤ k
      → suc (load (after_step st s)) ≤ max_jobs_per_user + k
  unfolding load after_step finish sweep
  step-load k st (starting id kind user now) h few = elim (start_cases id kind user now st) [
    | inl same ↦ subst (λ (after : State). suc (load after) ≤ max_jobs_per_user + k) (sym same) h
    | inr (free, e) ↦ started free (few_of e) e
  ]
    where
      new : Job
      new = new_job id kind user now

      no_more : bytes_eq user user_id ≡ false → one (bytes_eq user user_id) ≡ 0
      no_more other = rw other refl

      few_of :
          (start id kind user now st).0 ≡ record st { pending = new ∷ st.pending }
          → count (is_of user_id) (new ∷ st.pending) ≤ k
      few_of e = subst (λ (after : State). between user_id after ≤ k) e few

      started :
          running user st < max_jobs_per_user
          → count (is_of user_id) (new ∷ st.pending) ≤ k
          → (start id kind user now st).0 ≡ record st { pending = new ∷ st.pending }
          → suc (load (start id kind user now st).0) ≤ max_jobs_per_user + k
      started free few e =
          let more = count-cons (is_of user_id) new st.pending in
          subst (λ (after : State). suc (load after) ≤ max_jobs_per_user + k) (sym e)
            (elim (Bool-cases (bytes_eq user user_id)) [
              | inl own ↦
                  let free : running user_id st < max_jobs_per_user =
                    subst (λ (u : Bytes). running u st < max_jobs_per_user)
                      (bytes_eq_sound user user_id own) free in
                  omega (arith, free, few)
              | inr other ↦ omega (arith, h, more, no_more other)
            ])
  step-load k st (registering id) h few = omega (arith, h, register-load id st)
  step-load k st (reporting id p) h few = omega (
    arith,
    h,
    count-update (runs_for user_id) id (λ j. record j { progress = p }) st.jobs (λ j. omega arith),
  )
  step-load k st (finishing id now result) h few = omega (
    arith,
    h,
    count-update (runs_for user_id) id (ended_with now result) st.jobs
        (one-ended user_id now result),
    count-delete_where (runs_for user_id) (is_old now) (update id (ended_with now result) st.jobs),
  )
  step-load k st (cancelling other id) h few = omega (arith, h, cancel-fewer other id st.jobs)
  step-load k st shutting_down h few = omega (arith, h, shutdown-fewer st.jobs)

  -- At each state of a run at most so many calls of the account are between the look and the entry.
  abbrev pub Overlapping : ℕ → State → List Step → Type 0
  Overlapping k st [] = between user_id st ≤ k
  Overlapping k st (s ∷ steps) = (between user_id st ≤ k) × Overlapping k (after_step st s) steps

  now-Overlapping :
      (k : ℕ) (st : State) (steps : List Step) → Overlapping k st steps → between user_id st ≤ k
  now-Overlapping k st [] h = h
  now-Overlapping k st (s ∷ steps) (h, _) = h

  steps-load :
      (k : ℕ) (st : State) (steps : List Step)
      → suc (load st) ≤ max_jobs_per_user + k
      → Overlapping k st steps
      → suc (load (after_steps st steps)) ≤ max_jobs_per_user + k
  unfolding after_steps
  steps-load k st [] h few = h
  steps-load k st (s ∷ steps) h (_, few) =
      steps-load k (after_step st s) steps
        (step-load k st s h (now-Overlapping k (after_step st s) steps few)) few

  -- An account has at most eight jobs running when its calls that start one do not overlap, and one more for
  -- each further call that may be between its look at the quota and the entry of its job at the same time.
  pub running-bounded :
      (k : ℕ) (steps : List Step)
      → 1 ≤ k
      → Overlapping k (record { jobs = []; pending = [] }) steps
      → suc (running user_id (after_steps (record { jobs = []; pending = [] }) steps))
        ≤ max_jobs_per_user + k
  unfolding load count
  running-bounded k steps h few =
      let st : State = record { jobs = []; pending = [] } in
      let bound = steps-load k st steps (omega (arith, h)) few in omega (arith, bound)
