-- ===== src/Files/Tests.antt =====
-- Runs of transfers at concrete inputs.
use secure_crt.Base.{
  suc, ◌+◌, ◌≤◌, ◌≡◌, refl, true, false, none, some, List, [], ◌∷◌, ◌++◌, Bytes, codes, bytes_eq,
  arith,
}
use secure_crt.Base.Outcome.{returned}
use secure_crt.Files.Copy.{
  read_on, end_of_file, Turn, Route, file, symlink, directory, Nodes, empty, node, Walked, walk,
  walk_dirs, walk_files, walk_dir, walk_file, within, Progress, Hosts, Paths, relative,
}
use secure_crt.Files.Copy.Order.{ParentsFirst, walk-ParentsFirst}
use secure_crt.Files.Transfer.{
  job_copy, job_delete, max_jobs_per_user, count, check_quota, delete_where, enter, find, new_job,
  State, start, register, Step, starting, registering, finishing, cancelling, after_step,
  after_steps,
}
use secure_crt.Files.Transfer.Quota.{running, running-bounded}
use secure_crt.Files.Transfer.Lifetime.{steps-Runs}
use secure_crt.Files.Transfer.Running.{Runs}

abbrev turns : List Turn
turns =
    record {
      cancelled = false;
      chunk = codes "ab";
      ended = read_on;
      accepted = 2;
      write_error = none;
    }
    ∷ record {
      cancelled = false;
      chunk = codes "c";
      ended = end_of_file;
      accepted = 1;
      write_error = none;
    }
    ∷ []

-- A file, a link, and a directory with a file.
abbrev nodes : Nodes
nodes = node (file (codes "f") 3) (
    node (symlink (codes "l"))
      (node (directory (codes "d") (node (file (codes "g") 3) empty)) empty))

abbrev root : Route
root = codes "r" ∷ []

abbrev listed : List Walked
listed =
    record { path = codes "d" ∷ root; size = 0; is_dir = true }
    ∷ record { path = codes "g" ∷ codes "d" ∷ root; size = 3; is_dir = false }
    ∷ record { path = codes "f" ∷ root; size = 3; is_dir = false }
    ∷ []

walk-ParentsFirst_example : ParentsFirst (root ∷ []) listed
unfolding walk walk_dirs walk_dir walk_files walk_file
walk-ParentsFirst_example = walk-ParentsFirst root nodes listed refl

abbrev hosts : Hosts
hosts = record {
  is_cancelled = λ r. false;
  exists = λ r. false;
  reader = λ r. returned turns;
  writer = λ r. none;
  close = λ r. none;
  mkdir = λ r. none;
}

abbrev none_yet : Progress
none_yet = record { total_bytes = 0; done_bytes = 0; total_files = 0; done_files = 0; current = [] }

-- Two files are done of a total of three, in which the directory counts.
abbrev all_done : Progress
all_done = record {
  total_bytes = 6;
  done_bytes = 6;
  total_files = 3;
  done_files = 2;
  current = codes "f" ∷ root;
}

-- A slash before each name; a join keeps what it is given as one name.
abbrev spelled : Route → Bytes
spelled [] = []
spelled (name ∷ dir) = spelled dir ++ codes "/" ++ name

abbrev paths : Paths
paths = record { source_path = codes "/r"; spelled = spelled; join = λ to rest. rest ∷ to }

-- The listings clean the path that they are asked for, the slice does not: a name is cut, and a longer run of
-- slashes ends in a panic.
uncleaned :
    (relative (codes "/r//") (codes "/r/abc") ≡ some (codes "bc"))
    × (relative (codes "/r//////") (codes "/r/abc") ≡ none)
uncleaned = (refl, refl)

-- The root is cleaned to a slash, and what is beneath it is not found to be.
not_within_root : within (λ p. p) (codes "/backup") (codes "/") ≡ false
unfolding within bytes_eq
not_within_root = refl

abbrev idle : State
idle = record { jobs = []; pending = [] }

-- Two calls look before either enters its job.
abbrev overlapping : List Step
overlapping =
    starting (codes "1") job_copy (codes "u") 5
    ∷ starting (codes "2") job_delete (codes "u") 5
    ∷ registering (codes "1")
    ∷ registering (codes "2")
    ∷ []

running-bounded_example :
    suc (running (codes "u") (after_steps idle overlapping)) ≤ max_jobs_per_user + 2
unfolding after_steps after_step start register check_quota count find enter delete_where bytes_eq
running-bounded_example =
    running-bounded (codes "u") 2 overlapping (omega arith)
      (omega arith, (omega arith, (omega arith, (omega arith, omega arith))))

abbrev entered : State
entered =
    after_steps idle (starting (codes "1") job_copy (codes "u") 5 ∷ registering (codes "1") ∷ [])

steps-Runs_example :
    Runs
      (codes "u")
      (codes "1")
      (after_steps entered
        (cancelling (codes "u") (codes "1") ∷ finishing (codes "2") 9000 none ∷ [])).jobs
unfolding after_steps after_step start register check_quota count find enter delete_where bytes_eq
steps-Runs_example =
    steps-Runs (codes "u") (codes "1") entered
      (cancelling (codes "u") (codes "1") ∷ finishing (codes "2") 9000 none ∷ []) (refl, (refl, tt))
      (record {
        job = new_job (codes "1") job_copy (codes "u") 5;
        found = refl;
        owned = refl;
        is_running = refl;
        unfinished = refl;
      })

-- Nine calls that look at the quota first all get their job: one more than the limit runs.
abbrev nine : List Bytes
nine =
    codes "1"
    ∷ codes "2"
    ∷ codes "3"
    ∷ codes "4"
    ∷ codes "5"
    ∷ codes "6"
    ∷ codes "7"
    ∷ codes "8"
    ∷ codes "9"
    ∷ []

abbrev started : State → List Bytes → State
started st [] = st
started st (id ∷ ids) = started (after_step st (starting id job_copy (codes "u") 5)) ids

abbrev registered : State → List Bytes → State
registered st [] = st
registered st (id ∷ ids) = registered (after_step st (registering id)) ids

nine_run : running (codes "u") (registered (started idle nine) nine) ≡ 9
unfolding after_steps after_step start register check_quota count find enter delete_where bytes_eq
nine_run = refl
