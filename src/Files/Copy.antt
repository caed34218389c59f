-- ===== src/Files/Copy.antt =====
-- internal/files/transfer.go: copying a file or a tree from one host to another. The source's tree is what its
-- listings say during the walk; what the hosts answer to the other requests of a copy is a record of functions of
-- the path. A path of an entry is the list of its names, the last one first. How the listings spell it and what
-- the package path makes of a join are parameters; the source's own path is the text that the request holds.
pub mod Stream
pub mod Order
pub mod Totals
pub mod Done
pub mod Sent
pub mod Within
use secure_crt.Base.{
  ℕ, ◌+◌, ◌-◌, suc, Bool, true, false, not, ◌&&◌, ◌||◌, Option, none, some, List, [], ◌∷◌, ◌++◌,
  ltb, ◌==◌, if◌then◌else◌, Bytes, bytes_eq, length, take, drop,
}
use secure_crt.Base.Outcome.{Outcome, failed, returned, ◌>>=◌}

pub data CopyError : Type 0 where
  canceled already_exists short_write into_itself : CopyError
  host_error : Bytes → CopyError

-- How a read ends: with no error, with io.EOF or with another error.
pub data ReadEnd : Type 0 where
  read_on end_of_file : ReadEnd
  read_error : CopyError → ReadEnd

-- One turn of the loop: whether the context is cancelled before it, what is read, and what the writer answers.
pub record Turn : Type 0 where
  pub cancelled : Bool
  pub chunk : Bytes
  pub ended : ReadEnd
  pub accepted : ℕ
  pub write_error : Option CopyError

-- What has reached the destination, what has been reported, and how the loop ended; `none` while it runs.
pub record Streamed : Type 0 where
  pub sent : Bytes
  pub progress : ℕ
  pub ended : Option (Outcome CopyError (Unit {0}))

abbrev pub stopped : CopyError → Streamed
stopped e = record { sent = []; progress = 0; ended = some (failed e) }

abbrev pub after_read : ReadEnd → Streamed → Streamed
after_read read_on rest = rest
after_read end_of_file rest = record { sent = []; progress = 0; ended = some (returned tt) }
after_read (read_error e) rest = stopped e

-- The writes of this turn before the rest's.
abbrev pub wrote : Turn → Streamed → Streamed
wrote t rest = record {
  sent = take t.accepted t.chunk ++ rest.sent;
  progress = t.accepted + rest.progress;
  ended = rest.ended;
}

abbrev pub after_write : Turn → Option CopyError → Streamed → Streamed
after_write t (some e) rest = wrote t (stopped e)
after_write t none rest =
    if not (t.accepted == length t.chunk)
    then wrote t (stopped short_write)
    else wrote t (after_read t.ended rest)

unfoldable pub stream : List Turn → Streamed
stream [] = record { sent = []; progress = 0; ended = none }
stream (t ∷ turns) =
    let rest = stream turns in
    if t.cancelled
    then stopped canceled
    else if 0 == length t.chunk
    then after_read t.ended rest
    else after_write t t.write_error rest

abbrev pub Route : Type 0
Route = List Bytes

-- path.Dir
abbrev pub parent : Route → Route
parent [] = []
parent (name ∷ dir) = dir

-- `s[0] == '/'`, of a text that is not empty.
abbrev pub starts_below : Bytes → Bool
starts_below [] = false
starts_below (c ∷ s) = c == 0x2F

-- What a listing of a directory shows, with what is beneath; a directory may fail to be listed.
mutual
  pub data Node : Type 0 where
    file : Bytes → ℕ → Node
    symlink : Bytes → Node
    directory : Bytes → Nodes → Node
    unreadable : Bytes → CopyError → Node

  pub data Nodes : Type 0 where
    empty : Nodes
    node : Node → Nodes → Nodes

pub record Walked : Type 0 where
  pub path : Route
  pub size : ℕ
  pub is_dir : Bool

abbrev pub walked_dir : Route → Walked
walked_dir path = record { path = path; size = 0; is_dir = true }

abbrev pub and_more :
    Outcome CopyError (List Walked)
    → Outcome CopyError (List Walked)
    → Outcome CopyError (List Walked)
and_more first rest = first >>= λ here. rest >>= λ more. returned (here ++ more)

-- A listing is sorted, stably, with its directories first: its directories are visited, then its files.
unfoldable mutual
  pub walk_dirs : Route → Nodes → Outcome CopyError (List Walked)
  walk_dirs dir empty = returned []
  walk_dirs dir (node n nodes) = and_more (walk_dir dir n) (walk_dirs dir nodes)

  pub walk_dir : Route → Node → Outcome CopyError (List Walked)
  walk_dir dir (file name size) = returned []
  walk_dir dir (symlink name) = returned []
  walk_dir dir (directory name nodes) =
      and_more (returned (walked_dir (name ∷ dir) ∷ []))
        (and_more (walk_dirs (name ∷ dir) nodes) (walk_files (name ∷ dir) nodes))
  walk_dir dir (unreadable name e) = failed e

  pub walk_files : Route → Nodes → Outcome CopyError (List Walked)
  walk_files dir empty = returned []
  walk_files dir (node n nodes) = and_more (walk_file dir n) (walk_files dir nodes)

  pub walk_file : Route → Node → Outcome CopyError (List Walked)
  walk_file dir (file name size) =
      returned (record { path = name ∷ dir; size = size; is_dir = false } ∷ [])
  walk_file dir (symlink name) = returned []
  walk_file dir (directory name nodes) = returned []
  walk_file dir (unreadable name e) = returned []

unfoldable pub walk : Route → Nodes → Outcome CopyError (List Walked)
walk root nodes = and_more (walk_dirs root nodes) (walk_files root nodes)

-- What `path.Clean` makes of a text is a parameter.
unfoldable pub within : (Bytes → Bytes) → Bytes → Bytes → Bool
within clean inner outer =
    let inner = clean inner in
    let outer = clean outer in
    if bytes_eq inner outer
    then true
    else ltb (length outer) (length inner)
      && (bytes_eq (take (length outer) inner) outer && starts_below (drop (length outer) inner))

-- The counts that a copy keeps in its job.
pub record Progress : Type 0 where
  pub total_bytes : ℕ
  pub done_bytes : ℕ
  pub total_files : ℕ
  pub done_files : ℕ
  pub current : Route

-- What the hosts answer in one copy. A reader comes with the turns of its stream.
pub record Hosts : Type 0 where
  pub is_cancelled : Route → Bool
  pub exists : Route → Bool
  pub reader : Route → Outcome CopyError (List Turn)
  pub writer : Route → Option CopyError
  pub close : Route → Option CopyError
  pub mkdir : Route → Option CopyError

abbrev pub or_done : Option CopyError → Outcome CopyError (Unit {0})
or_done none = returned tt
or_done (some e) = failed e

-- A body that does not come back is `none`: a stream that still runs holds the job, and a slice that is out of
-- range panics.
abbrev pub Ran : Type 0
Ran = Progress × Option (Outcome CopyError (Unit {0}))

-- The rest of a body, behind `if err != nil { return err }`.
abbrev pub and_then : Ran → (Progress → Ran) → Ran
and_then (j, none) rest = (j, none)
and_then (j, some (failed e)) rest = (j, some (failed e))
and_then (j, some (returned _)) rest = rest j

-- What `Stat` says of the source: a file with its size, or a directory, or a link to one.
pub data Source : Type 0 where
  single : ℕ → Source
  tree : Nodes → Source

abbrev pub sum_sizes : List Walked → ℕ
sum_sizes [] = 0
sum_sizes (f ∷ files) = f.size + sum_sizes files

-- The spelling of paths: the source's as it was asked for, those of the listings, and path.Join of a path and a
-- text.
pub record Paths : Type 0 where
  pub source_path : Bytes
  pub spelled : Route → Bytes
  pub join : Route → Bytes → Route

-- `f.Path[len(p.SourcePath):]`
abbrev pub relative : Bytes → Bytes → Option Bytes
relative source_path path =
    if ltb (length path) (length source_path) then none else some (drop (length source_path) path)

-- The place below the destination's root of an entry of the source.
abbrev pub joined : Paths → Route → Option Bytes → Option Route
joined paths to none = none
joined paths to (some rest) = some (paths.join to rest)

abbrev pub place_of : Paths → Route → Route → Option Route
place_of paths to path = joined paths to (relative paths.source_path (paths.spelled path))

abbrev pub with_target : Progress → Option Route → (Route → Ran) → Ran
with_target j none rest = (j, none)
with_target j (some to) rest = rest to

module _ (hosts : Hosts) where
  abbrev pub streamed : Progress → List Turn → Ran
  streamed j turns =
      let s = stream turns in (record j { done_bytes = j.done_bytes + s.progress }, s.ended)

  -- The mode of the file is set after that, whose failure is not looked at.
  unfoldable pub copy_opened : Progress → Route → Outcome CopyError (List Turn) → Ran
  copy_opened j to (failed e) = (j, some (failed e))
  copy_opened j to (returned turns) =
      and_then (j, some (or_done (hosts.writer to)))
        λ j. and_then (streamed j turns) λ j.
          and_then (j, some (or_done (hosts.close to)))
            λ j. (record j { done_files = suc j.done_files }, some (returned tt))

  unfoldable pub copy_file : Progress → Route → Route → Bool → Ran
  copy_file j from to overwrite =
      if not overwrite && hosts.exists to
      then (j, some (failed already_exists))
      else copy_opened (record j { current = from }) to (hosts.reader from)

  -- The loop over what was walked, each entry with its place at the destination.
  unfoldable pub copy_all : Progress → Bool → (Route → Option Route) → List Walked → Ran
  copy_all j overwrite target [] = (j, some (returned tt))
  copy_all j overwrite target (f ∷ files) =
      if hosts.is_cancelled f.path
      then (j, some (failed canceled))
      else with_target j (target f.path) λ to.
        if f.is_dir
        then (and_then (j, some (or_done (hosts.mkdir to))) λ j. copy_all j overwrite target files)
        else and_then (j, some (or_done (hosts.mkdir (parent to))))
            λ j. and_then (copy_file j f.path to overwrite) λ j. copy_all j overwrite target files

  unfoldable pub copy_tree : Paths → Progress → Route → Bool → Outcome CopyError (List Walked) → Ran
  copy_tree paths j to overwrite (failed e) = (j, some (failed e))
  copy_tree paths j to overwrite (returned files) =
      copy_all (record j { total_files = length files; total_bytes = sum_sizes files }) overwrite
        (place_of paths to) files

  unfoldable pub copy_source : Paths → Progress → Route → Route → Bool → Source → Ran
  copy_source paths j from to overwrite (single size) =
      copy_file (record j { total_files = 1; total_bytes = size }) from to overwrite
  copy_source paths j from to overwrite (tree nodes) =
      copy_tree paths j to overwrite (walk from nodes)

  -- The copy; `inside` is whether it stays on one host and its destination is in its source.
  unfoldable pub run_copy :
      Paths → Progress → Bool → Route → Route → Bool → Outcome CopyError Source → Ran
  run_copy paths j inside from to overwrite (failed e) = (j, some (failed e))
  run_copy paths j inside from to overwrite (returned source) =
      if inside
      then (j, some (failed into_itself))
      else copy_source paths j from to overwrite source
