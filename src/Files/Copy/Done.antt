-- ===== src/Files/Copy/Done.antt =====
-- internal/files/transfer.go: what a copy that ends well has sent and counted.
use secure_crt.Base.{
  ℕ, ◌+◌, ◌≡◌, ◌⊎◌, Bool, true, false, Option, none, some, List, All, if◌then◌else◌,
}
use secure_crt.Base.Outcome.{Outcome, returned}
use secure_crt.Files.Copy.{Route, parent, Nodes, Walked, walk, Progress, Hosts, Paths, place_of}
use secure_crt.Files.Copy.Totals.{sum_in}
use secure_crt.Files.Copy.Sent.{Sent}

module _ (hosts : Hosts) where
  -- What is asked of an entry: a directory that was made, or a file that was sent, whose directory was made.
  abbrev pub Arrived : Bool → Walked → Route → Type 0
  Arrived overwrite f to =
      ((f.is_dir ≡ true) × (hosts.mkdir to ≡ none))
      ⊎ ((f.is_dir ≡ false) × (hosts.mkdir (parent to) ≡ none) × Sent hosts overwrite f.path to)

  abbrev pub Copied : Bool → (Route → Option Route) → Walked → Type 0
  Copied overwrite target f = (to : Route) × (target f.path ≡ some to) × Arrived overwrite f to

  abbrev pub one_file : Walked → ℕ
  one_file f = if f.is_dir then 0 else 1

  -- What holds of the job and of the entries when a tree has been copied.
  abbrev pub TreeCopied : Paths → Bool → Route → Route → Nodes → Progress → Progress → Type 0
  TreeCopied paths overwrite from to nodes before after =
      (files : List Walked) × (walk from nodes ≡ returned files)
      × All (Copied overwrite (place_of paths to)) files
      × (after.done_files ≡ before.done_files + sum_in one_file from nodes)
      × (after.total_files ≡ sum_in (λ f. 1) from nodes)
      × (after.total_bytes ≡ sum_in (λ f. f.size) from nodes)
