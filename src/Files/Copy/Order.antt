-- ===== src/Files/Copy/Order.antt =====
-- internal/files/transfer.go: `walk` lists a directory before what is in it.
use mathlib.Core.Path.{subst}
use secure_crt.Base.{◌≡◌, ◌⊎◌, inl, inr, refl, Bool, true, false, List, [], ◌∷◌, ◌++◌}
use secure_crt.Base.Outcome.{
  Outcome, returned, >>=-returned, failed-ne-returned, returned-injective,
}
use secure_crt.Files.Copy.{
  CopyError, Route, parent, Node, file, symlink, directory, unreadable, Nodes, empty, node, Walked,
  and_more, walk_dirs, walk_dir, walk_files, walk_file, walk,
}

abbrev pub In : Route → List Route → Type 0
In r [] = ⊥
In r (s ∷ seen) = (r ≡ s) ⊎ In r seen

abbrev pub added : Bool → Route → List Route → List Route
added true r seen = r ∷ seen
added false r seen = seen

-- Each entry's directory is a known one, or a directory that was listed before it.
abbrev pub ParentsFirst : List Route → List Walked → Type 0
ParentsFirst seen [] = Unit {0}
ParentsFirst seen (w ∷ walked) =
    In (parent w.path) seen × ParentsFirst (added w.is_dir w.path seen) walked

abbrev Rooted : Route → List Walked → Type 0
Rooted dir walked = (seen : List Route) → In dir seen → ParentsFirst seen walked

In-added :
    (is_dir : Bool) (r dir : Route) (seen : List Route) → In dir seen → In dir (added is_dir r seen)
In-added true r dir seen h = inr h
In-added false r dir seen h = h

append-Rooted :
    (dir : Route) (xs ys : List Walked) → Rooted dir xs → Rooted dir ys → Rooted dir (xs ++ ys)
append-Rooted dir xs ys h k seen found = appended xs seen found (h seen found)
  where
    appended :
        (xs : List Walked) (seen : List Route)
        → In dir seen
        → ParentsFirst seen xs
        → ParentsFirst seen (xs ++ ys)
    appended [] seen found h = k seen found
    appended (w ∷ xs) seen found (here, later) = (
      here,
      appended xs (added w.is_dir w.path seen) (In-added w.is_dir w.path dir seen found) later,
    )

pub and_more-returned :
    (first rest : Outcome CopyError (List Walked)) {walked : List Walked}
    → and_more first rest ≡ returned walked
    → (xs : List Walked) × (ys : List Walked) × (first ≡ returned xs)
      × (rest ≡ returned ys)
      × ((xs ++ ys) ≡ walked)
and_more-returned first rest h =
    let (xs, here, h) = >>=-returned first _ h in
    let (ys, more, h) = >>=-returned rest _ h in (xs, ys, here, more, returned-injective h)

and_more-Rooted :
    (dir : Route) (first rest : Outcome CopyError (List Walked)) (walked : List Walked)
    → ((xs : List Walked) → first ≡ returned xs → Rooted dir xs)
    → ((ys : List Walked) → rest ≡ returned ys → Rooted dir ys)
    → and_more first rest ≡ returned walked
    → Rooted dir walked
and_more-Rooted dir first rest walked h k both =
    let (xs, ys, here, more, same) = and_more-returned first rest both in
    subst (Rooted dir) same (append-Rooted dir xs ys (h xs here) (k ys more))

nothing-Rooted :
    (dir : Route) (walked : List Walked)
    → ◌≡◌ {A = Outcome CopyError (List Walked)} (returned []) (returned walked)
    → Rooted dir walked
nothing-Rooted dir walked h = subst (Rooted dir) (returned-injective h) (λ seen found. tt)

walk_file-Rooted :
    (dir : Route) (n : Node) (walked : List Walked)
    → walk_file dir n ≡ returned walked
    → Rooted dir walked
unfolding walk_file
walk_file-Rooted dir (file name size) walked h =
    subst (Rooted dir) (returned-injective h) (λ seen found. (found, tt))
walk_file-Rooted dir (symlink name) walked h = nothing-Rooted dir walked h
walk_file-Rooted dir (directory name nodes) walked h = nothing-Rooted dir walked h
walk_file-Rooted dir (unreadable name e) walked h = nothing-Rooted dir walked h

walk_files-Rooted :
    (dir : Route) (nodes : Nodes) (walked : List Walked)
    → walk_files dir nodes ≡ returned walked
    → Rooted dir walked
unfolding walk_files
walk_files-Rooted dir empty walked h = nothing-Rooted dir walked h
walk_files-Rooted dir (node n nodes) walked h =
    and_more-Rooted dir (walk_file dir n) (walk_files dir nodes) walked (walk_file-Rooted dir n)
      (walk_files-Rooted dir nodes) h

mutual
  unfolding walk_dirs walk_dir walk_files

  walk_dirs-Rooted :
      (dir : Route) (nodes : Nodes) (walked : List Walked)
      → walk_dirs dir nodes ≡ returned walked
      → Rooted dir walked
  walk_dirs-Rooted dir empty walked h = nothing-Rooted dir walked h
  walk_dirs-Rooted dir (node n nodes) walked h =
      and_more-Rooted dir (walk_dir dir n) (walk_dirs dir nodes) walked (walk_dir-Rooted dir n)
        (walk_dirs-Rooted dir nodes) h

  walk_dir-Rooted :
      (dir : Route) (n : Node) (walked : List Walked)
      → walk_dir dir n ≡ returned walked
      → Rooted dir walked
  walk_dir-Rooted dir (file name size) walked h = nothing-Rooted dir walked h
  walk_dir-Rooted dir (symlink name) walked h = nothing-Rooted dir walked h
  walk_dir-Rooted dir (directory name nodes) walked h =
      let below = name ∷ dir in
      let (inner, more, same) =
        >>=-returned (and_more (walk_dirs below nodes) (walk_files below nodes)) _ h in
      let inner_first =
        and_more-Rooted below (walk_dirs below nodes) (walk_files below nodes) inner
          (walk_dirs-Rooted below nodes) (walk_files-Rooted below nodes) more in
      subst (Rooted dir) (returned-injective same)
        (λ seen found. (found, inner_first (below ∷ seen) (inl refl)))
  walk_dir-Rooted dir (unreadable name e) walked h = absurd (failed-ne-returned h)

-- Where the walk of a tree succeeds, every entry of it is directly in the root or in a directory that is
-- listed before the entry.
pub walk-ParentsFirst :
    (root : Route) (nodes : Nodes) (walked : List Walked)
    → walk root nodes ≡ returned walked
    → ParentsFirst (root ∷ []) walked
unfolding walk
walk-ParentsFirst root nodes walked h =
    and_more-Rooted root (walk_dirs root nodes) (walk_files root nodes) walked
      (walk_dirs-Rooted root nodes) (walk_files-Rooted root nodes) h (root ∷ []) (inl refl)
