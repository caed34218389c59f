-- ===== src/Files/Copy/Totals.antt =====
-- internal/files/transfer.go: what a copy has done when it ends well.

use secure_crt.Base.{ℕ, ◌+◌, ◌≡◌, sym, ap, ◌∙◌, false, List, [], ◌∷◌, ◌++◌, arith}
use secure_crt.Base.Outcome.{returned, failed-ne-returned, returned-injective}
use secure_crt.Files.Copy.{
  Route, Node, file, symlink, directory, unreadable, Nodes, empty, node, Walked, walked_dir,
  and_more, walk_dirs, walk_dir, walk_files, walk_file, walk,
}
use secure_crt.Files.Copy.Order.{and_more-returned}

-- A measure of the entries, summed over what was walked.
abbrev pub sum : (Walked → ℕ) → List Walked → ℕ
sum of [] = 0
sum of (w ∷ walked) = of w + sum of walked

-- The same summed over a tree, links left out.
abbrev mutual
  pub sum_in : (Walked → ℕ) → Route → Nodes → ℕ
  sum_in of dir empty = 0
  sum_in of dir (node n nodes) = sum_of of dir n + sum_in of dir nodes

  pub sum_of : (Walked → ℕ) → Route → Node → ℕ
  sum_of of dir (file name size) = of (record { path = name ∷ dir; size = size; is_dir = false })
  sum_of of dir (symlink name) = 0
  sum_of of dir (directory name nodes) = of (walked_dir (name ∷ dir)) + sum_in of (name ∷ dir) nodes
  sum_of of dir (unreadable name e) = 0

sum-append : (of : Walked → ℕ) (xs ys : List Walked) → sum of (xs ++ ys) ≡ sum of xs + sum of ys
sum-append of [] ys = omega arith
sum-append of (x ∷ xs) ys = omega (arith, sum-append of xs ys)

module _ (of : Walked → ℕ) where
  mutual
    unfolding walk_dirs walk_files walk_dir walk_file

    sum-walked :
        (dir : Route) (nodes : Nodes) (xs ys : List Walked)
        → walk_dirs dir nodes ≡ returned xs
        → walk_files dir nodes ≡ returned ys
        → sum of xs + sum of ys ≡ sum_in of dir nodes
    sum-walked dir empty xs ys h k =
        let no_dirs : sum of xs ≡ 0 = ap (sum of) (sym (returned-injective h)) in
        let no_files : sum of ys ≡ 0 = ap (sum of) (sym (returned-injective k)) in
        omega (arith, no_dirs, no_files)
    sum-walked dir (node n nodes) xs ys h k =
        let (a, more_a, ha, hmore, same_x) =
          and_more-returned (walk_dir dir n) (walk_dirs dir nodes) h in
        let (b, more_b, hb, kmore, same_y) =
          and_more-returned (walk_file dir n) (walk_files dir nodes) k in
        let one = sum-walked_node dir n a b ha hb in
        let rest = sum-walked dir nodes more_a more_b hmore kmore in
        let xs_sum : sum of xs ≡ sum of a + sum of more_a =
          ap (sum of) (sym same_x) ∙ sum-append of a more_a in
        let ys_sum : sum of ys ≡ sum of b + sum of more_b =
          ap (sum of) (sym same_y) ∙ sum-append of b more_b in
        omega (arith, one, rest, xs_sum, ys_sum)

    sum-walked_node :
        (dir : Route) (n : Node) (xs ys : List Walked)
        → walk_dir dir n ≡ returned xs
        → walk_file dir n ≡ returned ys
        → sum of xs + sum of ys ≡ sum_of of dir n
    sum-walked_node dir (file name size) xs ys h k =
        let no_dirs : sum of xs ≡ 0 = ap (sum of) (sym (returned-injective h)) in
        let one_file : sum of ys
            ≡ of (record { path = name ∷ dir; size = size; is_dir = false }) + 0 =
          ap (sum of) (sym (returned-injective k)) in
        omega (arith, no_dirs, one_file)
    sum-walked_node dir (symlink name) xs ys h k =
        let no_dirs : sum of xs ≡ 0 = ap (sum of) (sym (returned-injective h)) in
        let no_files : sum of ys ≡ 0 = ap (sum of) (sym (returned-injective k)) in
        omega (arith, no_dirs, no_files)
    sum-walked_node dir (directory name nodes) xs ys h k =
        let below = name ∷ dir in
        let (own, inner, first, more, same) =
          and_more-returned (returned (walked_dir below ∷ []))
            (and_more (walk_dirs below nodes) (walk_files below nodes)) h in
        let (a, b, ha, hb, same_inner) =
          and_more-returned (walk_dirs below nodes) (walk_files below nodes) more in
        let deep = sum-walked below nodes a b ha hb in
        let own_sum : sum of own ≡ of (walked_dir below) + 0 =
          ap (sum of) (sym (returned-injective first)) in
        let inner_sum : sum of inner ≡ sum of a + sum of b =
          ap (sum of) (sym same_inner) ∙ sum-append of a b in
        let xs_sum : sum of xs ≡ sum of own + sum of inner =
          ap (sum of) (sym same) ∙ sum-append of own inner in
        let no_files : sum of ys ≡ 0 = ap (sum of) (sym (returned-injective k)) in
        omega (arith, deep, own_sum, inner_sum, xs_sum, no_files)
    sum-walked_node dir (unreadable name e) xs ys h k = absurd (failed-ne-returned h)

  -- Where the walk of a tree succeeds it has every file and directory of the tree, links left out, as often as
  -- the tree has it: any measure sums to the same over both.
  pub walk-sum :
      (root : Route) (nodes : Nodes) (walked : List Walked)
      → walk root nodes ≡ returned walked
      → sum of walked ≡ sum_in of root nodes
  unfolding walk
  walk-sum root nodes walked h =
      let (xs, ys, hx, hy, same) =
        and_more-returned (walk_dirs root nodes) (walk_files root nodes) h in
      sym (ap (sum of) same) ∙ sum-append of xs ys ∙ sum-walked root nodes xs ys hx hy
