-- ===== src/Sessions/Folders/Walks.antt =====
-- sessions.go: what the walks of `depthOf` and `checkMove` have seen when they end well.
use mathlib.Core.Path.{subst}
use secure_crt.Base.{
  ℕ, suc, zero, ◌≡◌, ◌≢◌, refl, sym, ap, ◌∙◌, inl, inr, Bool, true, false, Bool-cases, Option, none,
  some, List, [], ◌∷◌, Bytes, bytes_eq, bytes_eq_sound, bytes_eq_apart,
}
use secure_crt.Base.Outcome.{Outcome, returned, >>=-returned, failed-ne-returned}
use secure_crt.Sessions.Rules.{is_empty}
use secure_crt.Sessions.Folders.{Folder, TreeError, Faults, find, own, depth_walk, move_walk}

-- From a folder, its parents lead to the top level, over folders of one owner.
pub data Rooted (fs : List Folder) (owner_id : Bytes) : Bytes → Type 0 where
  top : Rooted fs owner_id []
  under :
      {id : Bytes} (f : Folder)
      → find id fs ≡ some f
      → f.owner_id ≡ owner_id
      → Rooted fs owner_id f.parent_id
      → Rooted fs owner_id id

-- The same, and not over a given folder.
pub data Avoiding (fs : List Folder) (owner_id barred : Bytes) : Bytes → Type 0 where
  top : Avoiding fs owner_id barred []
  under :
      {id : Bytes} (f : Folder)
      → id ≢ barred
      → find id fs ≡ some f
      → f.owner_id ≡ owner_id
      → Avoiding fs owner_id barred f.parent_id
      → Avoiding fs owner_id barred id

pub some-injective : {f g : Folder} → some f ≡ some g → f ≡ g
some-injective h = cc

pub none-ne-some : {f : Folder} → none ≢ some f
none-ne-some h = cc

pub find-id : (id : Bytes) (fs : List Folder) (f : Folder) → find id fs ≡ some f → f.id ≡ id
unfolding find
find-id id [] f h = absurd (none-ne-some h)
find-id id (g ∷ fs) f h = elim (Bool-cases (bytes_eq g.id id)) [
  | inl e ↦
      let k : some g ≡ some f = rw e at h in
      ap (λ (r : Folder). r.id) (sym (some-injective k)) ∙ bytes_eq_sound g.id id e
  | inr e ↦ find-id id fs f (rw e at h)
]

pub empty_sound : (xs : Bytes) → is_empty xs ≡ true → [] ≡ xs
empty_sound [] h = refl
empty_sound (x ∷ xs) h = cc

pub own_sound :
    (fails : Bool) (owner_id : Bytes) (o : Option Folder) (f : Folder)
    → own fails owner_id o ≡ returned f
    → (o ≡ some f) × (f.owner_id ≡ owner_id)
unfolding own
own_sound true owner_id o f h = absurd (failed-ne-returned h)
own_sound false owner_id none f h = absurd (failed-ne-returned h)
own_sound false owner_id (some g) f h = elim (Bool-cases (bytes_eq g.owner_id owner_id)) [
  | inl e ↦
      let k : returned g ≡ returned f = rw e at h in
      let same : g ≡ f = returned-injective k in
      (
        ap some same,
        ap (λ (r : Folder). r.owner_id) (sym same) ∙ bytes_eq_sound g.owner_id owner_id e,
      )
  | inr e ↦ absurd (failed-ne-returned (rw e at h))
]
  where
    returned-injective :
        {f g : Folder} → ◌≡◌ {A = Outcome TreeError Folder} (returned f) (returned g) → f ≡ g
    returned-injective h = cc

module _ (faults : Faults) (fs : List Folder) (owner_id : Bytes) where
  pub depth_walk-Rooted :
      (rounds depth : ℕ) (current : Bytes) (n : ℕ)
      → depth_walk faults fs owner_id rounds depth current ≡ returned n
      → Rooted fs owner_id current
  unfolding depth_walk
  depth_walk-Rooted zero depth current n h = elim (Bool-cases (is_empty current)) [
    | inl e ↦ subst (Rooted fs owner_id) (empty_sound current e) top
    | inr e ↦ absurd (failed-ne-returned (rw e at h))
  ]
  depth_walk-Rooted (suc rounds) depth current n h = elim (Bool-cases (is_empty current)) [
    | inl e ↦ subst (Rooted fs owner_id) (empty_sound current e) top
    | inr e ↦
        let (f, read, rest) =
          >>=-returned (own (faults.walking depth) owner_id (find current fs)) _ (rw e at h) in
        let (found, owned) = own_sound (faults.walking depth) owner_id (find current fs) f read in
        under f found owned (depth_walk-Rooted rounds (suc depth) f.parent_id n rest)
  ]

  pub move_walk-Avoiding :
      (barred : Bytes) (rounds depth : ℕ) (current : Bytes)
      → move_walk faults fs owner_id barred rounds depth current ≡ returned tt
      → Avoiding fs owner_id barred current
  unfolding move_walk
  move_walk-Avoiding barred zero depth current h = elim (Bool-cases (is_empty current)) [
    | inl e ↦ subst (Avoiding fs owner_id barred) (empty_sound current e) top
    | inr e ↦ absurd (failed-ne-returned (rw e at h))
  ]
  move_walk-Avoiding barred (suc rounds) depth current h = elim (Bool-cases (is_empty current)) [
    | inl e ↦ subst (Avoiding fs owner_id barred) (empty_sound current e) top
    | inr e ↦ elim (Bool-cases (bytes_eq current barred)) [
      | inl at ↦ absurd (failed-ne-returned (rw (e, at) at h))
      | inr off ↦
          let (f, read, rest) =
            >>=-returned (own (faults.walking depth) owner_id (find current fs)) _
              (rw (e, off) at h) in
          let (found, owned) = own_sound (faults.walking depth) owner_id (find current fs) f read in
          under f (bytes_eq_apart current barred off) found owned
            (move_walk-Avoiding barred rounds (suc depth) f.parent_id rest)
    ]
  ]
