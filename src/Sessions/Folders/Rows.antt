-- ===== src/Sessions/Folders/Rows.antt =====
-- sessions.go: a row that is inserted or written over keeps the folders a forest.
use mathlib.Core.Path.{subst}
use secure_crt.Base.{
  ◌≡◌, ◌≢◌, ◌⊎◌, refl, sym, ap, ◌∙◌, inl, inr, false, Bool-cases, Option, none, some, List, [], ◌∷◌,
  if◌then◌else◌, Bytes, bytes_eq, bytes_eq_refl, bytes_eq_sound, bytes_eq_ne, bytes_eq_apart,
}
use secure_crt.Sessions.Folders.{Folder, find, replace}
use secure_crt.Sessions.Folders.Walks.{
  Rooted, top, under, Avoiding, top, under, some-injective, none-ne-some,
}

abbrev pub IsForest : List Folder → Type 0
IsForest fs = (id : Bytes) (f : Folder) → find id fs ≡ some f → Rooted fs f.owner_id f.parent_id

-- A row that is put in front, under a new identifier.
pub find-insert :
    (id : Bytes) (f g : Folder) (fs : List Folder)
    → find f.id fs ≡ none
    → find id fs ≡ some g
    → find id (f ∷ fs) ≡ some g
unfolding find
find-insert id f g fs new at =
    let apart : f.id ≢ id = λ e. none-ne-some (sym new ∙ ap (λ (i : Bytes). find i fs) e ∙ at) in
    rw (bytes_eq_ne f.id id apart) (at)

pub insert-Rooted :
    (f : Folder) (fs : List Folder) {o : Bytes}
    → find f.id fs ≡ none
    → {id : Bytes} → Rooted fs o id
    → Rooted (f ∷ fs) o id
insert-Rooted f fs new top = top
insert-Rooted f fs new {id} (under g at mine r) =
    under g (find-insert id f g fs new at) mine (insert-Rooted f fs new r)

pub insert-IsForest :
    (f : Folder) (fs : List Folder)
    → find f.id fs ≡ none
    → Rooted fs f.owner_id f.parent_id
    → IsForest fs
    → IsForest (f ∷ fs)
unfolding find
insert-IsForest f fs new r v id g at = elim (Bool-cases (bytes_eq f.id id)) [
  | inl e ↦
      let same : f ≡ g = some-injective (rw e at at) in
      subst (λ (h : Folder). Rooted (f ∷ fs) h.owner_id h.parent_id) same (insert-Rooted f fs new r)
  | inr e ↦ insert-Rooted f fs new (v id g (rw e at at))
]

-- A row that is written over.
pub find-replace_self :
    (f g : Folder) (fs : List Folder) → find f.id fs ≡ some g → find f.id (replace f fs) ≡ some f
unfolding find replace
find-replace_self f g [] at = absurd (none-ne-some at)
find-replace_self f g (h ∷ fs) at = elim (Bool-cases (bytes_eq h.id f.id)) [
  | inl e ↦ rw (e, bytes_eq_refl f.id) refl
  | inr e ↦ let rest = find-replace_self f g fs (rw e at at) in rw (e, e) (rest)
]

pub find-replace_other :
    (id : Bytes) (f : Folder) (fs : List Folder) → id ≢ f.id → find id (replace f fs) ≡ find id fs
unfolding find replace
find-replace_other id f [] ne = refl
find-replace_other id f (h ∷ fs) ne =
    let rest = find-replace_other id f fs ne in
    elim (Bool-cases (bytes_eq h.id f.id)) [
      | inl e ↦
          let off : bytes_eq f.id id ≡ false = bytes_eq_ne f.id id (λ s. ne (sym s)) in
          let other : bytes_eq h.id id ≡ false =
            bytes_eq_ne h.id id (λ s. ne (sym s ∙ bytes_eq_sound h.id f.id e)) in
          rw (e, off, other) (rest)
      | inr e ↦ rw e (ap (λ (r : Option Folder). if bytes_eq h.id id then some h else r) rest)
    ]

module _ (f g : Folder) (fs : List Folder) (at : find f.id fs ≡ some g)
    (owned : g.owner_id ≡ f.owner_id) where
  Avoiding-Rooted : {o id : Bytes} → Avoiding fs o f.id id → Rooted (replace f fs) o id
  Avoiding-Rooted top = top
  Avoiding-Rooted {id = id} (under h ne found mine r) =
      under h (find-replace_other id f fs ne ∙ found) mine (Avoiding-Rooted r)

  -- The row keeps its parent, or has one from which the way up does not pass it.
  abbrev pub Placed : Type 0
  Placed = (f.parent_id ≡ g.parent_id) ⊎ Avoiding fs f.owner_id f.id f.parent_id

  replace-Rooted : {o id : Bytes} → Placed → Rooted fs o id → Rooted (replace f fs) o id
  replace-Rooted p top = top
  replace-Rooted {id = id} p (under h found mine r) =
      let rest = replace-Rooted p r in
      elim (Bool-cases (bytes_eq id f.id)) [
        | inr off ↦
            under h (find-replace_other id f fs (bytes_eq_apart id f.id off) ∙ found) mine rest
        | inl on ↦
            let e : id ≡ f.id = bytes_eq_sound id f.id on in
            let same : h ≡ g = some-injective (sym found ∙ ap (λ (i : Bytes). find i fs) e ∙ at) in
            let owner : f.owner_id ≡ _ =
              sym owned ∙ ap (λ (x : Folder). x.owner_id) (sym same) ∙ mine in
            under f (ap (λ (i : Bytes). find i (replace f fs)) e ∙ find-replace_self f g fs at)
              owner
              (elim p [
                | inl kept ↦
                    subst (Rooted (replace f fs) _)
                      (ap (λ (x : Folder). x.parent_id) same ∙ sym kept) rest
                | inr away ↦
                    subst (λ (w : Bytes). Rooted (replace f fs) w f.parent_id) owner
                      (Avoiding-Rooted away)
              ])
      ]

  pub replace-IsForest : Placed → IsForest fs → IsForest (replace f fs)
  replace-IsForest p v id h found = elim (Bool-cases (bytes_eq id f.id)) [
    | inr off ↦
        replace-Rooted p
          (v id h (sym (find-replace_other id f fs (bytes_eq_apart id f.id off)) ∙ found))
    | inl on ↦
        let e : id ≡ f.id = bytes_eq_sound id f.id on in
        let same : f ≡ h = some-injective (
          sym (find-replace_self f g fs at)
          ∙ ap (λ (i : Bytes). find i (replace f fs)) (sym e)
          ∙ found) in
        let placed : Rooted (replace f fs) f.owner_id f.parent_id = elim p [
          | inl kept ↦
              subst (λ (w : Bytes). Rooted (replace f fs) w f.parent_id) owned
                (subst (Rooted (replace f fs) g.owner_id) (sym kept)
                  (replace-Rooted (inl kept) (v f.id g at)))
          | inr away ↦ Avoiding-Rooted away
        ] in
        subst (λ (x : Folder). Rooted (replace f fs) x.owner_id x.parent_id) same placed
  ]
