-- ===== src/Sessions/Folders/Removed.antt =====
-- sessions.go: an empty folder that is deleted leaves a forest.
use mathlib.Core.Path.{subst}
use secure_crt.Base.{
  suc, ◌≡◌, ◌≢◌, refl, sym, ap, ◌∙◌, inl, inr, false, Bool-cases, Option, none, some, List, [], ◌∷◌,
  arith, if◌then◌else◌, Bytes, bytes_eq, bytes_eq_sound, bytes_eq_ne, bytes_eq_apart,
}
use secure_crt.Sessions.Folders.{Folder, find, count_folders, delete}
use secure_crt.Sessions.Folders.Walks.{Rooted, top, under, top, under, some-injective, none-ne-some}
use secure_crt.Sessions.Folders.Rows.{IsForest}

pub find-delete_self : (id : Bytes) (fs : List Folder) → find id (delete id fs) ≡ none
unfolding find delete
find-delete_self id [] = refl
find-delete_self id (f ∷ fs) = elim (Bool-cases (bytes_eq f.id id)) [
  | inl e ↦ rw e (find-delete_self id fs)
  | inr e ↦ rw (e, e) (find-delete_self id fs)
]

pub find-delete_other :
    (j id : Bytes) (fs : List Folder) → j ≢ id → find j (delete id fs) ≡ find j fs
unfolding find delete
find-delete_other j id [] ne = refl
find-delete_other j id (f ∷ fs) ne =
    let rest = find-delete_other j id fs ne in
    elim (Bool-cases (bytes_eq f.id id)) [
      | inl e ↦
          let off : bytes_eq f.id j ≡ false =
            bytes_eq_ne f.id j (λ s. ne (sym s ∙ bytes_eq_sound f.id id e)) in
          rw (e, off) (rest)
      | inr e ↦ rw e (ap (λ (r : Option Folder). if bytes_eq f.id j then some f else r) rest)
    ]

pub childless :
    (id : Bytes) (fs : List Folder)
    → count_folders id fs ≡ 0
    → (j : Bytes) (f : Folder) → find j fs ≡ some f
    → f.parent_id ≢ id
unfolding count_folders find
childless id [] none_of j f at = absurd (none-ne-some at)
childless id (g ∷ fs) none_of j f at = elim (Bool-cases (bytes_eq g.parent_id id)) [
  | inl e ↦ let k : suc (count_folders id fs) ≡ 0 = rw e at none_of in absurd (omega (arith, k))
  | inr e ↦ elim (Bool-cases (bytes_eq g.id j)) [
    | inl here ↦
        let k : some g ≡ some f = rw here at at in
        subst (λ (x : Folder). x.parent_id ≢ id) (some-injective k)
          (bytes_eq_apart g.parent_id id e)
    | inr there ↦ childless id fs (rw e at none_of) j f (rw there at at)
  ]
]

module _ (id : Bytes) (fs : List Folder) (empty : count_folders id fs ≡ 0) where
  delete-Rooted : {o : Bytes} {j : Bytes} → j ≢ id → Rooted fs o j → Rooted (delete id fs) o j
  delete-Rooted ne top = top
  delete-Rooted {j = j} ne (under f at mine r) =
      under f (find-delete_other j id fs ne ∙ at) mine
        (delete-Rooted (childless id fs empty j f at) r)

  pub delete-IsForest : IsForest fs → IsForest (delete id fs)
  delete-IsForest v j f found = elim (Bool-cases (bytes_eq j id)) [
    | inl e ↦
        let same : j ≡ id = bytes_eq_sound j id e in
        absurd (
          none-ne-some (
            sym (find-delete_self id fs)
            ∙ ap (λ (i : Bytes). find i (delete id fs)) (sym same)
            ∙ found))
    | inr e ↦
        let at : find j fs ≡ some f =
          sym (find-delete_other j id fs (bytes_eq_apart j id e)) ∙ found in
        delete-Rooted (childless id fs empty j f at) (v j f at)
  ]
