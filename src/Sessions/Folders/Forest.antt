-- ===== src/Sessions/Folders/Forest.antt =====
-- sessions.go: calls that follow one another leave the folders a forest, in which each tree has one owner.
use mathlib.Core.Path.{subst}
use secure_crt.Base.{
  ℕ, suc, ◌≡◌, ◌⊎◌, refl, sym, ap, ◌∙◌, inl, inr, Bool, true, false, ◌||◌, Bool-cases, Option, none,
  some, List, [], ◌∷◌, arith, ltb, Bytes, bytes_eq,
}
use secure_crt.Base.Outcome.{Outcome, failed, returned, ◌>>=◌, >>=-returned, failed-ne-returned}
use secure_crt.Base.Text.{trim_space}
use secure_crt.Sessions.Rules.{is_empty}
use secure_crt.Sessions.Folders.{
  Folder, TreeError, Faults, find, own, get_folder, depth_walk, depth_of, check_move, max_depth,
  CreateFolderParams, room_under, check_parent, insert, create_folder, UpdateFolderParams, moved,
  renamed, replace, write_row, update_checked, update_folder, count_folders, count_filed,
  delete_empty, delete_folder, FolderCall, creates, updates, deletes, table_after,
  after_folder_call, after_folder_calls,
}
use secure_crt.Sessions.Folders.Walks.{
  Rooted, top, Avoiding, top, none-ne-some, find-id, empty_sound, own_sound, depth_walk-Rooted,
  move_walk-Avoiding,
}
use secure_crt.Sessions.Folders.Rows.{IsForest, insert-IsForest, Placed, replace-IsForest}
use secure_crt.Sessions.Folders.Removed.{delete-IsForest}

-- What an update does to a row, as far as the tree goes.
record Follows (fs : List Folder) (g f : Folder) : Type 0 where
  same_id : f.id ≡ g.id
  same_owner : f.owner_id ≡ g.owner_id
  placed : (f.parent_id ≡ g.parent_id) ⊎ Avoiding fs g.owner_id g.id f.parent_id

check_move-Avoiding :
    (faults : Faults) (fs : List Folder) (owner_id barred parent_id : Bytes)
    → check_move faults fs owner_id barred parent_id ≡ returned tt
    → Avoiding fs owner_id barred parent_id
unfolding check_move
check_move-Avoiding faults fs owner_id barred parent_id h = elim (Bool-cases (is_empty parent_id)) [
  | inl e ↦ subst (Avoiding fs owner_id barred) (empty_sound parent_id e) top
  | inr e ↦ elim (Bool-cases (bytes_eq parent_id barred)) [
    | inl at ↦ absurd (failed-ne-returned (rw (e, at) at h))
    | inr off ↦
        move_walk-Avoiding faults fs owner_id barred (suc max_depth) 0 parent_id (rw (e, off) at h)
  ]
]

returned-injective :
    {f g : Folder} → ◌≡◌ {A = Outcome TreeError Folder} (returned f) (returned g) → f ≡ g
returned-injective h = cc

same-Follows : (fs : List Folder) (g f : Folder) → g ≡ f → Follows fs g f
same-Follows fs g f e =
    subst (Follows fs g) e (record { same_id = refl; same_owner = refl; placed = inl refl })

moved-Follows :
    (faults : Faults) (fs : List Folder) (owner_id : Bytes) (g f : Folder) (p : Option Bytes)
    → g.owner_id ≡ owner_id
    → moved faults fs owner_id g p ≡ returned f
    → Follows fs g f
unfolding moved
moved-Follows faults fs owner_id g f none owned h = same-Follows fs g f (returned-injective h)
moved-Follows faults fs owner_id g f (some q) owned h = elim (Bool-cases (bytes_eq q g.parent_id)) [
  | inl e ↦ same-Follows fs g f (returned-injective (rw e at h))
  | inr e ↦
      let (done, checked, rest) =
        >>=-returned (check_move faults fs owner_id g.id q) _ (rw e at h) in
      let away = check_move-Avoiding faults fs owner_id g.id q checked in
      subst (Follows fs g) (returned-injective rest) (record {
        same_id = refl;
        same_owner = refl;
        placed = inr (subst (λ (w : Bytes). Avoiding fs w g.id q) (sym owned) away);
      })
]

renamed-Follows :
    (fs : List Folder) (g h f : Folder) (p : Option Bytes)
    → Follows fs g h
    → renamed h p ≡ returned f
    → Follows fs g f
unfolding renamed
renamed-Follows fs g h f none r e = subst (Follows fs g) (returned-injective e) r
renamed-Follows fs g h f (some name) r e = elim (Bool-cases (is_empty (trim_space name))) [
  | inl blank ↦ absurd (failed-ne-returned (rw blank at e))
  | inr named ↦
      subst (Follows fs g) (returned-injective (rw named at e))
        (record { same_id = r.same_id; same_owner = r.same_owner; placed = r.placed })
]

lists :
    {fs gs : List Folder}
    → ◌≡◌ {A = Outcome TreeError (List Folder)} (returned fs) (returned gs)
    → fs ≡ gs
lists h = cc

write_row-IsForest :
    (fails : Bool) (fs gs : List Folder) (g f : Folder)
    → find g.id fs ≡ some g
    → Follows fs g f
    → write_row fails f fs ≡ returned gs
    → IsForest fs
    → IsForest gs
unfolding write_row
write_row-IsForest true fs gs g f at r h v = absurd (failed-ne-returned h)
write_row-IsForest false fs gs g f at r h v =
    let written : replace f fs ≡ gs = lists h in
    let found : find f.id fs ≡ some g = ap (λ (i : Bytes). find i fs) r.same_id ∙ at in
    let placed : Placed f g fs found (sym r.same_owner) = elim r.placed [
      | inl kept ↦ inl kept
      | inr away ↦ inr (
          subst (λ (w : Bytes). Avoiding fs w f.id f.parent_id) (sym r.same_owner)
            (subst (λ (w : Bytes). Avoiding fs g.owner_id w f.parent_id) (sym r.same_id) away))
    ] in
    subst IsForest written (replace-IsForest f g fs found (sym r.same_owner) placed v)

update_checked-Follows :
    (faults : Faults) (fs : List Folder) (owner_id id : Bytes) (p : UpdateFolderParams) (f : Folder)
    → update_checked faults fs owner_id id p ≡ returned f
    → (g : Folder) × (find g.id fs ≡ some g) × Follows fs g f
unfolding update_checked get_folder
update_checked-Follows faults fs owner_id id p f h =
    let (k, sorted, last) =
      >>=-returned (own faults.reading owner_id (find id fs) >>= _ >>= _) _ h in
    let (m, placed, named) =
      >>=-returned (own faults.reading owner_id (find id fs) >>= _) _ sorted in
    let (g, read, moved_to) = >>=-returned (own faults.reading owner_id (find id fs)) _ placed in
    let (at, owned) = own_sound faults.reading owner_id (find id fs) g read in
    let r =
      renamed-Follows fs g m k p.name
        (moved-Follows faults fs owner_id g m p.parent_id owned moved_to) named in
    (
      g,
      ap (λ (i : Bytes). find i fs) (find-id id fs g at) ∙ at,
      subst (Follows fs g) (returned-injective last)
          (record { same_id = r.same_id; same_owner = r.same_owner; placed = r.placed }),
    )

update_folder-IsForest :
    (faults : Faults) (fs gs : List Folder) (owner_id id : Bytes) (p : UpdateFolderParams)
    → update_folder faults fs fs owner_id id p ≡ returned gs
    → IsForest fs
    → IsForest gs
unfolding update_folder
update_folder-IsForest faults fs gs owner_id id p h v =
    let (f, checked, written) = >>=-returned (update_checked faults fs owner_id id p) _ h in
    let (g, here, r) = update_checked-Follows faults fs owner_id id p f checked in
    write_row-IsForest faults.writing fs gs g f here r written v

inserted_row :
    (fails : Bool) (f : Folder) (o : Option Folder) (fs gs : List Folder)
    → find f.id fs ≡ o
    → Rooted fs f.owner_id f.parent_id
    → insert fails f o fs ≡ returned gs
    → IsForest fs
    → IsForest gs
unfolding insert
inserted_row true f o fs gs at r h v = absurd (failed-ne-returned h)
inserted_row false f (some g) fs gs at r h v = absurd (failed-ne-returned h)
inserted_row false f none fs gs at r h v = subst IsForest (lists h) (insert-IsForest f fs at r v)

check_parent-Rooted :
    (faults : Faults) (fs : List Folder) (p : CreateFolderParams)
    → check_parent faults fs p ≡ returned tt
    → Rooted fs p.owner_id p.parent_id
unfolding check_parent depth_of
check_parent-Rooted faults fs p h = elim (Bool-cases (is_empty p.parent_id)) [
  | inl e ↦ subst (Rooted fs p.owner_id) (empty_sound p.parent_id e) top
  | inr e ↦
      let (depth, walked, rest) =
        >>=-returned (depth_walk faults fs p.owner_id (suc max_depth) 0 p.parent_id) room_under
          (rw e at h) in
      depth_walk-Rooted faults fs p.owner_id (suc max_depth) 0 p.parent_id depth walked
]

create_folder-IsForest :
    (faults : Faults) (fs gs : List Folder) (id : Bytes) (p : CreateFolderParams)
    → create_folder faults fs id p ≡ returned gs
    → IsForest fs
    → IsForest gs
unfolding create_folder
create_folder-IsForest faults fs gs id p h v = elim (Bool-cases (is_empty p.owner_id)) [
  | inl e ↦ absurd (failed-ne-returned (rw e at h))
  | inr e ↦ elim (Bool-cases (is_empty (trim_space p.name))) [
    | inl blank ↦ absurd (failed-ne-returned (rw (e, blank) at h))
    | inr named ↦
        let (done, checked, inserted) =
          >>=-returned (check_parent faults fs p) _ (rw (e, named) at h) in
        inserted_row faults.writing _ (find id fs) fs gs refl
          (check_parent-Rooted faults fs p checked) inserted v
  ]
]

delete_empty-IsForest :
    (fails : Bool) (id : Bytes) (n m : ℕ) (fs gs : List Folder)
    → n ≡ count_folders id fs
    → delete_empty fails id n m fs ≡ returned gs
    → IsForest fs
    → IsForest gs
unfolding delete_empty
delete_empty-IsForest fails id n m fs gs e h v = elim (Bool-cases (ltb 0 n || ltb 0 m)) [
  | inl full ↦ absurd (failed-ne-returned (rw full at h))
  | inr bare ↦ elim (Bool-cases fails) [
    | inl broken ↦ absurd (failed-ne-returned (rw (bare, broken) at h))
    | inr works ↦
        let no_folders : n ≡ 0 = ground arith in
        subst IsForest (lists (rw (bare, works) at h))
          (delete-IsForest id fs (sym e ∙ no_folders) v)
  ]
]

delete_folder-IsForest :
    (faults : Faults) (fs gs : List Folder) (filed : List Bytes) (owner_id id : Bytes)
    → delete_folder faults fs filed owner_id id ≡ returned gs
    → IsForest fs
    → IsForest gs
unfolding delete_folder get_folder
delete_folder-IsForest faults fs gs filed owner_id id h v =
    let (f, read, rest) = >>=-returned (own faults.reading owner_id (find id fs)) _ h in
    elim (Bool-cases faults.counting) [
      | inl broken ↦ absurd (failed-ne-returned (rw broken at rest))
      | inr works ↦
          delete_empty-IsForest faults.writing id (count_folders id fs) (count_filed id filed) fs gs
            refl (rw works at rest) v
    ]

table_after-IsForest :
    (fs : List Folder) (o : Outcome TreeError (List Folder))
    → ((gs : List Folder) → o ≡ returned gs → IsForest gs)
    → IsForest fs
    → IsForest (table_after fs o)
table_after-IsForest fs (failed e) f v = v
table_after-IsForest fs (returned gs) f v = f gs refl

after_folder_call-IsForest :
    (fs : List Folder) (faults : Faults) (call : FolderCall)
    → IsForest fs
    → IsForest (after_folder_call fs faults call)
unfolding after_folder_call
after_folder_call-IsForest fs faults (creates b id p) v =
    table_after-IsForest fs _ (λ gs h. create_folder-IsForest faults fs gs (b ∷ id) p h v) v
after_folder_call-IsForest fs faults (updates owner_id id p) v =
    table_after-IsForest fs _ (λ gs h. update_folder-IsForest faults fs gs owner_id id p h v) v
after_folder_call-IsForest fs faults (deletes filed owner_id id) v =
    table_after-IsForest fs _ (λ gs h. delete_folder-IsForest faults fs gs filed owner_id id h v) v

calls-IsForest :
    (fs : List Folder) (calls : List (Faults × FolderCall))
    → IsForest fs
    → IsForest (after_folder_calls fs calls)
unfolding after_folder_calls
calls-IsForest fs [] v = v
calls-IsForest fs ((faults, call) ∷ calls) v =
    calls-IsForest (after_folder_call fs faults call) calls
      (after_folder_call-IsForest fs faults call v)

-- However folders are created, moved, renamed and, while they are empty, deleted, by any owners and whichever
-- queries fail, in calls of which none begins before the last has ended: from each folder the parents lead to
-- the top level, through folders that are there and that have its owner. So no such move puts a folder inside
-- itself, and none puts it under somebody else's.
pub after_folder_calls-IsForest :
    (calls : List (Faults × FolderCall)) → IsForest (after_folder_calls [] calls)
unfolding find
after_folder_calls-IsForest calls = calls-IsForest [] calls (λ id f h. absurd (none-ne-some h))
