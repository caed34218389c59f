-- ===== src/Sessions/Folders.antt =====
-- internal/sessions/sessions.go: the folders that saved connections are kept in. The table of folders is a
-- list of its rows; the names of the queries that fail, and the rows of the other table, are arguments.
pub mod Removed
pub mod Rows
pub mod Walks
pub mod Forest
use secure_crt.Base.{
  ℕ, suc, zero, ◌+◌, Bool, true, false, not, ◌&&◌, ◌||◌, ◌≡◌, Option, none, some, List, [], ◌∷◌,
  leb, ltb, ◌==◌, if◌then◌else◌, Bytes, bytes_eq,
}
use secure_crt.Base.Int.{ℤ}
use secure_crt.Base.Outcome.{Outcome, failed, returned, ◌>>=◌}
use secure_crt.Base.Text.{trim_space}
use secure_crt.Sessions.Rules.{is_empty}
use secure_crt.Sessions.Settings.{Settings}

abbrev pub max_depth : ℕ
max_depth = 32

-- The parent of a folder at the top level is the empty text.
pub record Folder : Type 0 where
  pub id : Bytes
  pub owner_id : Bytes
  pub is_team : Bool
  pub parent_id : Bytes
  pub name : Bytes
  pub defaults : Settings
  pub sort_order : ℤ

pub data TreeError : Type 0 where
  not_found cycle too_deep database_failure owner_required name_required : TreeError
  folder_not_empty : ℕ → ℕ → TreeError

-- Which queries of a call fail: the one for the folder, those of a walk by their number, those that count,
-- and the one that writes.
pub record Faults : Type 0 where
  pub reading : Bool
  pub walking : ℕ → Bool
  pub counting : Bool
  pub writing : Bool

unfoldable pub find : Bytes → List Folder → Option Folder
find id [] = none
find id (f ∷ fs) = if bytes_eq f.id id then some f else find id fs

-- A row that was asked for, of which the caller has to be the owner.
unfoldable pub own : Bool → Bytes → Option Folder → Outcome TreeError Folder
own true owner_id row = failed database_failure
own false owner_id none = failed not_found
own false owner_id (some f) = if bytes_eq f.owner_id owner_id then returned f else failed not_found

unfoldable pub get_folder : Bool → Bytes → Bytes → List Folder → Outcome TreeError Folder
get_folder fails owner_id id fs = own fails owner_id (find id fs)

module _ (faults : Faults) (fs : List Folder) (owner_id : Bytes) where
  -- The loop of `depthOf`, by the rounds that it has left.
  unfoldable pub depth_walk : ℕ → ℕ → Bytes → Outcome TreeError ℕ
  depth_walk zero depth current = if is_empty current then returned depth else failed too_deep
  depth_walk (suc rounds) depth current =
      if is_empty current
      then returned depth
      else own (faults.walking depth) owner_id (find current fs) >>= λ f.
          depth_walk rounds (suc depth) f.parent_id

  unfoldable pub depth_of : Bytes → Outcome TreeError ℕ
  depth_of folder_id = depth_walk (suc max_depth) 0 folder_id

  -- The loop of `checkMove`.
  unfoldable pub move_walk : Bytes → ℕ → ℕ → Bytes → Outcome TreeError (Unit {0})
  move_walk folder_id zero depth current = if is_empty current then returned tt else failed too_deep
  move_walk folder_id (suc rounds) depth current =
      if is_empty current
      then returned tt
      else if bytes_eq current folder_id
      then failed cycle
      else own (faults.walking depth) owner_id (find current fs) >>= λ f.
          move_walk folder_id rounds (suc depth) f.parent_id

  unfoldable pub check_move : Bytes → Bytes → Outcome TreeError (Unit {0})
  check_move folder_id new_parent_id =
      if is_empty new_parent_id
      then returned tt
      else if bytes_eq new_parent_id folder_id
      then failed cycle
      else move_walk folder_id (suc max_depth) 0 new_parent_id

pub record CreateFolderParams : Type 0 where
  pub owner_id : Bytes
  pub is_team : Bool
  pub parent_id : Bytes
  pub name : Bytes
  pub defaults : Settings

abbrev pub room_under : ℕ → Outcome TreeError (Unit {0})
room_under depth = if leb max_depth (depth + 1) then failed too_deep else returned tt

unfoldable pub check_parent :
    Faults → List Folder → CreateFolderParams → Outcome TreeError (Unit {0})
check_parent faults fs p =
    if is_empty p.parent_id
    then returned tt
    else depth_of faults fs p.owner_id p.parent_id >>= room_under

-- The insertion, which the primary key refuses for an identifier that is taken.
unfoldable pub insert :
    Bool → Folder → Option Folder → List Folder → Outcome TreeError (List Folder)
insert true f taken fs = failed database_failure
insert false f (some g) fs = failed database_failure
insert false f none fs = returned (f ∷ fs)

unfoldable pub create_folder :
    Faults → List Folder → Bytes → CreateFolderParams → Outcome TreeError (List Folder)
create_folder faults fs id p =
    if is_empty p.owner_id
    then failed owner_required
    else if is_empty (trim_space p.name)
    then failed name_required
    else check_parent faults fs p >>= λ _.
        insert faults.writing
          (record {
            id = id;
            owner_id = p.owner_id;
            is_team = p.is_team;
            parent_id = p.parent_id;
            name = trim_space p.name;
            defaults = p.defaults;
            sort_order = ℤ.pos 0;
          })
          (find id fs) fs

pub record UpdateFolderParams : Type 0 where
  pub name : Option Bytes
  pub parent_id : Option Bytes
  pub sort_order : Option ℤ
  pub defaults : Option Settings

unfoldable pub moved :
    Faults → List Folder → Bytes → Folder → Option Bytes → Outcome TreeError Folder
moved faults fs owner_id f none = returned f
moved faults fs owner_id f (some parent_id) =
    if bytes_eq parent_id f.parent_id
    then returned f
    else check_move faults fs owner_id f.id parent_id >>= λ _.
        returned (record f { parent_id = parent_id })

unfoldable pub renamed : Folder → Option Bytes → Outcome TreeError Folder
renamed f none = returned f
renamed f (some name) =
    if is_empty (trim_space name)
    then failed name_required
    else returned (record f { name = trim_space name })

abbrev pub given {ℓ} : {A : Type ℓ} → Option A → A → A
given none old = old
given (some new) old = new

-- UPDATE … WHERE id = ?
unfoldable pub replace : Folder → List Folder → List Folder
replace f [] = []
replace f (g ∷ fs) = let rest = replace f fs in if bytes_eq g.id f.id then f ∷ rest else g ∷ rest

unfoldable pub write_row : Bool → Folder → List Folder → Outcome TreeError (List Folder)
write_row fails f fs = if fails then failed database_failure else returned (replace f fs)

-- What is read and tested before the UPDATE: the row that it will write, all of whose columns it sets.
unfoldable pub update_checked :
    Faults → List Folder → Bytes → Bytes → UpdateFolderParams → Outcome TreeError Folder
update_checked faults seen owner_id id p =
    get_folder faults.reading owner_id id seen
    >>= (λ f. moved faults seen owner_id f p.parent_id)
    >>= (λ f. renamed f p.name)
    >>= λ f. returned (record f {
      sort_order = given p.sort_order f.sort_order;
      defaults = given p.defaults f.defaults;
    })

-- The queries see the table `seen`, the UPDATE comes when it is `fs`: no transaction holds them together.
unfoldable pub update_folder :
    Faults
    → List Folder
    → List Folder
    → Bytes
    → Bytes
    → UpdateFolderParams
    → Outcome TreeError (List Folder)
update_folder faults seen fs owner_id id p =
    update_checked faults seen owner_id id p >>= λ f. write_row faults.writing f fs

-- `countContents`: the folders in a folder, and the saved connections by the folder of each.
unfoldable pub count_folders : Bytes → List Folder → ℕ
count_folders id [] = 0
count_folders id (f ∷ fs) =
    let rest = count_folders id fs in if bytes_eq f.parent_id id then suc rest else rest

unfoldable pub count_filed : Bytes → List Bytes → ℕ
count_filed id [] = 0
count_filed id (j ∷ filed) =
    let rest = count_filed id filed in if bytes_eq j id then suc rest else rest

-- DELETE … WHERE id = ?
unfoldable pub delete : Bytes → List Folder → List Folder
delete id [] = []
delete id (f ∷ fs) = let rest = delete id fs in if bytes_eq f.id id then rest else f ∷ rest

unfoldable pub delete_empty : Bool → Bytes → ℕ → ℕ → List Folder → Outcome TreeError (List Folder)
delete_empty fails id folders sessions fs =
    if ltb 0 folders || ltb 0 sessions
    then failed (folder_not_empty folders sessions)
    else if fails
    then failed database_failure
    else returned (delete id fs)

unfoldable pub delete_folder :
    Faults → List Folder → List Bytes → Bytes → Bytes → Outcome TreeError (List Folder)
delete_folder faults fs filed owner_id id = get_folder faults.reading owner_id id fs >>= λ f.
    if faults.counting
    then failed database_failure
    else delete_empty faults.writing id (count_folders id fs) (count_filed id filed) fs

-- What is done to the folders, by anyone, in calls that follow one another: nothing is written between the
-- statements of one. A new identifier is not empty.
pub data FolderCall : Type 0 where
  creates : ℕ → Bytes → CreateFolderParams → FolderCall
  updates : Bytes → Bytes → UpdateFolderParams → FolderCall
  deletes : List Bytes → Bytes → Bytes → FolderCall

-- A call that fails leaves the table as it was.
abbrev pub table_after : List Folder → Outcome TreeError (List Folder) → List Folder
table_after fs (failed e) = fs
table_after fs (returned gs) = gs

unfoldable pub after_folder_call : List Folder → Faults → FolderCall → List Folder
after_folder_call fs faults (creates b id p) = table_after fs (create_folder faults fs (b ∷ id) p)
after_folder_call fs faults (updates owner_id id p) =
    table_after fs (update_folder faults fs fs owner_id id p)
after_folder_call fs faults (deletes filed owner_id id) =
    table_after fs (delete_folder faults fs filed owner_id id)

unfoldable pub after_folder_calls : List Folder → List (Faults × FolderCall) → List Folder
after_folder_calls fs [] = fs
after_folder_calls fs ((faults, call) ∷ calls) =
    after_folder_calls (after_folder_call fs faults call) calls
