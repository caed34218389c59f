-- ===== src/Hostkeys.antt =====
-- internal/hostkeys/hostkeys.go: the keys of hosts that are trusted. The table is a list of its rows, in
-- which an empty `user_id` is NULL; instants are numbers. The lower case of a text is a parameter. A call
-- says what the database does and which identifier and instant a new row gets.
pub mod Insertion
pub mod Unique
pub mod Unchanged
mod Tests
use secure_crt.Base.{
  ℕ, ◌+◌, suc, Bool, true, false, not, ◌&&◌, ◌||◌, Option, none, some, List, [], ◌∷◌, reverse,
  if◌then◌else◌, Bytes, codes, bytes_eq, ◌==◌,
}
use secure_crt.Base.Int.{ℤ, int_eq, is_between_one_and}
use secure_crt.Base.Outcome.{Outcome, failed, returned, ◌>>=◌}
use secure_crt.Base.Text.{trim_space}
use secure_crt.Sessions.Rules.{is_empty}

pub data Verdict : Type 0 where
  verdict_trusted verdict_unknown verdict_changed : Verdict

pub data HostKeyError : Type 0 where
  key_changed not_found database_failed user_required empty_hostname bad_port key_required :
      HostKeyError

pub record Entry : Type 0 where
  pub id : Bytes
  pub user_id : Bytes
  pub hostname : Bytes
  pub port : ℤ
  pub key_type : Bytes
  pub public_key : Bytes
  pub fingerprint : Bytes
  pub created_at : ℕ

abbrev pub is_org_wide : Entry → Bool
is_org_wide e = is_empty e.user_id

-- What `DescribeKey` makes of a key.
pub record Presented : Type 0 where
  pub key_type : Bytes
  pub public_key : Bytes
  pub fingerprint : Bytes

pub record Check : Type 0 where
  pub verdict : Verdict
  pub presented : Presented
  pub existing : Option Entry

-- strings.TrimPrefix of one byte.
abbrev pub trim_byte : ℕ → Bytes → Bytes
trim_byte c [] = []
trim_byte c (x ∷ s) = if x == c then s else x ∷ s

-- strings.TrimSuffix of one byte.
abbrev pub trim_last : ℕ → Bytes → Bytes
trim_last c s = reverse (trim_byte c (reverse s))

unfoldable pub normalize_host : (Bytes → Bytes) → Bytes → Bytes
normalize_host to_lower host =
    trim_last 0x5D (trim_byte 0x5B (trim_last 0x2E (to_lower (trim_space host))))

-- The condition of the queries on the owner, the host, the port and the type of the key.
abbrev pub is_for : Bytes → Bytes → ℤ → Bytes → Entry → Bool
is_for user_id host port key_type e =
    bytes_eq e.user_id user_id
    && (bytes_eq e.hostname host && (int_eq e.port port && bytes_eq e.key_type key_type))

unfoldable pub select : (Entry → Bool) → List Entry → Option Entry
select test [] = none
select test (e ∷ rows) = let rest = select test rows in if test e then some e else rest

abbrev pub or_not_found : Option Entry → Outcome HostKeyError Entry
or_not_found none = failed not_found
or_not_found (some e) = returned e

unfoldable pub lookup : Bool → List Entry → Bytes → Bytes → ℤ → Bytes → Outcome HostKeyError Entry
lookup fails rows user_id host port key_type =
    if fails
    then failed database_failed
    else or_not_found (select (is_for user_id host port key_type) rows)

-- `err != nil && !errors.Is(err, ErrNotFound)`, and then the entry or nil.
abbrev pub if_found : Outcome HostKeyError Entry → Outcome HostKeyError (Option Entry)
if_found (failed not_found) = returned none
if_found (failed e) = failed e
if_found (returned e) = returned (some e)

abbrev pub compared : Entry → Presented → Check
compared e presented = record {
  verdict =
      if bytes_eq e.fingerprint presented.fingerprint then verdict_trusted else verdict_changed;
  presented = presented;
  existing = some e;
}

-- The verdict of the account's own entry, where there is none for the organisation.
abbrev pub of_own : Presented → Option Entry → Check
of_own presented none = record { verdict = verdict_unknown; presented = presented; existing = none }
of_own presented (some e) = compared e presented

abbrev pub org_first :
    Presented → Option Entry → Outcome HostKeyError (Option Entry) → Outcome HostKeyError Check
org_first presented (some e) own = returned (compared e presented)
org_first presented none own = own >>= λ found. returned (of_own presented found)

pub record Call : Type 0 where
  pub reading_fails : Bool
  pub reading_own_fails : Bool
  pub writing_fails : Bool
  pub new_id : Bytes
  pub now : ℕ

-- A row that matches a condition is deleted; how many were is counted.
unfoldable pub delete_where : (Entry → Bool) → List Entry → List Entry × ℕ
delete_where test [] = ([], 0)
delete_where test (e ∷ rows) =
    let rest = delete_where test rows in
    if test e then (rest.0, suc rest.1) else (e ∷ rest.0, rest.1)

-- Already trusted, refused, or to be written (`none`).
abbrev pub checked : Presented → Option Entry → Outcome HostKeyError (Option Entry)
checked presented none = returned none
checked presented (some existing) =
    if bytes_eq existing.fingerprint presented.fingerprint
    then returned (some existing)
    else failed key_changed

-- The table's UNIQUE, which lets any rows pass whose owner is NULL.
abbrev pub is_some : Option Entry → Bool
is_some none = false
is_some (some e) = true

abbrev pub is_taken : Entry → List Entry → Bool
is_taken new rows =
    not (is_empty new.user_id)
    && is_some (select (is_for new.user_id new.hostname new.port new.key_type) rows)

-- The INSERT.
unfoldable pub insert_row : List Entry → Entry → Bool → List Entry × Outcome HostKeyError Entry
insert_row rows new writing_fails =
    if writing_fails || is_taken new rows
    then (rows, failed database_failed)
    else (new ∷ rows, returned new)

abbrev pub insert_checked :
    List Entry
    → Entry
    → Bool
    → Outcome HostKeyError (Option Entry)
    → List Entry × Outcome HostKeyError Entry
insert_checked rows new writing_fails (failed e) = (rows, failed e)
insert_checked rows new writing_fails (returned (some existing)) = (rows, returned existing)
insert_checked rows new writing_fails (returned none) = insert_row rows new writing_fails

-- The end of the transaction of `Replace`.
abbrev pub committed :
    List Entry
    → List Entry × Outcome HostKeyError Entry
    → (List Entry → Outcome HostKeyError Entry)
    → List Entry × Outcome HostKeyError Entry
committed rows (after, failed e) read = (rows, failed e)
committed rows (after, returned new) read = (after, read after)

abbrev pub new_entry : Bytes → Bytes → ℤ → Presented → Call → Entry
new_entry user_id host port presented call = record {
  id = call.new_id;
  user_id = user_id;
  hostname = host;
  port = port;
  key_type = presented.key_type;
  public_key = presented.public_key;
  fingerprint = presented.fingerprint;
  created_at = call.now;
}

-- The calls that write, in any order. Other writes may come between the query of a `Trust` and its INSERT, so it
-- has the table that its query saw; a `TrustOrgWide` is one between whose statements nothing is written.
pub data Write : Type 0 where
  write_trust : List Entry → Bytes → Bytes → ℤ → Presented → Call → Write
  write_trust_org_wide : Bytes → ℤ → Presented → Call → Write
  write_replace : Bytes → Bytes → ℤ → Presented → Call → Write
  write_forget : Bytes → Bytes → ℤ → Call → Write

module _ (to_lower : Bytes → Bytes) where
  unfoldable pub verify :
      List Entry → Bytes → Bytes → ℤ → Presented → Call → Outcome HostKeyError Check
  verify rows user_id hostname port presented call =
      let host = normalize_host to_lower hostname in
      if_found (lookup call.reading_fails rows [] host port presented.key_type) >>= λ org.
      org_first presented org
        (if_found (lookup call.reading_own_fails rows user_id host port presented.key_type))

  -- What is tested before the INSERT, and the query.
  unfoldable pub check_key :
      List Entry → Bytes → Bytes → ℤ → Presented → Call → Outcome HostKeyError (Option Entry)
  check_key rows user_id hostname port presented call =
      let host = normalize_host to_lower hostname in
      if is_empty host
      then failed empty_hostname
      else if not (is_between_one_and 65535 port)
      then failed bad_port
      else if is_empty presented.fingerprint
      then failed key_required
      else if is_empty presented.public_key
      then failed key_required
      else if_found (lookup call.reading_fails rows user_id host port presented.key_type)
        >>= checked presented

  -- The query sees the table `seen`, the INSERT comes when it is `rows`: no transaction holds the two together.
  unfoldable pub insert :
      List Entry
      → List Entry
      → Bytes
      → Bytes
      → ℤ
      → Presented
      → Call
      → List Entry × Outcome HostKeyError Entry
  insert seen rows user_id hostname port presented call =
      insert_checked rows (new_entry user_id (normalize_host to_lower hostname) port presented call)
        call.writing_fails (check_key seen user_id hostname port presented call)

  unfoldable pub trust_seen :
      List Entry
      → List Entry
      → Bytes
      → Bytes
      → ℤ
      → Presented
      → Call
      → List Entry × Outcome HostKeyError Entry
  trust_seen seen rows user_id hostname port presented call =
      if is_empty user_id
      then (rows, failed user_required)
      else insert seen rows user_id hostname port presented call

  -- A call between whose statements nothing is written.
  abbrev pub trust :
      List Entry → Bytes → Bytes → ℤ → Presented → Call → List Entry × Outcome HostKeyError Entry
  trust rows user_id hostname port presented call =
      trust_seen rows rows user_id hostname port presented call

  unfoldable pub trust_org_wide :
      List Entry → Bytes → ℤ → Presented → Call → List Entry × Outcome HostKeyError Entry
  trust_org_wide rows hostname port presented call =
      insert rows rows [] hostname port presented call

  -- One transaction, and a query for the row that it wrote.
  unfoldable pub replace :
      List Entry → Bytes → Bytes → ℤ → Presented → Call → List Entry × Outcome HostKeyError Entry
  replace rows user_id hostname port presented call =
      let host = normalize_host to_lower hostname in
      let cleared = (delete_where (is_for user_id host port presented.key_type) rows).0 in
      committed rows
        (insert_row cleared (new_entry user_id host port presented call) call.writing_fails)
        (λ after. lookup call.reading_fails after user_id host port presented.key_type)

  -- An empty `user_id` matches no row, since the column is NULL there.
  unfoldable pub forget :
      List Entry → Bytes → Bytes → ℤ → Call → List Entry × Outcome HostKeyError ℕ
  forget rows user_id hostname port call =
      let host = normalize_host to_lower hostname in
      let deleted =
        delete_where
          (λ e.
            not (is_empty e.user_id)
            && (bytes_eq e.user_id user_id && (bytes_eq e.hostname host && int_eq e.port port)))
          rows in
      if call.writing_fails then (rows, failed database_failed) else (deleted.0, returned deleted.1)

  unfoldable pub after_write : List Entry → Write → List Entry
  after_write rows (write_trust seen user_id hostname port presented call) =
      (trust_seen seen rows user_id hostname port presented call).0
  after_write rows (write_trust_org_wide hostname port presented call) =
      (trust_org_wide rows hostname port presented call).0
  after_write rows (write_replace user_id hostname port presented call) =
      (replace rows user_id hostname port presented call).0
  after_write rows (write_forget user_id hostname port call) =
      (forget rows user_id hostname port call).0

  unfoldable pub after_writes : List Entry → List Write → List Entry
  after_writes rows [] = rows
  after_writes rows (w ∷ writes) = after_writes (after_write rows w) writes
