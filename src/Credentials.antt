-- ===== src/Credentials.antt =====
-- internal/credentials/store.go: stored secrets. The table is a list of its rows, in which a column that is
-- NULL or empty is `none` or the empty text; the JSON and base64 of an envelope are left out, which the
-- code reads back as it wrote them. A call says which identifier a new row gets, what the random source
-- gives, whether its statement fails and its instant.
pub mod Rows
pub mod Kept
pub mod Reveal
mod Tests
use secure_crt.Base.{
  ℕ, Bool, true, false, not, ◌&&◌, Option, none, some, List, [], ◌∷◌, if◌then◌else◌, Bytes, codes,
  bytes_eq,
}
use secure_crt.Base.Outcome.{Outcome, failed, returned, ◌>>=◌}
use secure_crt.Base.Text.{trim_space}
use secure_crt.Sessions.Rules.{is_empty}
use secure_crt.Vault.Key.{Key, VaultError}
use secure_crt.Vault.Envelope.{Gcm, Envelope, credential_aad, seal, open_}

pub data Kind : Type 0 where
  kind_ssh_key kind_password kind_passphrase kind_enable_secret : Kind
  other_kind : Bytes → Kind

pub data CredentialError : Type 0 where
  not_found no_secret owner_required name_required unknown_kind database_failed : CredentialError
  vault_failed : VaultError → CredentialError

unfoldable pub validate : Kind → Outcome CredentialError (Unit {0})
validate (other_kind k) = failed unknown_kind
validate _ = returned tt

abbrev pub field_secret : Bytes
field_secret = codes "secret"

abbrev pub field_extra : Bytes
field_extra = codes "secret_extra"

pub record Credential : Type 0 where
  pub id : Bytes
  pub owner_id : Bytes
  pub is_team : Bool
  pub name : Bytes
  pub kind : Kind
  pub username : Bytes
  pub public_key : Bytes
  pub fingerprint : Bytes
  pub key_type : Bytes
  pub server_unlockable : Bool
  pub created_at : ℕ
  pub updated_at : ℕ
  pub last_used_at : Option ℕ

-- A row of the table: a credential and its two sealed columns.
pub record Row : Type 0 where
  pub credential : Credential
  pub secret_enc : Option Envelope
  pub secret_extra_enc : Option Envelope

pub record CreateParams : Type 0 where
  pub owner_id : Bytes
  pub is_team : Bool
  pub name : Bytes
  pub kind : Kind
  pub username : Bytes
  pub secret : Bytes
  pub extra : Bytes
  pub public_key : Bytes
  pub fingerprint : Bytes
  pub key_type : Bytes

pub record Call : Type 0 where
  pub new_id : Bytes
  pub secret_entropy : Bytes
  pub extra_entropy : Bytes
  pub database_fails : Bool
  pub now : ℕ

abbrev pub of_vault {ℓ} : {A : Type ℓ} → Outcome VaultError A → Outcome CredentialError A
of_vault (failed e) = failed (vault_failed e)
of_vault (returned a) = returned a

abbrev pub has_id : Bytes → Row → Bool
has_id id r = bytes_eq r.credential.id id

unfoldable pub find : Bytes → List Row → Option Row
find id [] = none
find id (r ∷ rows) = let rest = find id rows in if has_id id r then some r else rest

-- The credential that `Create` stores.
abbrev pub new_credential : CreateParams → Call → Credential
new_credential p call = record {
  id = call.new_id;
  owner_id = p.owner_id;
  is_team = p.is_team;
  name = trim_space p.name;
  kind = p.kind;
  username = trim_space p.username;
  public_key = p.public_key;
  fingerprint = p.fingerprint;
  key_type = p.key_type;
  server_unlockable = false;
  created_at = call.now;
  updated_at = call.now;
  last_used_at = none;
}

-- INSERT: the identifier is the table's key.
unfoldable pub inserted : List Row → Row → Bool → Option Row → Outcome CredentialError (List Row)
inserted rows r fails (some there) = failed database_failed
inserted rows r fails none = if fails then failed database_failed else returned (r ∷ rows)

pub record Secret : Type 0 where
  pub value : Bytes
  pub extra : Bytes

abbrev pub owned_by : Bytes → Option Row → Outcome CredentialError Row
owned_by owner_id none = failed not_found
owned_by owner_id (some r) =
    if not (bytes_eq r.credential.owner_id owner_id) then failed not_found else returned r

module _ (gcm : Gcm) where
  -- An empty text is stored as NULL.
  unfoldable pub seal_field :
      Key → Bytes → Bytes → Bytes → Bytes → Bytes → Outcome CredentialError (Option Envelope)
  seal_field key owner_id id field entropy plaintext =
      if is_empty plaintext
      then returned none
      else of_vault (seal gcm key (credential_aad owner_id id field) entropy plaintext) >>= λ env.
          returned (some env)

  unfoldable pub open_field :
      Key → Bytes → Bytes → Bytes → Option Envelope → Outcome CredentialError Bytes
  open_field key owner_id id field none = returned []
  open_field key owner_id id field (some env) =
      of_vault (open_ gcm key (credential_aad owner_id id field) env)

  unfoldable pub create :
      List Row → Key → CreateParams → Call → Outcome CredentialError (List Row × Credential)
  create rows key p call =
      if is_empty p.owner_id
      then failed owner_required
      else if is_empty (trim_space p.name)
      then failed name_required
      else validate p.kind >>= λ _.
          seal_field key p.owner_id call.new_id field_secret call.secret_entropy p.secret
          >>= λ secret_enc.
              seal_field key p.owner_id call.new_id field_extra call.extra_entropy p.extra
              >>= λ extra_enc.
                  inserted rows
                    (record {
                      credential = new_credential p call;
                      secret_enc = secret_enc;
                      secret_extra_enc = extra_enc;
                    })
                    call.database_fails (find call.new_id rows)
                  >>= λ after. returned (after, new_credential p call)

  unfoldable pub reveal : List Row → Key → Bytes → Bytes → Outcome CredentialError Secret
  reveal rows key owner_id id = owned_by owner_id (find id rows) >>= λ r.
      open_field key r.credential.owner_id id field_secret r.secret_enc >>= λ value.
      open_field key r.credential.owner_id id field_extra r.secret_extra_enc >>= λ extra.
      if is_empty value && is_empty extra
      then failed no_secret
      else returned (record { value = value; extra = extra })

unfoldable pub get : List Row → Bytes → Bytes → Outcome CredentialError Credential
get rows owner_id id = owned_by owner_id (find id rows) >>= λ r. returned r.credential

-- UPDATE ... WHERE id = ?
unfoldable pub update_where : Bytes → (Credential → Credential) → List Row → List Row
update_where id f [] = []
update_where id f (r ∷ rows) =
    let rest = update_where id f rows in
    if has_id id r then record r { credential = f r.credential } ∷ rest else r ∷ rest

unfoldable pub delete_where : Bytes → List Row → List Row
delete_where id [] = []
delete_where id (r ∷ rows) =
    let rest = delete_where id rows in if has_id id r then rest else r ∷ rest

-- A name that is given must not be blank; `none` leaves it alone.
abbrev pub new_name : Bytes → Option Bytes → Outcome CredentialError Bytes
new_name old none = returned old
new_name old (some name) =
    if is_empty (trim_space name) then failed name_required else returned (trim_space name)

abbrev pub new_username : Bytes → Option Bytes → Bytes
new_username old none = old
new_username old (some username) = trim_space username

unfoldable pub update :
    List Row
    → Bytes
    → Bytes
    → Option Bytes
    → Option Bytes
    → Call
    → Outcome CredentialError (List Row × Credential)
update rows owner_id id name username call = get rows owner_id id >>= λ c.
    new_name c.name name >>= λ name.
    let username = new_username c.username username in
    if call.database_fails
    then failed database_failed
    else returned (
      update_where id (λ c. record c { name = name; username = username; updated_at = call.now })
          rows,
      record c { name = name; username = username; updated_at = call.now },
    )

unfoldable pub delete : List Row → Bytes → Bytes → Call → Outcome CredentialError (List Row)
delete rows owner_id id call = get rows owner_id id >>= λ _.
    if call.database_fails then failed database_failed else returned (delete_where id rows)

unfoldable pub mark_used : List Row → Bytes → Call → Outcome CredentialError (List Row)
mark_used rows id call =
    if call.database_fails
    then failed database_failed
    else returned (update_where id (λ c. record c { last_used_at = some call.now }) rows)

-- The calls of the store that write, with the key of the caller where one is used.
pub data Write : Type 0 where
  creating : Key → CreateParams → Call → Write
  updating : Bytes → Bytes → Option Bytes → Option Bytes → Call → Write
  deleting : Bytes → Bytes → Call → Write
  using : Bytes → Call → Write

abbrev pub or_same : List Row → Outcome CredentialError (List Row) → List Row
or_same rows (failed e) = rows
or_same rows (returned after) = after

abbrev pub rows_of :
    {A : Type 0} → Outcome CredentialError (List Row × A) → Outcome CredentialError (List Row)
rows_of (failed e) = failed e
rows_of (returned (after, a)) = returned after

unfoldable pub after_write : Gcm → List Row → Write → List Row
after_write gcm rows (creating key p call) = or_same rows (rows_of (create gcm rows key p call))
after_write gcm rows (updating owner_id id name username call) =
    or_same rows (rows_of (update rows owner_id id name username call))
after_write gcm rows (deleting owner_id id call) = or_same rows (delete rows owner_id id call)
after_write gcm rows (using id call) = or_same rows (mark_used rows id call)

unfoldable pub after_writes : Gcm → List Row → List Write → List Row
after_writes gcm rows [] = rows
after_writes gcm rows (w ∷ writes) = after_writes gcm (after_write gcm rows w) writes
