-- ===== src/Vault/Envelope.antt =====
-- internal/vault/envelope.go: sealed values and the wrapping of a user's key. AES-GCM is a parameter, with
-- what its documentation promises as laws.
pub mod Binding
pub mod Wrapping
pub mod Clear
use secure_crt.Base.{
  ℕ, suc, ◌/◌, ◌%◌, ◌≡◌, Bool, true, false, not, ◌||◌, Option, none, some, List, [], ◌∷◌, ◌++◌, ltb,
  ◌==◌, if◌then◌else◌, Bytes, codes, length, take,
}
use secure_crt.Base.Outcome.{Outcome, failed, returned, ◌>>=◌}
use secure_crt.Sessions.Rules.{is_empty}
use secure_crt.Vault.Key.{
  Key, key_len, VaultError, wrong_passphrase, tampered, empty_scope, empty_owner, aad_too_long,
  bad_version, panics, validate, random, new_key, KdfParams, validate_kdf, Kdf, derive_kek,
}

-- cipher.AEAD of a key: what was sealed is opened, and what is opened is what would be sealed.
pub record Gcm : Type 0 where
  pub nonce_size : ℕ
  pub seal : Key → Bytes → Bytes → Bytes → Bytes
  pub open_ : Key → Bytes → Bytes → Bytes → Option Bytes
  pub open_-seal :
      (key nonce plaintext extra : Bytes)
      → open_ key nonce (seal key nonce plaintext extra) extra ≡ some plaintext
  pub seal-open_ :
      (key nonce ciphertext extra plaintext : Bytes)
      → open_ key nonce ciphertext extra ≡ some plaintext
      → ciphertext ≡ seal key nonce plaintext extra

abbrev pub envelope_version : ℕ
envelope_version = 1

pub record Envelope : Type 0 where
  pub version : ℕ
  pub nonce : Bytes
  pub ciphertext : Bytes

pub record Aad : Type 0 where
  pub scope : Bytes
  pub owner_id : Bytes
  pub record_id : Bytes
  pub field_name : Bytes

abbrev pub max_aad_component : ℕ
max_aad_component = 1024

abbrev pub is_long : Bytes → Bool
is_long part = ltb max_aad_component (length part)

-- binary.BigEndian.PutUint32
abbrev pub put_uint32 : ℕ → Bytes
put_uint32 n = n / 16777216 % 256 ∷ n / 65536 % 256 ∷ n / 256 % 256 ∷ n % 256 ∷ []

-- The loop of `AAD.bytes`, which panics on a component that is too long.
unfoldable pub append_parts : Bytes → List Bytes → Option Bytes
append_parts buf [] = some buf
append_parts buf (part ∷ parts) =
    let rest = append_parts (buf ++ (put_uint32 (length part) ++ part)) parts in
    if is_long part then none else rest

unfoldable pub aad_bytes : Aad → Option Bytes
aad_bytes a =
    append_parts (envelope_version ∷ []) (a.scope ∷ a.owner_id ∷ a.record_id ∷ a.field_name ∷ [])

unfoldable pub validate_aad : Aad → Outcome VaultError (Unit {0})
validate_aad a =
    if is_empty a.scope
    then failed empty_scope
    else if is_empty a.owner_id
    then failed empty_owner
    else if (is_long a.scope || is_long a.owner_id) || (is_long a.record_id || is_long a.field_name)
    then failed aad_too_long
    else returned tt

abbrev pub or_panic : Option Bytes → Outcome VaultError Bytes
or_panic none = failed panics
or_panic (some bytes) = returned bytes

abbrev pub or_tampered : Option Bytes → Outcome VaultError Bytes
or_tampered none = failed tampered
or_tampered (some plaintext) = returned plaintext

pub record WrappedKey : Type 0 where
  pub kdf : KdfParams
  pub envelope : Envelope

abbrev pub wrap_aad : Bytes → Aad
wrap_aad owner_id = record {
  scope = codes "user-dek";
  owner_id = owner_id;
  record_id = [];
  field_name = codes "dek";
}

abbrev pub team_aad : Bytes → Bytes → Aad
team_aad team_id member_id = record {
  scope = codes "team-dek";
  owner_id = member_id;
  record_id = team_id;
  field_name = codes "dek";
}

abbrev pub credential_aad : Bytes → Bytes → Bytes → Aad
credential_aad owner_id credential_id field = record {
  scope = codes "credential";
  owner_id = owner_id;
  record_id = credential_id;
  field_name = field;
}

-- The binding of what is sealed under the server's master key.
abbrev pub master_aad : Bytes → Bytes → Aad
master_aad record_id field = record {
  scope = codes "master";
  owner_id = codes "server";
  record_id = record_id;
  field_name = field;
}

-- Any error of `Open` is a wrong passphrase to the user.
abbrev pub or_wrong_passphrase : Outcome VaultError Bytes → Outcome VaultError Key
or_wrong_passphrase (failed e) = failed wrong_passphrase
or_wrong_passphrase (returned dek) =
    if not (length dek == key_len) then failed wrong_passphrase else returned dek

abbrev pub or_tampered_key : Key → Outcome VaultError (Unit {0}) → Outcome VaultError Key
or_tampered_key k (failed e) = failed tampered
or_tampered_key k (returned _) = returned k

module _ (gcm : Gcm) where
  unfoldable pub seal : Key → Aad → Bytes → Bytes → Outcome VaultError Envelope
  seal key aad entropy plaintext = validate_aad aad >>= λ _. validate key >>= λ _.
      random gcm.nonce_size entropy >>= λ nonce. or_panic (aad_bytes aad) >>= λ extra.
      returned (record {
        version = envelope_version;
        nonce = nonce;
        ciphertext = gcm.seal key nonce plaintext extra;
      })

  unfoldable pub open_ : Key → Aad → Envelope → Outcome VaultError Bytes
  open_ key aad env = validate_aad aad >>= λ _.
      if not (env.version == envelope_version)
      then failed bad_version
      else validate key >>= λ _.
          if not (length env.nonce == gcm.nonce_size)
          then failed tampered
          else or_panic (aad_bytes aad) >>= λ extra.
              or_tampered (gcm.open_ key env.nonce env.ciphertext extra)

  unfoldable pub seal_key_under : Key → Aad → Bytes → Key → Outcome VaultError Envelope
  seal_key_under outer aad entropy inner = validate inner >>= λ _. seal outer aad entropy inner

  unfoldable pub open_key_from : Key → Aad → Envelope → Outcome VaultError Key
  open_key_from outer aad env = open_ outer aad env >>= λ raw. or_tampered_key raw (validate raw)

  module _ (id_key : Kdf) where
    unfoldable pub new_user_key :
        Bytes → Bytes → KdfParams → Bytes → Bytes → Outcome VaultError (Key × WrappedKey)
    new_user_key owner_id passphrase params key_entropy entropy = validate_kdf params >>= λ _.
        derive_kek id_key passphrase params >>= λ kek. new_key key_entropy >>= λ dek.
        seal kek (wrap_aad owner_id) entropy dek >>= λ env.
        returned (dek, record { kdf = params; envelope = env })

    unfoldable pub unwrap_user_key : Bytes → Bytes → WrappedKey → Outcome VaultError Key
    unwrap_user_key owner_id passphrase wk = derive_kek id_key passphrase wk.kdf >>= λ kek.
        or_wrong_passphrase (open_ kek (wrap_aad owner_id) wk.envelope)

    unfoldable pub rewrap_user_key :
        Bytes → Key → Bytes → KdfParams → Bytes → Outcome VaultError WrappedKey
    rewrap_user_key owner_id dek new_passphrase params entropy = validate dek >>= λ _.
        validate_kdf params >>= λ _. derive_kek id_key new_passphrase params >>= λ kek.
        seal kek (wrap_aad owner_id) entropy dek >>= λ env.
        returned (record { kdf = params; envelope = env })
