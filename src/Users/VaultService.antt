-- ===== src/Users/VaultService.antt =====
-- internal/users/vaultsvc.go, with what it uses of internal/users/users.go: enrolling, opening and changing
-- the vault of an account. A key that the cache takes over is the number of its place in `keys`. A call
-- says what the random source gives it, whether its statement in the database fails, and its instant.
pub mod Steps
pub mod Passphrase
pub mod Locking
use secure_crt.Base.{
  ℕ, Bool, true, false, not, ◌&&◌, Option, none, some, List, [], ◌∷◌, ◌++◌, if◌then◌else◌, Bytes,
  codes, length, get_elem?, bytes_eq,
}
use secure_crt.Base.Outcome.{Outcome, failed, returned, ◌>>=◌}
use secure_crt.Base.Text.{has_prefix}
use secure_crt.Sessions.Rules.{is_empty}
use secure_crt.Vault.Key.{
  Key, VaultError, wrong_passphrase, KdfParams, new_kdf_params, new_key, Kdf,
}
use secure_crt.Vault.Envelope.{
  Gcm, WrappedKey, master_aad, seal_key_under, open_key_from, new_user_key, unwrap_user_key,
  rewrap_user_key,
}
use secure_crt.Vault.Cache.{Cache, put, get, forget, forget_func}

pub data UnlockKind : Type 0 where
  unlock_unset unlock_derived unlock_separate unlock_server : UnlockKind
  other_unlock : Bytes → UnlockKind

-- The columns of an account that the vault service reads and writes.
pub record User : Type 0 where
  pub id : Bytes
  pub password_hash : Bytes
  pub sso_provider : Bytes
  pub unlock_kind : UnlockKind
  pub wrapped_dek : Option WrappedKey

-- The vault of an account that has one: not with the kind `unset` or an empty one.
abbrev pub vault_of : UnlockKind → Option WrappedKey → Option WrappedKey
vault_of unlock_unset wk = none
vault_of (other_unlock []) wk = none
vault_of _ wk = wk

abbrev pub is_sso : User → Bool
is_sso u = not (is_empty u.sso_provider)

abbrev pub can_sign_in_locally : User → Bool
can_sign_in_locally u = not (is_empty u.password_hash)

pub data ServiceError : Type 0 where
  vault_failed : VaultError → ServiceError
  vault_locked vault_already_set_up vault_not_set_up passphrase_required server_managed :
      ServiceError
  bad_unlock_kind database_failed bad_unlock_mode : ServiceError

pub data SsoUnlockMode : Type 0 where
  sso_unlock_passphrase sso_unlock_server_managed : SsoUnlockMode

-- What the mode is spelled as; `none` is an error.
unfoldable pub validate_mode : Bytes → Option SsoUnlockMode
validate_mode m =
    if bytes_eq m (codes "passphrase")
    then some sso_unlock_passphrase
    else if bytes_eq m (codes "server_managed")
    then some sso_unlock_server_managed
    else none

abbrev pub weakens_security : SsoUnlockMode → Bool
weakens_security sso_unlock_passphrase = false
weakens_security sso_unlock_server_managed = true

pub record VaultServiceConfig : Type 0 where
  pub argon2_time : ℕ
  pub argon2_memory_kb : ℕ
  pub argon2_threads : ℕ
  pub sso_unlock_mode : Bytes

pub record VaultService : Type 0 where
  pub master : Key
  pub argon2_time : ℕ
  pub argon2_memory_kb : ℕ
  pub argon2_threads : ℕ
  pub sso_unlock : SsoUnlockMode

-- Errors of the vault, passed on.
abbrev pub of_vault {ℓ} : {A : Type ℓ} → Outcome VaultError A → Outcome ServiceError A
of_vault (failed e) = failed (vault_failed e)
of_vault (returned a) = returned a

unfoldable pub kdf : VaultService → Bytes → Outcome ServiceError KdfParams
kdf v salt_entropy =
    of_vault (new_kdf_params v.argon2_time v.argon2_memory_kb v.argon2_threads salt_entropy)

abbrev pub known_mode : Option SsoUnlockMode → Outcome ServiceError SsoUnlockMode
known_mode none = failed bad_unlock_mode
known_mode (some m) = returned m

unfoldable pub new_vault_service :
    Key → VaultServiceConfig → Bytes → Outcome ServiceError VaultService
new_vault_service master cfg salt_entropy =
    known_mode (validate_mode cfg.sso_unlock_mode) >>= λ mode.
    let v : VaultService = record {
      master = master;
      argon2_time = cfg.argon2_time;
      argon2_memory_kb = cfg.argon2_memory_kb;
      argon2_threads = cfg.argon2_threads;
      sso_unlock = mode;
    } in
    kdf v salt_entropy >>= λ _. returned v

-- A NUL between the identifiers of the account and of the session.
abbrev pub vault_cache_key : Bytes → Bytes → Bytes
vault_cache_key user_id session_id = user_id ++ 0 ∷ session_id

abbrev pub vault_cache_key_is_owned_by : Bytes → Bytes → Bool
vault_cache_key_is_owned_by key user_id = has_prefix key (user_id ++ 0 ∷ [])

abbrev pub requires_passphrase : VaultService → User → Bool
requires_passphrase v u = if is_sso u && weakens_security v.sso_unlock then false else true

unfoldable pub kind_for : VaultService → User → UnlockKind
kind_for v u =
    if is_sso u
    then if weakens_security v.sso_unlock then unlock_server else unlock_separate
    else if can_sign_in_locally u
    then unlock_derived
    else unlock_separate

pub record State : Type 0 where
  pub users : List User
  pub cache : Cache
  pub keys : List Key

pub record Call : Type 0 where
  pub salt_entropy : Bytes
  pub key_entropy : Bytes
  pub nonce_entropy : Bytes
  pub database_fails : Bool
  pub now : ℕ

abbrev pub is_server : UnlockKind → Bool
is_server unlock_server = true
is_server _ = false

abbrev pub is_vault_kind : UnlockKind → Bool
is_vault_kind unlock_unset = false
is_vault_kind (other_unlock kind) = false
is_vault_kind _ = true

-- UPDATE users ... WHERE id = ?
unfoldable pub update_user : Bytes → UnlockKind → Option WrappedKey → List User → List User
update_user id kind wk [] = []
update_user id kind wk (u ∷ users) =
    let rest = update_user id kind wk users in
    if bytes_eq u.id id then record u { unlock_kind = kind; wrapped_dek = wk } ∷ rest else u ∷ rest

unfoldable pub set_vault :
    State → Bytes → UnlockKind → WrappedKey → Bool → Outcome ServiceError State
set_vault st id kind wk database_fails =
    if not (is_vault_kind kind)
    then failed bad_unlock_kind
    else if database_fails
    then failed database_failed
    else returned (record st { users = update_user id kind (some wk) st.users })

-- `Put`, which takes the key over.
unfoldable pub cached : State → User → Bytes → Key → ℕ → State
cached st u session_id dek now = record st {
  cache = put st.cache (vault_cache_key u.id session_id) (length st.keys) now;
  keys = st.keys ++ dek ∷ [];
}

-- The rest of a body that changes the state, behind `if err != nil { return err }`.
abbrev pub and_then {ℓ κ} :
    {A : Type ℓ} {B : Type κ}
    → State
    → Outcome ServiceError A
    → (A → State × Outcome ServiceError B)
    → State × Outcome ServiceError B
and_then st (failed e) rest = (st, failed e)
and_then st (returned a) rest = rest a

-- What is done with a wrapped key: it is stored, and its plaintext is cached.
unfoldable pub stored :
    State
    → User
    → Bytes
    → UnlockKind
    → Call
    → Outcome ServiceError (Key × WrappedKey)
    → State × Outcome ServiceError UnlockKind
stored st u session_id kind call made = and_then st made λ pair.
    and_then st (set_vault st u.id kind pair.1 call.database_fails)
      λ after. (cached after u session_id pair.0 call.now, returned kind)

module _ (gcm : Gcm) (id_key : Kdf) (v : VaultService) where
  -- A fresh key under the master key; the parameters are a placeholder.
  unfoldable pub server_managed_key : User → Call → Outcome ServiceError (Key × WrappedKey)
  server_managed_key u call = of_vault (new_key call.key_entropy) >>= λ dek.
      of_vault
        (seal_key_under gcm v.master (master_aad u.id (codes "user-dek")) call.nonce_entropy dek)
      >>= λ env. kdf v call.salt_entropy >>= λ params.
          returned (dek, record { kdf = params; envelope = env })

  unfoldable pub passphrase_key : User → Bytes → Call → Outcome ServiceError (Key × WrappedKey)
  passphrase_key u passphrase call =
      if is_empty passphrase
      then failed passphrase_required
      else kdf v call.salt_entropy >>= λ params.
          of_vault
            (new_user_key gcm id_key u.id passphrase params call.key_entropy call.nonce_entropy)

  unfoldable pub made_for :
      UnlockKind → User → Bytes → Call → Outcome ServiceError (Key × WrappedKey)
  made_for unlock_server u passphrase call = server_managed_key u call
  made_for _ u passphrase call = passphrase_key u passphrase call

  unfoldable pub enrol_new :
      Option WrappedKey
      → State
      → User
      → Bytes
      → Bytes
      → Call
      → State × Outcome ServiceError UnlockKind
  enrol_new (some wk) st u session_id passphrase call = (st, failed vault_already_set_up)
  enrol_new none st u session_id passphrase call =
      let kind = kind_for v u in stored st u session_id kind call (made_for kind u passphrase call)

  unfoldable pub enrol :
      State → User → Bytes → Bytes → Call → State × Outcome ServiceError UnlockKind
  enrol st u session_id passphrase call =
      enrol_new (vault_of u.unlock_kind u.wrapped_dek) st u session_id passphrase call

  -- The key that `Unlock` gives to the cache.
  unfoldable pub opened_with :
      UnlockKind → Option WrappedKey → Bytes → Bytes → Outcome ServiceError Key
  opened_with kind none id passphrase = failed vault_not_set_up
  opened_with unlock_server (some wk) id passphrase =
      of_vault (open_key_from gcm v.master (master_aad id (codes "user-dek")) wk.envelope)
  opened_with _ (some wk) id passphrase =
      if is_empty passphrase
      then failed (vault_failed wrong_passphrase)
      else of_vault (unwrap_user_key gcm id_key id passphrase wk)

  unfoldable pub opened : User → Bytes → Outcome ServiceError Key
  opened u passphrase =
      opened_with u.unlock_kind (vault_of u.unlock_kind u.wrapped_dek) u.id passphrase

  unfoldable pub unlock : State → User → Bytes → Bytes → ℕ → State × Outcome ServiceError (Unit {0})
  unlock st u session_id passphrase now =
      and_then st (opened u passphrase) λ dek. (cached st u session_id dek now, returned tt)

  -- The key wrapped anew, up to where it is stored.
  unfoldable pub rewrapped :
      UnlockKind → Option WrappedKey → User → Bytes → Bytes → Call → Outcome ServiceError WrappedKey
  rewrapped kind none u current next call = failed vault_not_set_up
  rewrapped kind (some wk) u current next call =
      if is_empty next
      then failed passphrase_required
      else if is_server kind
      then failed server_managed
      else of_vault (unwrap_user_key gcm id_key u.id current wk) >>= λ dek.
          kdf v call.salt_entropy >>= λ params.
          of_vault (rewrap_user_key gcm id_key u.id dek next params call.nonce_entropy)

  -- A failure to open the new record comes after it has been stored.
  unfoldable pub change_passphrase :
      State → User → Bytes → Bytes → Bytes → Call → State × Outcome ServiceError (Unit {0})
  change_passphrase st u session_id current next call =
      and_then st
        (rewrapped u.unlock_kind (vault_of u.unlock_kind u.wrapped_dek) u current next call)
        λ wk. and_then st (set_vault st u.id u.unlock_kind wk call.database_fails) λ after.
          and_then after (of_vault (unwrap_user_key gcm id_key u.id next wk))
            λ fresh. (cached after u session_id fresh call.now, returned tt)

-- `Get` of the cache; the key is looked up in its place.
abbrev pub key_at : List Key → Option ℕ → Outcome ServiceError Key
key_at keys none = failed vault_locked
key_at keys (some i) = elim (get_elem? keys i) [ none ↦ failed vault_locked | some k ↦ returned k ]

unfoldable pub key : State → Bytes → Bytes → ℕ → State × Outcome ServiceError Key
key st user_id session_id now =
    let got = get st.cache (vault_cache_key user_id session_id) now in
    (record st { cache = got.0 }, key_at st.keys got.1)

unfoldable pub lock : State → Bytes → Bytes → State
lock st user_id session_id = record st {
  cache = forget st.cache (vault_cache_key user_id session_id);
}

unfoldable pub lock_all_for_user : State → Bytes → State × ℕ
lock_all_for_user st user_id =
    let swept = forget_func st.cache (λ k. vault_cache_key_is_owned_by k user_id) in
    (record st { cache = swept.0 }, swept.1)

-- `ResetVault` of the store in one transaction, of which the columns of the account are modelled.
unfoldable pub reset : State → User → Bool → State × Outcome ServiceError (Unit {0})
reset st u database_fails = if database_fails then (st, failed database_failed) else (
  (lock_all_for_user (record st { users = update_user u.id unlock_unset none st.users }) u.id).0,
  returned tt,
)
