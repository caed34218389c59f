-- ===== src/Users/Tests.antt =====
-- Runs of the vault service at concrete inputs.
use secure_crt.Base.{
  ◌≡◌, refl, none, some, false, List, [], ◌∷◌, codes, bytes_eq, if◌then◌else◌, arith,
}
use secure_crt.Base.Outcome.{failed, returned}
use secure_crt.Vault.Key.{
  Key, validate, is_zero, random, new_kdf_params, new_key, new_salt, validate_kdf, derive_kek,
}
use secure_crt.Vault.Cache.{new_cache}
use secure_crt.Vault.Envelope.{
  WrappedKey, seal, open_, append_parts, aad_bytes, validate_aad, new_user_key, unwrap_user_key,
  rewrap_user_key,
}
use secure_crt.Vault.Envelope.Clear.{ones, clear_gcm, clear_kdf}
use secure_crt.Users.VaultService.{
  User, unlock_unset, unlock_derived, VaultService, sso_unlock_passphrase, State, Call, kdf,
  kind_for, update_user, set_vault, cached, stored, passphrase_key, made_for, enrol_new, enrol,
  opened, rewrapped, change_passphrase, lock_all_for_user, key, vault_locked,
}
use secure_crt.Users.VaultService.Passphrase.{StoredAndCached, enrol-opens, change_passphrase-opens}
use secure_crt.Users.VaultService.Steps.{with_vault}
use secure_crt.Users.VaultService.Locking.{lock_all_for_user_lem}

abbrev ann : User
ann = record {
  id = codes "ann";
  password_hash = codes "h";
  sso_provider = [];
  unlock_kind = unlock_unset;
  wrapped_dek = none;
}

abbrev service : VaultService
service = record {
  master = ones 32;
  argon2_time = 3;
  argon2_memory_kb = 65536;
  argon2_threads = 4;
  sso_unlock = sso_unlock_passphrase;
}

abbrev before : State
before = record { users = ann ∷ []; cache = new_cache 60; keys = [] }

abbrev call : Call
call = record {
  salt_entropy = ones 16;
  key_entropy = ones 32;
  nonce_entropy = ones 12;
  database_fails = false;
  now = 5;
}

abbrev enrolled : State
enrolled = (enrol clear_gcm clear_kdf service before ann (codes "s") (codes "old") call).0

enrolled_lem :
    enrol clear_gcm clear_kdf service before ann (codes "s") (codes "old") call
    ≡ (enrolled, returned unlock_derived)
unfolding enrol enrol_new made_for passphrase_key kdf kind_for stored set_vault update_user
    new_user_key append_parts aad_bytes validate_aad validate is_zero random new_kdf_params new_key
    new_salt validate_kdf derive_kek seal
enrolled_lem = refl

-- The keys stay in the cache for sixty units.
enrolled_ttl : enrolled.cache.ttl ≡ 60
unfolding enrol enrol_new made_for passphrase_key kdf kind_for stored set_vault update_user
    new_user_key append_parts aad_bytes validate_aad validate is_zero random new_kdf_params new_key
    new_salt validate_kdf derive_kek seal new_cache cached secure_crt.Vault.Cache.put
enrolled_ttl = refl

enrol-opens_example :
    StoredAndCached clear_gcm clear_kdf service before ann
      (codes "s")
      60
      unlock_derived
      (codes "old")
      enrolled
unfolding new_cache
enrol-opens_example =
    enrol-opens clear_gcm clear_kdf service before ann (codes "s") (codes "old") call enrolled
      unlock_derived 60 enrolled_lem (omega arith)

-- The account as it is then.
abbrev enrolled_user : List User → User
enrolled_user [] = ann
enrolled_user (u ∷ users) = u

abbrev ann2 : User
ann2 = enrolled_user enrolled.users

abbrev changed : State
changed =
    (change_passphrase clear_gcm clear_kdf service enrolled ann2 (codes "s") (codes "old")
      (codes "new") call).0

changed_lem :
    change_passphrase clear_gcm clear_kdf service enrolled ann2
      (codes "s")
      (codes "old")
      (codes "new")
      call
    ≡ (changed, returned tt)
unfolding change_passphrase rewrapped unwrap_user_key rewrap_user_key enrol enrol_new made_for
    passphrase_key kdf kind_for stored set_vault update_user new_user_key append_parts aad_bytes
    validate_aad validate is_zero random new_kdf_params new_key new_salt validate_kdf derive_kek
    seal open_ cached bytes_eq
changed_lem = refl

change_passphrase-opens_example :
    (dek : Key) × (wk : WrappedKey) × (opened clear_gcm clear_kdf service ann2 (codes "old")
      ≡ returned dek)
    × (opened clear_gcm clear_kdf service (with_vault ann2 ann2.unlock_kind wk) (codes "new")
        ≡ returned dek)
    × (changed.users ≡ update_user ann2.id ann2.unlock_kind (some wk) enrolled.users)
    × ((key changed ann2.id (codes "s") 60).1 ≡ returned dek)
change_passphrase-opens_example =
    change_passphrase-opens clear_gcm clear_kdf service enrolled ann2 (codes "s") (codes "old")
      (codes "new") call changed 60 changed_lem (omega (arith, enrolled_ttl))

lock_all_for_user_lem_example :
    (key (lock_all_for_user enrolled (codes "ann")).0 (codes "bob") (codes "s") 9).1 ≡ (
      if bytes_eq (codes "ann") (codes "bob")
      then failed vault_locked
      else (key enrolled (codes "bob") (codes "s") 9).1)
lock_all_for_user_lem_example =
    lock_all_for_user_lem enrolled (codes "ann") (codes "s") 9 (codes "bob")
      ((λ e. omega (arith, e)), ((λ e. omega (arith, e)), ((λ e. omega (arith, e)), tt)))
      ((λ e. omega (arith, e)), ((λ e. omega (arith, e)), ((λ e. omega (arith, e)), tt)))
