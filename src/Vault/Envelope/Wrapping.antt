-- ===== src/Vault/Envelope/Wrapping.antt =====
-- internal/vault/envelope.go: a wrapped key is opened by the passphrase that it was wrapped under.
use mathlib.Core.Path.{subst}
use secure_crt.Base.{◌≡◌, refl, true, false, not, ◌==◌, Bytes, length, arith}
use secure_crt.Base.Outcome.{returned, >>=-returned, guard-returned, returned-injective}
use secure_crt.Sessions.Rules.{is_empty}
use secure_crt.Vault.Key.{
  Key, key_len, bad_key_length, empty_passphrase, validate, new_key, KdfParams, validate_kdf, Kdf,
  derive_kek,
}
use secure_crt.Vault.Envelope.{
  Gcm, Envelope, Aad, wrap_aad, seal, open_, WrappedKey, new_user_key, unwrap_user_key,
  rewrap_user_key, seal_key_under, open_key_from,
}
use secure_crt.Vault.Envelope.Binding.{seal-Sealed, Sealed-open_, random-length}

validate-length : (k : Key) → validate k ≡ returned tt → length k ≡ key_len
unfolding validate
validate-length k h =
    let (right, _) = guard-returned (not (length k == key_len)) bad_key_length _ h in
    ground (arith, right)

module _ (gcm : Gcm) where
  pub seal-open_ :
      (key : Key) (aad : Aad) (entropy plaintext : Bytes) {env : Envelope}
      → seal gcm key aad entropy plaintext ≡ returned env
      → open_ gcm key aad env ≡ returned plaintext
  seal-open_ key aad entropy plaintext {env} h =
      Sealed-open_ gcm key aad env plaintext (seal-Sealed gcm key aad entropy plaintext h)

  pub seal_key_under-opens :
      (outer : Key) (aad : Aad) (entropy : Bytes) (inner : Key) {env : Envelope}
      → seal_key_under gcm outer aad entropy inner ≡ returned env
      → open_key_from gcm outer aad env ≡ returned inner
  unfolding seal_key_under open_key_from
  seal_key_under-opens outer aad entropy inner h =
      let (_, valid, h) = >>=-returned (validate inner) _ h in
      rw (seal-open_ outer aad entropy inner h, valid) refl

  -- No vault is opened with an empty passphrase.
  pub unwrap_user_key-given :
      (id_key : Kdf) (owner_id passphrase : Bytes) (wk : WrappedKey) {dek : Key}
      → unwrap_user_key gcm id_key owner_id passphrase wk ≡ returned dek
      → is_empty passphrase ≡ false
  unfolding unwrap_user_key derive_kek
  unwrap_user_key-given id_key owner_id passphrase wk h =
      let (_, derived, _) = >>=-returned (derive_kek id_key passphrase wk.kdf) _ h in
      (guard-returned (is_empty passphrase) empty_passphrase _ derived).0

  module _ (id_key : Kdf) (owner_id passphrase : Bytes) (params : KdfParams) where
    wrapped-opens :
        (kek dek : Key) (entropy : Bytes) (env : Envelope)
        → derive_kek id_key passphrase params ≡ returned kek
        → length dek ≡ key_len
        → seal gcm kek (wrap_aad owner_id) entropy dek ≡ returned env
        → unwrap_user_key gcm id_key owner_id passphrase (record { kdf = params; envelope = env })
          ≡ returned dek
    unfolding unwrap_user_key
    wrapped-opens kek dek entropy env derived full h =
        let right : (length dek == key_len) ≡ true = ground (arith, full) in
        rw (derived, seal-open_ kek (wrap_aad owner_id) entropy dek h, right) refl

    pub new_user_key-opens :
        (key_entropy entropy : Bytes) {dek : Key} {wk : WrappedKey}
        → new_user_key gcm id_key owner_id passphrase params key_entropy entropy
          ≡ returned (dek, wk)
        → unwrap_user_key gcm id_key owner_id passphrase wk ≡ returned dek
    unfolding new_user_key new_key
    new_user_key-opens key_entropy entropy h =
        let (_, _, h) = >>=-returned (validate_kdf params) _ h in
        let (kek, derived, h) = >>=-returned (derive_kek id_key passphrase params) _ h in
        let (dek, drawn, h) = >>=-returned (new_key key_entropy) _ h in
        let (env, sealed, h) = >>=-returned (seal gcm kek (wrap_aad owner_id) entropy dek) _ h in
        subst
          (λ (made : Key × WrappedKey).
            unwrap_user_key gcm id_key owner_id passphrase made.1 ≡ returned made.0)
          (returned-injective h)
          (wrapped-opens kek dek entropy env derived (random-length key_len key_entropy drawn)
            sealed)

    pub rewrap_user_key-opens :
        (dek : Key) (entropy : Bytes) {wk : WrappedKey}
        → rewrap_user_key gcm id_key owner_id dek passphrase params entropy ≡ returned wk
        → unwrap_user_key gcm id_key owner_id passphrase wk ≡ returned dek
    unfolding rewrap_user_key
    rewrap_user_key-opens dek entropy h =
        let (_, valid, h) = >>=-returned (validate dek) _ h in
        let (_, _, h) = >>=-returned (validate_kdf params) _ h in
        let (kek, derived, h) = >>=-returned (derive_kek id_key passphrase params) _ h in
        let (env, sealed, h) = >>=-returned (seal gcm kek (wrap_aad owner_id) entropy dek) _ h in
        subst
          (λ (wk : WrappedKey). unwrap_user_key gcm id_key owner_id passphrase wk ≡ returned dek)
          (returned-injective h)
          (wrapped-opens kek dek entropy env derived (validate-length dek valid) sealed)
