-- ===== src/Users/VaultService/Passphrase.antt =====
-- internal/users/vaultsvc.go: the passphrase that a vault was enrolled with, or changed to, opens it.
use mathlib.Core.Path.{subst}
use secure_crt.Base.{
  ℕ, ◌+◌, ◌≤◌, ◌≡◌, refl, sym, ap, ◌∙◌, true, false, Option, none, some, List, [], ◌∷◌, ◌++◌, Bytes,
  codes, if◌then◌else◌, length, ltb, bytes_eq_refl, arith,
}
use secure_crt.Base.Outcome.{
  Outcome, failed, returned, >>=-returned, failed-ne-returned, guard-returned, returned-injective,
}
use secure_crt.Sessions.Rules.{is_empty}
use secure_crt.Vault.Key.{Key, wrong_passphrase, new_key, Kdf}
use secure_crt.Vault.Envelope.{
  Gcm, WrappedKey, master_aad, seal_key_under, unwrap_user_key, new_user_key, rewrap_user_key,
}
use secure_crt.Vault.Envelope.Wrapping.{
  seal_key_under-opens, new_user_key-opens, unwrap_user_key-given, rewrap_user_key-opens,
}
use secure_crt.Vault.Cache.{get, put, lookup}
use secure_crt.Users.VaultService.{
  key, key_at, vault_cache_key, User, UnlockKind, unlock_unset, unlock_derived, unlock_separate,
  unlock_server, other_unlock, vault_of, VaultService, ServiceError, vault_failed, of_vault, kdf,
  kind_for, State, Call, is_vault_kind, is_server, update_user, set_vault, cached, stored,
  server_managed_key, passphrase_key, made_for, enrol_new, enrol, opened_with, opened, rewrapped,
  change_passphrase, passphrase_required, server_managed,
}
use secure_crt.Users.VaultService.Steps.{
  of_vault-returned, set_vault-returned, and_then-returned, with_vault, vault_of-some,
}

key_at-last :
    (keys : List Key) (dek : Key) → key_at (keys ++ dek ∷ []) (some (length keys)) ≡ returned dek
key_at-last [] dek = refl
key_at-last (k ∷ keys) dek = key_at-last keys dek

-- A key that was put into the cache is the one that is given back until its time is over.
key-cached :
    (st : State) (u : User) (session_id : Bytes) (dek : Key) (now later : ℕ)
    → later ≤ now + st.cache.ttl
    → (key (cached st u session_id dek now) u.id session_id later).1 ≡ returned dek
unfolding key cached get put lookup
key-cached st u session_id dek now later l =
    let valid : ltb (now + st.cache.ttl) later ≡ false = ground arith in
    rw (bytes_eq_refl (vault_cache_key u.id session_id), valid) (key_at-last st.keys dek)

cached-users :
    (st : State) (u : User) (session_id : Bytes) (dek : Key) (now : ℕ)
    → (cached st u session_id dek now).users ≡ st.users
unfolding cached
cached-users st u session_id dek now = refl

module _ (gcm : Gcm) (id_key : Kdf) (v : VaultService) where
  -- What the kinds with a passphrase have in common.
  opened_with_passphrase :
      (u : User) (passphrase : Bytes) (wk : WrappedKey) (dek : Key)
      → is_empty passphrase ≡ false
      → unwrap_user_key gcm id_key u.id passphrase wk ≡ returned dek
      → (if is_empty passphrase
          then failed (vault_failed wrong_passphrase)
          else of_vault (unwrap_user_key gcm id_key u.id passphrase wk))
        ≡ returned dek
  opened_with_passphrase u passphrase wk dek given h = rw (given, h) refl

  passphrase_key-opens :
      (u : User) (passphrase : Bytes) (call : Call) {dek : Key} {wk : WrappedKey}
      → passphrase_key gcm id_key v u passphrase call ≡ returned (dek, wk)
      → (is_empty passphrase ≡ false)
        × (unwrap_user_key gcm id_key u.id passphrase wk ≡ returned dek)
  unfolding passphrase_key
  passphrase_key-opens u passphrase call h =
      let (given, h) = guard-returned (is_empty passphrase) passphrase_required _ h in
      let (params, _, h) = >>=-returned (kdf v call.salt_entropy) _ h in
      let made =
        of_vault-returned
          (new_user_key gcm id_key u.id passphrase params call.key_entropy call.nonce_entropy) h in
      (
        given,
        new_user_key-opens gcm id_key u.id passphrase params call.key_entropy call.nonce_entropy
            made,
      )

  made_for-opens :
      (kind : UnlockKind) (u : User) (passphrase : Bytes) (call : Call) {dek : Key}
      {wk : WrappedKey}
      → is_vault_kind kind ≡ true
      → made_for gcm id_key v kind u passphrase call ≡ returned (dek, wk)
      → opened_with gcm id_key v kind (some wk) u.id passphrase ≡ returned dek
  unfolding made_for opened_with server_managed_key
  made_for-opens unlock_unset u passphrase call known h = cc
  made_for-opens unlock_derived u passphrase call {dek} {wk} known h =
      let (given, opens) = passphrase_key-opens u passphrase call h in
      opened_with_passphrase u passphrase wk dek given opens
  made_for-opens unlock_separate u passphrase call {dek} {wk} known h =
      let (given, opens) = passphrase_key-opens u passphrase call h in
      opened_with_passphrase u passphrase wk dek given opens
  made_for-opens unlock_server u passphrase call known h =
      let (dek, _, h) = >>=-returned (of_vault (new_key call.key_entropy)) _ h in
      let aad = master_aad u.id (codes "user-dek") in
      let (env, sealed, h) =
        >>=-returned (of_vault (seal_key_under gcm v.master aad call.nonce_entropy dek)) _ h in
      let (params, _, h) = >>=-returned (kdf v call.salt_entropy) _ h in
      subst
        (λ (made : Key × WrappedKey).
          opened_with gcm id_key v unlock_server (some made.1) u.id passphrase ≡ returned made.0)
        (returned-injective h)
        (ap of_vault (
          seal_key_under-opens gcm v.master aad call.nonce_entropy dek
            (of_vault-returned (seal_key_under gcm v.master aad call.nonce_entropy dek) sealed)))
  made_for-opens (other_unlock kind) u passphrase call known h = cc

  -- What a call that stored and cached a key of an account has done; `later` is when the key is asked for.
  abbrev pub StoredAndCached : State → User → Bytes → ℕ → UnlockKind → Bytes → State → Type 0
  StoredAndCached st u session_id later kind passphrase after =
      (dek : Key) × (wk : WrappedKey) × (after.users ≡ update_user u.id kind (some wk) st.users)
      × ((key after u.id session_id later).1 ≡ returned dek)
      × (opened gcm id_key v (with_vault u kind wk) passphrase ≡ returned dek)

  stored_and_cached :
      (st mid : State) (u : User) (session_id passphrase : Bytes) (kind : UnlockKind) (dek : Key)
      (wk : WrappedKey) (now later : ℕ)
      → is_vault_kind kind ≡ true
      → mid ≡ record st { users = update_user u.id kind (some wk) st.users }
      → opened_with gcm id_key v kind (some wk) u.id passphrase ≡ returned dek
      → later ≤ now + st.cache.ttl
      → StoredAndCached st u session_id later kind passphrase (cached mid u session_id dek now)
  unfolding opened
  stored_and_cached st mid u session_id passphrase kind dek wk now later known set opens l = (
    dek,
    wk,
    cached-users mid u session_id dek now ∙ ap (λ s. s.users) set,
    key-cached mid u session_id dek now later
        (subst (λ (t : ℕ). later ≤ now + t) (sym (ap (λ s. s.cache.ttl) set)) l),
    rw (vault_of-some kind wk known) opens,
  )

  enrolled :
      (vault : Option WrappedKey) (st : State) (u : User) (session_id passphrase : Bytes)
      (call : Call) (after : State) (kind : UnlockKind) (later : ℕ)
      → enrol_new gcm id_key v vault st u session_id passphrase call ≡ (after, returned kind)
      → later ≤ call.now + st.cache.ttl
      → StoredAndCached st u session_id later kind passphrase after
  unfolding enrol_new stored
  enrolled (some wk) st u session_id passphrase call after kind later h l =
      absurd (failed-ne-returned (ap (λ p. p.1) h))
  enrolled none st u session_id passphrase call after kind later h l =
      let ((dek, wk), made, h) =
        and_then-returned st (made_for gcm id_key v (kind_for v u) u passphrase call) _ h in
      let (mid, set, h) =
        and_then-returned st (set_vault st u.id (kind_for v u) wk call.database_fails) _ h in
      let (known, set) = set_vault-returned st u.id (kind_for v u) wk call.database_fails set in
      let opens = made_for-opens (kind_for v u) u passphrase call known made in
      let done =
        stored_and_cached st mid u session_id passphrase (kind_for v u) dek wk call.now later known
          set opens l in
      subst (λ (kind : UnlockKind). StoredAndCached st u session_id later kind passphrase after)
        (returned-injective (ap (λ p. p.1) h))
        (subst
          (λ (after : State). StoredAndCached st u session_id later (kind_for v u) passphrase after)
          (ap (λ p. p.0) h) done)

  -- Enrolment stores a vault that the passphrase opens, and the key that is in it is the one that the service
  -- gives for the session from then on, until the cache's time to live has passed; where the kind is the
  -- server's, any passphrase does.
  pub enrol-opens :
      (st : State) (u : User) (session_id passphrase : Bytes) (call : Call) (after : State)
      (kind : UnlockKind) (later : ℕ)
      → enrol gcm id_key v st u session_id passphrase call ≡ (after, returned kind)
      → later ≤ call.now + st.cache.ttl
      → StoredAndCached st u session_id later kind passphrase after
  unfolding enrol
  enrol-opens st u session_id passphrase call after kind later h l =
      enrolled (vault_of u.unlock_kind u.wrapped_dek) st u session_id passphrase call after kind
        later h l

  opened_with_own :
      (kind : UnlockKind) (u : User) (passphrase : Bytes) (wk : WrappedKey) (dek : Key)
      → is_server kind ≡ false
      → of_vault (unwrap_user_key gcm id_key u.id passphrase wk) ≡ returned dek
      → opened_with gcm id_key v kind (some wk) u.id passphrase ≡ returned dek
  unfolding opened_with
  opened_with_own unlock_server u passphrase wk dek own h = cc
  opened_with_own _ u passphrase wk dek own h =
      let opens = of_vault-returned (unwrap_user_key gcm id_key u.id passphrase wk) h in
      opened_with_passphrase u passphrase wk dek
        (unwrap_user_key-given gcm id_key u.id passphrase wk opens) opens

  rewrapped-opens :
      (kind : UnlockKind) (vault : Option WrappedKey) (u : User) (current next : Bytes)
      (call : Call) {wk : WrappedKey}
      → rewrapped gcm id_key v kind vault u current next call ≡ returned wk
      → (dek : Key) × (opened_with gcm id_key v kind vault u.id current ≡ returned dek)
        × (is_empty next ≡ false)
        × (is_server kind ≡ false)
        × (unwrap_user_key gcm id_key u.id next wk ≡ returned dek)
  unfolding rewrapped opened_with
  rewrapped-opens kind none u current next call h = absurd (failed-ne-returned h)
  rewrapped-opens kind (some wk) u current next call h =
      let (given, h) = guard-returned (is_empty next) passphrase_required _ h in
      let (own, h) = guard-returned (is_server kind) server_managed _ h in
      let (dek, opens, h) =
        >>=-returned (of_vault (unwrap_user_key gcm id_key u.id current wk)) _ h in
      let (params, _, h) = >>=-returned (kdf v call.salt_entropy) _ h in
      let made =
        of_vault-returned (rewrap_user_key gcm id_key u.id dek next params call.nonce_entropy) h in
      (
        dek,
        opened_with_own kind u current wk dek own opens,
        given,
        own,
        rewrap_user_key-opens gcm id_key u.id next params dek call.nonce_entropy made,
      )

  -- A change of passphrase that succeeds needs a current passphrase that opens the vault, and stores a vault
  -- that the new one opens, with the same key in it; that key is the one that the service gives for the session
  -- from then on, until the cache's time to live has passed.
  pub change_passphrase-opens :
      (st : State) (u : User) (session_id current next : Bytes) (call : Call) (after : State)
      (later : ℕ)
      → change_passphrase gcm id_key v st u session_id current next call ≡ (after, returned tt)
      → later ≤ call.now + st.cache.ttl
      → (dek : Key) × (wk : WrappedKey) × (opened gcm id_key v u current ≡ returned dek)
        × (opened gcm id_key v (with_vault u u.unlock_kind wk) next ≡ returned dek)
        × (after.users ≡ update_user u.id u.unlock_kind (some wk) st.users)
        × ((key after u.id session_id later).1 ≡ returned dek)
  unfolding change_passphrase opened
  change_passphrase-opens st u session_id current next call after later h l =
      let vault = vault_of u.unlock_kind u.wrapped_dek in
      let (wk, made, h) =
        and_then-returned st (rewrapped gcm id_key v u.unlock_kind vault u current next call) _ h in
      let (dek, opens, given, own, reopens) =
        rewrapped-opens u.unlock_kind vault u current next call made in
      let (mid, set, h) =
        and_then-returned st (set_vault st u.id u.unlock_kind wk call.database_fails) _ h in
      let (known, set) = set_vault-returned st u.id u.unlock_kind wk call.database_fails set in
      let (fresh, opened_again, h) =
        and_then-returned mid (of_vault (unwrap_user_key gcm id_key u.id next wk)) _ h in
      let same : fresh ≡ dek = returned-injective (sym opened_again ∙ ap of_vault reopens) in
      let done : cached mid u session_id fresh call.now ≡ after = ap (λ p. p.0) h in
      (
        dek,
        wk,
        opens,
        rw (vault_of-some u.unlock_kind wk known)
            (opened_with_own u.unlock_kind u next wk dek own (ap of_vault reopens)),
        subst (λ (s : State). s.users ≡ update_user u.id u.unlock_kind (some wk) st.users) done
            (cached-users mid u session_id fresh call.now ∙ ap (λ s. s.users) set),
        subst (λ (s : State). (key s u.id session_id later).1 ≡ returned dek) done
            (key-cached mid u session_id fresh call.now later
                (subst (λ (t : ℕ). later ≤ call.now + t) (sym (ap (λ s. s.cache.ttl) set)) l)
              ∙ ap returned same),
      )

  -- A current passphrase that does not open the vault changes nothing: no vault, no key and no cached entry.
  pub change_passphrase-refused :
      (st : State) (u : User) (session_id current next : Bytes) (call : Call) (e : ServiceError)
      → opened gcm id_key v u current ≡ failed e
      → (change_passphrase gcm id_key v st u session_id current next call).0 ≡ st
  unfolding change_passphrase opened
  change_passphrase-refused st u session_id current next call e h =
      refused_at
        (rewrapped gcm id_key v u.unlock_kind (vault_of u.unlock_kind u.wrapped_dek) u current next
          call)
        refl
    where
      refused_at :
          (made : Outcome ServiceError WrappedKey)
          → rewrapped gcm id_key v u.unlock_kind
              (vault_of u.unlock_kind u.wrapped_dek)
              u
              current
              next
              call
            ≡ made
          → (change_passphrase gcm id_key v st u session_id current next call).0 ≡ st
      refused_at (failed e) made = rw made refl
      refused_at (returned wk) made =
          let (dek, opens, _, _, _) =
            rewrapped-opens u.unlock_kind (vault_of u.unlock_kind u.wrapped_dek) u current next call
              made in
          absurd (failed-ne-returned (sym h ∙ opens))
