-- ===== src/Users/VaultService/Steps.antt =====
-- internal/users/vaultsvc.go: what a step of the service that returned has done.

use secure_crt.Base.{◌≡◌, refl, sym, ap, Bool, true, false, not, some, Bytes}
use secure_crt.Base.Outcome.{
  Outcome, failed, returned, failed-ne-returned, guard-returned, returned-injective,
}
use secure_crt.Vault.Key.{VaultError}
use secure_crt.Vault.Envelope.{WrappedKey}
use secure_crt.Users.VaultService.{
  User, UnlockKind, unlock_unset, unlock_derived, unlock_separate, unlock_server, other_unlock,
  vault_of, ServiceError, of_vault, State, is_vault_kind, update_user, set_vault, and_then,
  bad_unlock_kind, database_failed,
}

pub of_vault-returned {ℓ} :
    {A : Type ℓ} (o : Outcome VaultError A) {a : A} → of_vault o ≡ returned a → o ≡ returned a
of_vault-returned (failed e) h = absurd (failed-ne-returned h)
of_vault-returned (returned a) h = cc

pub not-false : (b : Bool) → not b ≡ false → b ≡ true
not-false true e = refl
not-false false e = cc

pub set_vault-returned :
    (st : State) (id : Bytes) (kind : UnlockKind) (wk : WrappedKey) (database_fails : Bool)
    {after : State}
    → set_vault st id kind wk database_fails ≡ returned after
    → (is_vault_kind kind ≡ true)
      × (after ≡ record st { users = update_user id kind (some wk) st.users })
unfolding set_vault
set_vault-returned st id kind wk database_fails h =
    let (known, h) = guard-returned (not (is_vault_kind kind)) bad_unlock_kind _ h in
    let (_, h) = guard-returned database_fails database_failed _ h in
    (not-false (is_vault_kind kind) known, sym (returned-injective h))

pub and_then-returned {ℓ κ} :
    {A : Type ℓ} {B : Type κ} (st : State) (o : Outcome ServiceError A)
    (rest : A → State × Outcome ServiceError B) {after : State} {b : B}
    → and_then st o rest ≡ (after, returned b)
    → (a : A) × (o ≡ returned a) × (rest a ≡ (after, returned b))
and_then-returned st (failed e) rest h = absurd (failed-ne-returned (ap (λ p. p.1) h))
and_then-returned st (returned a) rest h = (a, refl, h)

-- The account as it is read after its vault has been stored.
abbrev pub with_vault : User → UnlockKind → WrappedKey → User
with_vault u kind wk = record u { unlock_kind = kind; wrapped_dek = some wk }

pub vault_of-some :
    (kind : UnlockKind) (wk : WrappedKey)
    → is_vault_kind kind ≡ true
    → vault_of kind (some wk) ≡ some wk
vault_of-some unlock_unset wk h = cc
vault_of-some unlock_derived wk h = refl
vault_of-some unlock_separate wk h = refl
vault_of-some unlock_server wk h = refl
vault_of-some (other_unlock kind) wk h = cc
