-- ===== src/Credentials/Rows.antt =====
-- internal/credentials/store.go: the row of a credential in the tables that the statements leave.
use mathlib.Core.Path.{subst}
use secure_crt.Base.{
  ◌≡◌, refl, sym, ap, ◌∙◌, Bool, true, false, Option, none, some, List, [], ◌∷◌, if-rule,
  Bool-cases, inl, inr, Bytes, bytes_eq, bytes_eq_sound, bytes_eq_ne, bytes_eq_apart,
}
use secure_crt.Base.Outcome.{
  Outcome, failed, returned, failed-ne-returned, guard-returned, returned-injective,
}
use secure_crt.Vault.Key.{VaultError}
use secure_crt.Vault.Envelope.{Envelope}
use secure_crt.Credentials.{
  Credential, CredentialError, database_failed, Row, of_vault, has_id, find, inserted, update_where,
  delete_where, or_same, rows_of,
}

-- The row of a credential, with its owner and its sealed columns.
pub record Holds (owner_id id : Bytes) (secret extra : Option Envelope) (rows : List Row)
    : Type 0 where
  pub row : Row
  pub found : find id rows ≡ some row
  pub owned : row.credential.owner_id ≡ owner_id
  pub secret_same : row.secret_enc ≡ secret
  pub extra_same : row.secret_extra_enc ≡ extra

pub of_vault-returned :
    {A : Type 0} (o : Outcome VaultError A) {a : A} → of_vault o ≡ returned a → o ≡ returned a
of_vault-returned (failed e) h = absurd (failed-ne-returned h)
of_vault-returned (returned a) h = cc

module _ (owner_id id : Bytes) (secret extra : Option Envelope) where
  abbrev pub Held : List Row → Type 0
  Held rows = Holds owner_id id secret extra rows

  nothing-Held : ¬ Held []
  unfolding find
  nothing-Held h = none-ne-some h.found
    where
      none-ne-some : {r : Row} → none ≡ some r → ⊥
      none-ne-some h = cc

  cons-Held : (r : Row) (rows : List Row) → has_id id r ≡ false → Held rows → Held (r ∷ rows)
  unfolding find
  cons-Held r rows other h = record {
    row = h.row;
    found = rw other h.found;
    owned = h.owned;
    secret_same = h.secret_same;
    extra_same = h.extra_same;
  }

  tail-Held : (r : Row) (rows : List Row) → has_id id r ≡ false → Held (r ∷ rows) → Held rows
  unfolding find
  tail-Held r rows other h = record {
    row = h.row;
    found = rw other at h.found;
    owned = h.owned;
    secret_same = h.secret_same;
    extra_same = h.extra_same;
  }

  -- The head is the credential's row, and stays so with another owner's columns unchanged.
  head-Held :
      (r k : Row) (rows others : List Row)
      → has_id id r ≡ true
      → has_id id k ≡ true
      → k.credential.owner_id ≡ r.credential.owner_id
      → k.secret_enc ≡ r.secret_enc
      → k.secret_extra_enc ≡ r.secret_extra_enc
      → Held (r ∷ rows)
      → Held (k ∷ others)
  unfolding find
  head-Held r k rows others own same owner s e h =
      let at_head : r ≡ h.row = some-injective (rw own at h.found) in
      record {
        row = k;
        found = rw same refl;
        owned = owner ∙ ap (λ r. r.credential.owner_id) at_head ∙ h.owned;
        secret_same = s ∙ ap (λ r. r.secret_enc) at_head ∙ h.secret_same;
        extra_same = e ∙ ap (λ r. r.secret_extra_enc) at_head ∙ h.extra_same;
      }
    where
      some-injective : {x y : Row} → some x ≡ some y → x ≡ y
      some-injective h = cc

  pub update_where-Held :
      (other : Bytes) (f : Credential → Credential) (rows : List Row)
      → ((c : Credential) → (f c).id ≡ c.id)
      → ((c : Credential) → (f c).owner_id ≡ c.owner_id)
      → Held rows
      → Held (update_where other f rows)
  unfolding update_where
  update_where-Held other f [] i o h = h
  update_where-Held other f (r ∷ rows) i o h =
      let after = update_where other f rows in
      let changed = record r { credential = f r.credential } in
      let same_id = ap (λ x. bytes_eq x id) (i r.credential) in
      elim (Bool-cases (has_id id r)) [
        | inl own ↦
            if-rule Held (has_id other r)
              (λ _. head-Held r changed rows after own (same_id ∙ own) (o r.credential) refl refl h)
              (λ _. head-Held r r rows after own own refl refl refl h)
        | inr not_own ↦
            let rest = update_where-Held other f rows i o (tail-Held r rows not_own h) in
            if-rule Held (has_id other r) (λ _. cons-Held changed after (same_id ∙ not_own) rest)
              (λ _. cons-Held r after not_own rest)
      ]

  pub delete_where-Held :
      (other : Bytes) (rows : List Row)
      → bytes_eq other id ≡ false
      → Held rows
      → Held (delete_where other rows)
  unfolding delete_where
  delete_where-Held other [] apart h = h
  delete_where-Held other (r ∷ rows) apart h =
      let after = delete_where other rows in
      elim (Bool-cases (has_id id r)) [
        | inl own ↦
            let same = bytes_eq_sound r.credential.id id own in
            rw
              (bytes_eq_ne r.credential.id other
                (λ e. bytes_eq_apart other id apart (sym e ∙ same)))
              (head-Held r r rows after own own refl refl refl h)
        | inr not_own ↦
            let rest = delete_where-Held other rows apart (tail-Held r rows not_own h) in
            if-rule Held (has_id other r) (λ _. rest) (λ _. cons-Held r after not_own rest)
      ]

  pub inserted-Held :
      (rows : List Row) (r : Row) (fails : Bool) (there : Option Row) (after : List Row)
      → find r.credential.id rows ≡ there
      → inserted rows r fails there ≡ returned after
      → Held rows
      → Held after
  unfolding inserted
  inserted-Held rows r fails (some x) after e i h = absurd (failed-ne-returned i)
  inserted-Held rows r fails none after e i h =
      let (_, i) = guard-returned fails database_failed _ i in
      subst Held (returned-injective i) (elim (Bool-cases (has_id id r)) [
        | inl own ↦ absurd (
            some-ne-none (
              sym h.found
              ∙ ap (λ x. find x rows) (sym (bytes_eq_sound r.credential.id id own))
              ∙ e))
        | inr other ↦ cons-Held r rows other h
      ])
    where
      some-ne-none : {x : Row} → some x ≡ none → ⊥
      some-ne-none h = cc

  pub or_same-Held :
      (rows : List Row) (o : Outcome CredentialError (List Row))
      → ((after : List Row) → o ≡ returned after → Held after)
      → Held rows
      → Held (or_same rows o)
  or_same-Held rows (failed e) k h = h
  or_same-Held rows (returned after) k h = k after refl

  pub rows_of-returned :
      {A : Type 0} (o : Outcome CredentialError (List Row × A)) {after : List Row}
      → rows_of o ≡ returned after
      → (a : A) × (o ≡ returned (after, a))
  rows_of-returned (failed e) h = absurd (failed-ne-returned h)
  rows_of-returned (returned (rows, a)) h = (a, ap (λ x. returned (x, a)) (returned-injective h))
