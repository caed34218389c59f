-- ===== src/Credentials/Reveal.antt =====
-- internal/credentials/store.go: a secret that was stored is the one that is revealed.
use mathlib.Core.Path.{subst}
use secure_crt.Base.{
  ◌≡◌, refl, sym, ap, ◌∙◌, Bool, true, false, ◌&&◌, Option, none, some, List, [], ◌∷◌, Bool-cases,
  inl, inr, Bytes, bytes_eq_refl, All,
}
use secure_crt.Base.Outcome.{
  returned, >>=-returned, failed-ne-returned, guard-returned, returned-injective,
}
use secure_crt.Base.Text.{trim_space}
use secure_crt.Sessions.Rules.{is_empty}
use secure_crt.Vault.Key.{Key}
use secure_crt.Vault.Envelope.{Gcm, Envelope, credential_aad, seal}
use secure_crt.Vault.Envelope.Wrapping.{seal-open_}
use secure_crt.Credentials.{
  Credential, owner_required, name_required, database_failed, validate, field_secret, field_extra,
  Row, CreateParams, Call, of_vault, find, new_credential, inserted, seal_field, open_field, create,
  reveal, Write, after_writes,
}
use secure_crt.Credentials.Kept.{spares, after_writes-Held}
use secure_crt.Credentials.Rows.{Holds, of_vault-returned}

inserted-at_head :
    (rows : List Row) (r : Row) (fails : Bool) (there : Option Row) (after : List Row)
    → inserted rows r fails there ≡ returned after
    → (r ∷ rows) ≡ after
unfolding inserted
inserted-at_head rows r fails (some x) after i = absurd (failed-ne-returned i)
inserted-at_head rows r fails none after i =
    let (_, i) = guard-returned fails database_failed _ i in returned-injective i

nothing : (s : Bytes) → is_empty s ≡ true → s ≡ []
nothing [] h = refl
nothing (x ∷ s) h = cc

module _ (gcm : Gcm) (key : Key) where
  seal_field-opens :
      (owner_id id field entropy plaintext : Bytes) (stored : Option Envelope)
      → seal_field gcm key owner_id id field entropy plaintext ≡ returned stored
      → open_field gcm key owner_id id field stored ≡ returned plaintext
  unfolding seal_field open_field
  seal_field-opens owner_id id field entropy plaintext stored h =
      elim (Bool-cases (is_empty plaintext)) [
        | inl e ↦
            subst
              (λ (o : Option Envelope). open_field gcm key owner_id id field o ≡ returned plaintext)
              (returned-injective (rw e at h)) (ap returned (sym (nothing plaintext e)))
        | inr e ↦
            let aad = credential_aad owner_id id field in
            let (env, sealed, h) =
              >>=-returned (of_vault (seal gcm key aad entropy plaintext)) _ (rw e at h) in
            subst
              (λ (o : Option Envelope). open_field gcm key owner_id id field o ≡ returned plaintext)
              (returned-injective h)
              (ap of_vault (
                seal-open_ gcm key aad entropy plaintext
                  (of_vault-returned (seal gcm key aad entropy plaintext) sealed)))
      ]

  create-Holds :
      (rows : List Row) (p : CreateParams) (call : Call) (after : List Row) (c : Credential)
      → create gcm rows key p call ≡ returned (after, c)
      → (secret : Option Envelope) × (extra : Option Envelope) × Holds p.owner_id c.id secret extra
          after
        × (open_field gcm key p.owner_id c.id field_secret secret ≡ returned p.secret)
        × (open_field gcm key p.owner_id c.id field_extra extra ≡ returned p.extra)
  unfolding create find
  create-Holds rows p call after c e =
      let (_, e) = guard-returned (is_empty p.owner_id) owner_required _ e in
      let (_, e) = guard-returned (is_empty (trim_space p.name)) name_required _ e in
      let (_, _, e) = >>=-returned (validate p.kind) _ e in
      let (s, s_sealed, e) =
        >>=-returned
          (seal_field gcm key p.owner_id call.new_id field_secret call.secret_entropy p.secret) _
          e in
      let (x, x_sealed, e) =
        >>=-returned
          (seal_field gcm key p.owner_id call.new_id field_extra call.extra_entropy p.extra) _ e in
      let new : Row = record {
        credential = new_credential p call;
        secret_enc = s;
        secret_extra_enc = x;
      } in
      let (made, i, e) =
        >>=-returned (inserted rows new call.database_fails (find call.new_id rows)) _ e in
      let at_head = inserted-at_head rows new call.database_fails (find call.new_id rows) made i in
      let place : made ≡ after = ap (λ r. r.0) (returned-injective e) in
      let name : call.new_id ≡ c.id = ap (λ r. r.1.id) (returned-injective e) in
      let held : Holds p.owner_id call.new_id s x (new ∷ rows) = record {
        row = new;
        found = rw (bytes_eq_refl call.new_id) refl;
        owned = refl;
        secret_same = refl;
        extra_same = refl;
      } in
      (
        s,
        x,
        subst (λ (id : Bytes). Holds p.owner_id id s x after) name
            (subst (Holds p.owner_id call.new_id s x) (at_head ∙ place) held),
        subst (λ (id : Bytes). open_field gcm key p.owner_id id field_secret s ≡ returned p.secret)
            name
            (seal_field-opens p.owner_id call.new_id field_secret call.secret_entropy p.secret s
              s_sealed),
        subst (λ (id : Bytes). open_field gcm key p.owner_id id field_extra x ≡ returned p.extra)
            name
            (seal_field-opens p.owner_id call.new_id field_extra call.extra_entropy p.extra x
              x_sealed),
      )

  held-reveal :
      (owner_id id value more : Bytes) (secret extra : Option Envelope) (rows : List Row)
      → Holds owner_id id secret extra rows
      → open_field gcm key owner_id id field_secret secret ≡ returned value
      → open_field gcm key owner_id id field_extra extra ≡ returned more
      → (is_empty value && is_empty more) ≡ false
      → reveal gcm rows key owner_id id ≡ returned (record { value = value; extra = more })
  unfolding reveal
  held-reveal owner_id id value more secret extra rows h s x some_secret =
      rw (h.found, h.owned, bytes_eq_refl owner_id, h.secret_same, h.extra_same, s, x, some_secret)
        refl

  -- A credential that was created with a secret is revealed to its owner, under the same key, as it was given,
  -- after any other creations, changes, uses and deletions of other credentials.
  pub create-reveal :
      (rows : List Row) (p : CreateParams) (call : Call) (after : List Row) (c : Credential)
      (writes : List Write)
      → create gcm rows key p call ≡ returned (after, c)
      → (is_empty p.secret && is_empty p.extra) ≡ false
      → All (λ w. spares c.id w ≡ true) writes
      → reveal gcm (after_writes gcm after writes) key p.owner_id c.id
        ≡ returned (record { value = p.secret; extra = p.extra })
  create-reveal rows p call after c writes e some_secret spared =
      let (secret, extra, held, s, x) = create-Holds rows p call after c e in
      held-reveal p.owner_id c.id p.secret p.extra secret extra (after_writes gcm after writes)
        (after_writes-Held p.owner_id c.id secret extra gcm after writes spared held) s x
        some_secret
