-- ===== src/Credentials/Kept.antt =====
-- internal/credentials/store.go: the row of a credential is kept by all other writes.
use mathlib.Core.Path.{subst}
use secure_crt.Base.{
  ◌≡◌, refl, ap, Bool, true, false, not, Option, some, List, [], ◌∷◌, Bytes, bytes_eq, All,
}
use secure_crt.Base.Outcome.{returned, >>=-returned, guard-returned, returned-injective}
use secure_crt.Base.Text.{trim_space}
use secure_crt.Sessions.Rules.{is_empty}
use secure_crt.Vault.Key.{Key}
use secure_crt.Vault.Envelope.{Gcm, Envelope}
use secure_crt.Credentials.{
  Credential, owner_required, name_required, database_failed, validate, field_secret, field_extra,
  Row, CreateParams, Call, find, new_credential, inserted, seal_field, create, get, new_name,
  new_username, update, delete, mark_used, Write, creating, updating, deleting, using, rows_of,
  after_write, after_writes,
}
use secure_crt.Credentials.Rows.{
  Held, inserted-Held, update_where-Held, delete_where-Held, or_same-Held, rows_of-returned,
}

-- A write other than the deletion of the credential.
abbrev pub spares : Bytes → Write → Bool
spares id (deleting owner_id other call) = not (bytes_eq other id)
spares id _ = true

not-true : (b : Bool) → not b ≡ true → b ≡ false
not-true true h = cc
not-true false h = refl

module _ (owner_id id : Bytes) (secret extra : Option Envelope) (gcm : Gcm) where
  create-Held :
      (rows : List Row) (key : Key) (p : CreateParams) (call : Call) (after : List Row)
      (c : Credential)
      → create gcm rows key p call ≡ returned (after, c)
      → Held owner_id id secret extra rows
      → Held owner_id id secret extra after
  unfolding create
  create-Held rows key p call after c e h =
      let (_, e) = guard-returned (is_empty p.owner_id) owner_required _ e in
      let (_, e) = guard-returned (is_empty (trim_space p.name)) name_required _ e in
      let (_, _, e) = >>=-returned (validate p.kind) _ e in
      let (s, _, e) =
        >>=-returned
          (seal_field gcm key p.owner_id call.new_id field_secret call.secret_entropy p.secret) _
          e in
      let (x, _, e) =
        >>=-returned
          (seal_field gcm key p.owner_id call.new_id field_extra call.extra_entropy p.extra) _ e in
      let new : Row = record {
        credential = new_credential p call;
        secret_enc = s;
        secret_extra_enc = x;
      } in
      let (made, i, e) =
        >>=-returned (inserted rows new call.database_fails (find call.new_id rows)) _ e in
      subst (Held owner_id id secret extra) (ap (λ r. r.0) (returned-injective e)) (
        inserted-Held owner_id id secret extra rows new call.database_fails (find call.new_id rows)
          made refl i h)

  update-Held :
      (rows : List Row) (owner other : Bytes) (name username : Option Bytes) (call : Call)
      (after : List Row) (c : Credential)
      → update rows owner other name username call ≡ returned (after, c)
      → Held owner_id id secret extra rows
      → Held owner_id id secret extra after
  unfolding update
  update-Held rows owner other name username call after c e h =
      let (old, _, e) = >>=-returned (get rows owner other) _ e in
      let (fresh, _, e) = >>=-returned (new_name old.name name) _ e in
      let (_, e) = guard-returned call.database_fails database_failed _ e in
      subst (Held owner_id id secret extra) (ap (λ r. r.0) (returned-injective e)) (
        update_where-Held owner_id id secret extra other
          (λ c. record c {
            name = fresh;
            username = new_username old.username username;
            updated_at = call.now;
          })
          rows (λ c. refl) (λ c. refl) h)

  delete-Held :
      (rows : List Row) (owner other : Bytes) (call : Call) (after : List Row)
      → bytes_eq other id ≡ false
      → delete rows owner other call ≡ returned after
      → Held owner_id id secret extra rows
      → Held owner_id id secret extra after
  unfolding delete
  delete-Held rows owner other call after apart e h =
      let (_, _, e) = >>=-returned (get rows owner other) _ e in
      let (_, e) = guard-returned call.database_fails database_failed _ e in
      subst (Held owner_id id secret extra) (returned-injective e)
        (delete_where-Held owner_id id secret extra other rows apart h)

  mark_used-Held :
      (rows : List Row) (other : Bytes) (call : Call) (after : List Row)
      → mark_used rows other call ≡ returned after
      → Held owner_id id secret extra rows
      → Held owner_id id secret extra after
  unfolding mark_used
  mark_used-Held rows other call after e h =
      let (_, e) = guard-returned call.database_fails database_failed _ e in
      subst (Held owner_id id secret extra) (returned-injective e) (
        update_where-Held owner_id id secret extra other
          (λ c. record c { last_used_at = some call.now }) rows (λ c. refl) (λ c. refl) h)

  after_write-Held :
      (rows : List Row) (w : Write)
      → spares id w ≡ true
      → Held owner_id id secret extra rows
      → Held owner_id id secret extra (after_write gcm rows w)
  unfolding after_write
  after_write-Held rows (creating key p call) _ h =
      or_same-Held owner_id id secret extra rows (rows_of (create gcm rows key p call))
        (λ after e.
          let (c, e) = rows_of-returned owner_id id secret extra (create gcm rows key p call) e in
          create-Held rows key p call after c e h)
        h
  after_write-Held rows (updating owner other name username call) _ h =
      or_same-Held owner_id id secret extra rows
        (rows_of (update rows owner other name username call))
        (λ after e.
          let (c, e) =
            rows_of-returned owner_id id secret extra (update rows owner other name username call)
              e in
          update-Held rows owner other name username call after c e h)
        h
  after_write-Held rows (deleting owner other call) s h =
      or_same-Held owner_id id secret extra rows (delete rows owner other call)
        (λ after e. delete-Held rows owner other call after (not-true (bytes_eq other id) s) e h) h
  after_write-Held rows (using other call) _ h =
      or_same-Held owner_id id secret extra rows (mark_used rows other call)
        (λ after e. mark_used-Held rows other call after e h) h

  pub after_writes-Held :
      (rows : List Row) (writes : List Write)
      → All (λ w. spares id w ≡ true) writes
      → Held owner_id id secret extra rows
      → Held owner_id id secret extra (after_writes gcm rows writes)
  unfolding after_writes
  after_writes-Held rows [] _ h = h
  after_writes-Held rows (w ∷ writes) (s, ss) h =
      after_writes-Held (after_write gcm rows w) writes ss (after_write-Held rows w s h)
