-- ===== src/Auth/Session.antt =====
-- internal/auth/session.go: signed-in sessions. The table is a list of its rows, instants are numbers, and
-- the digest of a token and the order of two stored instants (they are compared as texts) are parameters.
pub mod Revoked
use secure_crt.Base.{
  ℕ, ◌+◌, ◌-◌, Bool, true, false, not, ◌&&◌, ◌||◌, Option, none, some, List, [], ◌∷◌, ltb, leb,
  if◌then◌else◌, Bytes, bytes_eq, take,
}
use secure_crt.Base.Int.{ℤ, positive?}
use secure_crt.Base.Outcome.{Outcome, failed, returned}
use secure_crt.Sessions.Rules.{is_empty}

pub data AuthMethod : Type 0 where
  auth_method_local auth_method_oidc : AuthMethod
  unknown_method : Bytes → AuthMethod

pub record Session : Type 0 where
  pub id : Bytes
  pub user_id : Bytes
  pub auth_method : AuthMethod
  pub mfa_satisfied : Bool
  pub vault_unlocked : Bool
  pub user_agent : Bytes
  pub ip_address : Bytes
  pub created_at : ℕ
  pub idle_expires_at : ℕ
  pub expires_at : ℕ
  pub revoked_at : Option ℕ

-- A session with the digest of its token.
pub record Row : Type 0 where
  pub token_hash : Bytes
  pub session : Session

abbrev pub is_revoked : Option ℕ → Bool
is_revoked none = false
is_revoked (some t) = true

unfoldable pub active : Session → ℕ → Bool
active s now = not (is_revoked s.revoked_at) && (ltb now s.expires_at && ltb now s.idle_expires_at)

pub record SessionConfig : Type 0 where
  pub idle_ttl : ℕ
  pub absolute_ttl : ℕ

-- `Validate`: both are positive, and the first is not more than the second.
unfoldable pub validated : Option ℕ → Option ℕ → Option SessionConfig
validated none absolute = none
validated (some idle) none = none
validated (some idle) (some absolute) =
    if ltb absolute idle then none else some (record { idle_ttl = idle; absolute_ttl = absolute })

unfoldable pub new_session_store : ℤ → ℤ → Option SessionConfig
new_session_store idle absolute = validated (positive? idle) (positive? absolute)

pub data SessionError : Type 0 where
  session_not_found database_failed user_required unknown_auth_method : SessionError

pub record CreateSessionParams : Type 0 where
  pub user_id : Bytes
  pub auth_method : AuthMethod
  pub mfa_satisfied : Bool
  pub user_agent : Bytes
  pub ip_address : Bytes

abbrev pub is_known_method : AuthMethod → Bool
is_known_method (unknown_method m) = false
is_known_method _ = true

-- Row by row, with the first that passes a test.
unfoldable pub first_row : (Row → Bool) → List Row → Option Row
first_row test [] = none
first_row test (r ∷ rows) = if test r then some r else first_row test rows

abbrev pub has_id : Bytes → Row → Bool
has_id id r = bytes_eq r.session.id id

abbrev pub has_hash : Bytes → Row → Bool
has_hash hash r = bytes_eq r.token_hash hash

-- The insertion: the identifier and the digest are unique in the table.
unfoldable pub insert :
    Bool → Row → Option Row → Option Row → List Row → Outcome SessionError (List Row)
insert false r none none rows = returned (r ∷ rows)
insert _ r _ _ rows = failed database_failed

-- UPDATE and DELETE, on the rows that pass a test.
unfoldable pub update_where : (Row → Bool) → (Session → Session) → List Row → List Row
update_where test f [] = []
update_where test f (r ∷ rows) =
    let rest = update_where test f rows in
    if test r then record r { session = f r.session } ∷ rest else r ∷ rest

unfoldable pub delete_where : (Row → Bool) → List Row → List Row
delete_where test [] = []
delete_where test (r ∷ rows) =
    let rest = delete_where test rows in if test r then rest else r ∷ rest

abbrev pub revoke_at : ℕ → Session → Session
revoke_at now s = record s { revoked_at = some now }

abbrev pub unrevoked : Row → Bool
unrevoked r = not (is_revoked r.session.revoked_at)

unfoldable pub revoke : ℕ → Bytes → List Row → List Row
revoke now id rows = update_where (λ r. has_id id r && unrevoked r) (revoke_at now) rows

unfoldable pub revoke_all_for_user : ℕ → Bytes → List Row → List Row
revoke_all_for_user now user_id rows =
    update_where (λ r. bytes_eq r.session.user_id user_id && unrevoked r) (revoke_at now) rows

unfoldable pub revoke_all_for_user_except : ℕ → Bytes → Bytes → List Row → List Row
revoke_all_for_user_except now user_id keep rows =
    update_where (λ r. bytes_eq r.session.user_id user_id && (not (has_id keep r) && unrevoked r))
      (revoke_at now) rows

unfoldable pub set_vault_unlocked : Bytes → Bool → List Row → List Row
set_vault_unlocked id unlocked rows =
    update_where (has_id id) (λ s. record s { vault_unlocked = unlocked }) rows

unfoldable pub set_mfa_satisfied : Bytes → List Row → List Row
set_mfa_satisfied id rows = update_where (has_id id) (λ s. record s { mfa_satisfied = true }) rows

abbrev pub earliest : ℕ → ℕ → ℕ
earliest a b = if ltb b a then b else a

-- The statements of one `Lookup` that fail: the query, the deletion, the update.
pub record Faults : Type 0 where
  pub reading : Bool
  pub deleting : Bool
  pub writing : Bool

-- `Lookup`, once the row has been read.
unfoldable pub refreshed :
    SessionConfig → Faults → ℕ → List Row → Session → List Row × Outcome SessionError Session
refreshed c faults now rows s =
    let fresh = record s { idle_expires_at = earliest (now + c.idle_ttl) s.expires_at } in
    if faults.writing then (rows, failed database_failed) else (
      update_where (has_id s.id) (λ t. record t { idle_expires_at = fresh.idle_expires_at }) rows,
      returned fresh,
    )

unfoldable pub looked_up :
    SessionConfig → Faults → ℕ → List Row → Option Row → List Row × Outcome SessionError Session
looked_up c faults now rows none = (rows, failed session_not_found)
looked_up c faults now rows (some r) =
    if active r.session now
    then refreshed c faults now rows r.session
    else if is_revoked r.session.revoked_at || faults.deleting
    then (rows, failed session_not_found)
    else (delete_where (has_id r.session.id) rows, failed session_not_found)

-- What is done to the table, by anyone; a statement that fails changes nothing.
pub data SessionCall : Type 0 where
  creates : Bool → ℕ → Bytes → Bytes → CreateSessionParams → SessionCall
  looks_up : Faults → ℕ → Bytes → SessionCall
  revokes : ℕ → Bytes → SessionCall
  revokes_user : ℕ → Bytes → SessionCall
  revokes_others : ℕ → Bytes → Bytes → SessionCall
  unlocks : Bytes → Bool → SessionCall
  passes_mfa : Bytes → SessionCall
  purges : ℕ → ℕ → SessionCall

abbrev pub table_after : List Row → Outcome SessionError (List Row) → List Row
table_after rows (failed e) = rows
table_after rows (returned after) = after

module _ (hash_token : Bytes → Bytes) (earlier : ℕ → ℕ → Bool) (c : SessionConfig) where
  unfoldable pub create :
      Bool → ℕ → Bytes → Bytes → CreateSessionParams → List Row → Outcome SessionError (List Row)
  create fails now id token p rows =
      if is_empty p.user_id
      then failed user_required
      else if not (is_known_method p.auth_method)
      then failed unknown_auth_method
      else insert fails
          (record {
            token_hash = hash_token token;
            session = record {
              id = id;
              user_id = p.user_id;
              auth_method = p.auth_method;
              mfa_satisfied = p.mfa_satisfied;
              vault_unlocked = false;
              user_agent = take 512 p.user_agent;
              ip_address = take 64 p.ip_address;
              created_at = now;
              idle_expires_at = now + c.idle_ttl;
              expires_at = now + c.absolute_ttl;
              revoked_at = none;
            };
          })
          (first_row (has_id id) rows) (first_row (has_hash (hash_token token)) rows) rows

  unfoldable pub lookup : Faults → ℕ → Bytes → List Row → List Row × Outcome SessionError Session
  lookup faults now token rows =
      if is_empty token
      then (rows, failed session_not_found)
      else if faults.reading
      then (rows, failed database_failed)
      else looked_up c faults now rows (first_row (has_hash (hash_token token)) rows)

  abbrev pub revoked_before : Option ℕ → ℕ → Bool
  revoked_before none t = false
  revoked_before (some r) t = earlier r t

  unfoldable pub purge_expired : ℕ → ℕ → List Row → List Row
  purge_expired now revoked_grace rows =
      delete_where
        (λ r.
          earlier r.session.expires_at now
          || revoked_before r.session.revoked_at (now - revoked_grace))
        rows

  unfoldable pub after_session_call : List Row → SessionCall → List Row
  after_session_call rows (creates fails now id token p) =
      table_after rows (create fails now id token p rows)
  after_session_call rows (looks_up faults now token) = (lookup faults now token rows).0
  after_session_call rows (revokes now id) = revoke now id rows
  after_session_call rows (revokes_user now user_id) = revoke_all_for_user now user_id rows
  after_session_call rows (revokes_others now user_id keep) =
      revoke_all_for_user_except now user_id keep rows
  after_session_call rows (unlocks id unlocked) = set_vault_unlocked id unlocked rows
  after_session_call rows (passes_mfa id) = set_mfa_satisfied id rows
  after_session_call rows (purges now grace) = purge_expired now grace rows

  unfoldable pub after_session_calls : List Row → List SessionCall → List Row
  after_session_calls rows [] = rows
  after_session_calls rows (call ∷ calls) = after_session_calls (after_session_call rows call) calls
