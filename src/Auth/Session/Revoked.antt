-- ===== src/Auth/Session/Revoked.antt =====
-- session.go: a session that has been revoked is never accepted again.
use mathlib.Core.Path.{subst}
use secure_crt.Base.{
  ℕ, ◌≡◌, ◌≢◌, ◌⊎◌, refl, sym, ap, ◌∙◌, inl, inr, Bool, true, false, not, ◌&&◌, ◌||◌, Bool-cases,
  Option, none, some, List, [], ◌∷◌, if-rule, Bytes, bytes_eq_apart, All, arith,
}
use secure_crt.Base.Outcome.{Outcome, returned, failed-ne-returned}
use secure_crt.Sessions.Rules.{is_empty}
use secure_crt.Auth.Session.{
  Session, Row, is_revoked, active, SessionConfig, SessionError, CreateSessionParams,
  is_known_method, first_row, has_id, has_hash, insert, update_where, delete_where, revoke_at,
  unrevoked, revoke, revoke_all_for_user, revoke_all_for_user_except, set_vault_unlocked,
  set_mfa_satisfied, Faults, refreshed, looked_up, create, lookup, purge_expired, SessionCall,
  creates, looks_up, revokes, revokes_user, revokes_others, unlocks, passes_mfa, purges,
  table_after, after_session_call, after_session_calls,
}

-- A row of another session, or one that is revoked.
abbrev Out : Bytes → Session → Type 0
Out id s = (s.id ≢ id) ⊎ (is_revoked s.revoked_at ≡ true)

abbrev AllOut : Bytes → List Row → Type 0
AllOut id rows = All (λ (r : Row). Out id r.session) rows

row : {q r : Row} → some q ≡ some r → q ≡ r
row h = cc

active_unrevoked : (s : Session) (now : ℕ) → active s now ≡ true → is_revoked s.revoked_at ≢ true
unfolding active
active_unrevoked s now h k = let b : not (is_revoked s.revoked_at) ≡ true = ground arith in cc

session : {s t : Session} → ◌≡◌ {A = Outcome SessionError Session} (returned s) (returned t) → s ≡ t
session h = cc

nothing_found :
    (c : SessionConfig) (faults : Faults) (now : ℕ) (rows : List Row) (s : Session)
    → (looked_up c faults now rows none).1 ≢ returned s
unfolding looked_up
nothing_found c faults now rows s h = failed-ne-returned h

-- `Lookup` gives out the session of an active row.
found_active :
    (c : SessionConfig) (faults : Faults) (now : ℕ) (rows : List Row) (r : Row) (s : Session)
    → (looked_up c faults now rows (some r)).1 ≡ returned s
    → (active r.session now ≡ true) × (s.id ≡ r.session.id)
unfolding looked_up refreshed
found_active c faults now rows r s h = elim (Bool-cases (active r.session now)) [
  | inl e ↦ elim (Bool-cases faults.writing) [
    | inl broken ↦ absurd (failed-ne-returned (rw (e, broken) at h))
    | inr works ↦ (e, ap (λ (x : Session). x.id) (sym (session (rw (e, works) at h))))
  ]
  | inr e ↦ elim (Bool-cases (is_revoked r.session.revoked_at || faults.deleting)) [
    | inl left ↦ absurd (failed-ne-returned (rw (e, left) at h))
    | inr gone ↦ absurd (failed-ne-returned (rw (e, gone) at h))
  ]
]

module _ (id : Bytes) where
  update_where-AllOut :
      (test : Row → Bool) (f : Session → Session) (rows : List Row)
      → ((s : Session) → Out id s → Out id (f s))
      → AllOut id rows
      → AllOut id (update_where test f rows)
  unfolding update_where
  update_where-AllOut test f [] keeps a = a
  update_where-AllOut test f (r ∷ rows) keeps (o, os) =
      let rest = update_where-AllOut test f rows keeps os in
      if-rule (AllOut id) (test r) (λ e. (keeps r.session o, rest)) (λ e. (o, rest))

  delete_where-AllOut :
      (test : Row → Bool) (rows : List Row) → AllOut id rows → AllOut id (delete_where test rows)
  unfolding delete_where
  delete_where-AllOut test [] a = a
  delete_where-AllOut test (r ∷ rows) (o, os) =
      let rest = delete_where-AllOut test rows os in
      if-rule (AllOut id) (test r) (λ e. rest) (λ e. (o, rest))

  first_row-Out :
      (test : Row → Bool) (rows : List Row) (r : Row)
      → first_row test rows ≡ some r
      → AllOut id rows
      → Out id r.session
  unfolding first_row
  first_row-Out test [] r h a = cc
  first_row-Out test (q ∷ rows) r h (o, os) = elim (Bool-cases (test q)) [
    | inl e ↦ let k : some q ≡ some r = rw e at h in subst (λ (x : Row). Out id x.session) (row k) o
    | inr e ↦ first_row-Out test rows r (rw e at h) os
  ]

  revoked_row : (r : Row) → has_id id r && unrevoked r ≡ false → Out id r.session
  revoked_row r h = elim (Bool-cases (has_id id r)) [
    | inl here ↦ inr (ground arith)
    | inr other ↦ inl (bytes_eq_apart r.session.id id other)
  ]

  revoke-AllOut : (now : ℕ) (rows : List Row) → AllOut id (revoke now id rows)
  unfolding revoke update_where
  revoke-AllOut now [] = tt
  revoke-AllOut now (r ∷ rows) =
      let rest = revoke-AllOut now rows in
      if-rule (AllOut id) (has_id id r && unrevoked r) (λ e. (inr refl, rest))
        (λ e. (revoked_row r e, rest))

  looked_up-AllOut :
      (c : SessionConfig) (faults : Faults) (now : ℕ) (rows : List Row) (o : Option Row)
      → AllOut id rows
      → AllOut id (looked_up c faults now rows o).0
  unfolding looked_up refreshed
  looked_up-AllOut c faults now rows none a = a
  looked_up-AllOut c faults now rows (some r) a =
      let P = λ (x : List Row × Outcome SessionError Session). AllOut id x.0 in
      if-rule P (active r.session now)
        (λ e.
          if-rule P faults.writing (λ f. a)
            (λ f. update_where-AllOut (has_id r.session.id) _ rows (λ s o. o) a))
        (λ e.
          if-rule P (is_revoked r.session.revoked_at || faults.deleting) (λ f. a)
            (λ f. delete_where-AllOut (has_id r.session.id) rows a))

  looked_up-Out :
      (c : SessionConfig) (faults : Faults) (now : ℕ) (rows : List Row) (o : Option Row)
      (s : Session)
      → ((r : Row) → o ≡ some r → Out id r.session)
      → (looked_up c faults now rows o).1 ≡ returned s
      → s.id ≢ id
  looked_up-Out c faults now rows none s out h = absurd (nothing_found c faults now rows s h)
  looked_up-Out c faults now rows (some r) s out h =
      let (alive, same) = found_active c faults now rows r s h in
      elim (out r refl) [
        | inl other ↦ λ e. other (sym same ∙ e)
        | inr revoked ↦ absurd (active_unrevoked r.session now alive revoked)
      ]

-- The calls that make no session of an identifier.
abbrev pub Apart : Bytes → SessionCall → Type 0
Apart id (creates fails now new token p) = new ≢ id
Apart id (looks_up faults now token) = Unit
Apart id (revokes now other) = Unit
Apart id (revokes_user now user_id) = Unit
Apart id (revokes_others now user_id keep) = Unit
Apart id (unlocks other unlocked) = Unit
Apart id (passes_mfa other) = Unit
Apart id (purges now grace) = Unit

module _ (hash_token : Bytes → Bytes) (earlier : ℕ → ℕ → Bool) (c : SessionConfig)
    (id : Bytes) where
  insert-AllOut :
      (fails : Bool) (r : Row) (taken used : Option Row) (rows : List Row)
      → r.session.id ≢ id
      → AllOut id rows
      → AllOut id (table_after rows (insert fails r taken used rows))
  unfolding insert
  insert-AllOut false r none none rows ne a = (inl ne, a)
  insert-AllOut false r none (some q) rows ne a = a
  insert-AllOut false r (some q) none rows ne a = a
  insert-AllOut false r (some q) (some p) rows ne a = a
  insert-AllOut true r none none rows ne a = a
  insert-AllOut true r none (some q) rows ne a = a
  insert-AllOut true r (some q) none rows ne a = a
  insert-AllOut true r (some q) (some p) rows ne a = a

  create-AllOut :
      (fails : Bool) (now : ℕ) (new token : Bytes) (p : CreateSessionParams) (rows : List Row)
      → new ≢ id
      → AllOut id rows
      → AllOut id (table_after rows (create hash_token earlier c fails now new token p rows))
  unfolding create
  create-AllOut fails now new token p rows ne a =
      let P = λ (o : Outcome SessionError (List Row)). AllOut id (table_after rows o) in
      if-rule P (is_empty p.user_id) (λ e. a)
        (λ e.
          if-rule P (not (is_known_method p.auth_method)) (λ k. a)
            (λ k.
              insert-AllOut fails _ (first_row (has_id new) rows)
                (first_row (has_hash (hash_token token)) rows) rows ne a))

  lookup-AllOut :
      (faults : Faults) (now : ℕ) (token : Bytes) (rows : List Row)
      → AllOut id rows
      → AllOut id (lookup hash_token earlier c faults now token rows).0
  unfolding lookup
  lookup-AllOut faults now token rows a =
      let P = λ (x : List Row × Outcome SessionError Session). AllOut id x.0 in
      if-rule P (is_empty token) (λ e. a)
        (λ e.
          if-rule P faults.reading (λ f. a)
            (λ f.
              looked_up-AllOut id c faults now rows (first_row (has_hash (hash_token token)) rows)
                a))

  after_session_call-AllOut :
      (rows : List Row) (call : SessionCall)
      → Apart id call
      → AllOut id rows
      → AllOut id (after_session_call hash_token earlier c rows call)
  unfolding after_session_call revoke revoke_all_for_user revoke_all_for_user_except
      set_vault_unlocked set_mfa_satisfied purge_expired
  after_session_call-AllOut rows (creates fails now new token p) ne a =
      create-AllOut fails now new token p rows ne a
  after_session_call-AllOut rows (looks_up faults now token) ne a =
      lookup-AllOut faults now token rows a
  after_session_call-AllOut rows (revokes now other) ne a =
      update_where-AllOut id _ (revoke_at now) rows (λ s o. inr refl) a
  after_session_call-AllOut rows (revokes_user now user_id) ne a =
      update_where-AllOut id _ (revoke_at now) rows (λ s o. inr refl) a
  after_session_call-AllOut rows (revokes_others now user_id keep) ne a =
      update_where-AllOut id _ (revoke_at now) rows (λ s o. inr refl) a
  after_session_call-AllOut rows (unlocks other unlocked) ne a =
      update_where-AllOut id _ _ rows (λ s o. o) a
  after_session_call-AllOut rows (passes_mfa other) ne a =
      update_where-AllOut id _ _ rows (λ s o. o) a
  after_session_call-AllOut rows (purges now grace) ne a = delete_where-AllOut id _ rows a

  after_session_calls-AllOut :
      (rows : List Row) (calls : List SessionCall)
      → All (Apart id) calls
      → AllOut id rows
      → AllOut id (after_session_calls hash_token earlier c rows calls)
  unfolding after_session_calls
  after_session_calls-AllOut rows [] ne a = a
  after_session_calls-AllOut rows (call ∷ calls) (ne, nes) a =
      after_session_calls-AllOut (after_session_call hash_token earlier c rows call) calls nes
        (after_session_call-AllOut rows call ne a)

  lookup-Out :
      (faults : Faults) (now : ℕ) (token : Bytes) (rows : List Row) (s : Session)
      → AllOut id rows
      → (lookup hash_token earlier c faults now token rows).1 ≡ returned s
      → s.id ≢ id
  unfolding lookup looked_up refreshed
  lookup-Out faults now token rows s a h = elim (Bool-cases (is_empty token)) [
    | inl e ↦ absurd (failed-ne-returned (rw e at h))
    | inr e ↦ elim (Bool-cases faults.reading) [
      | inl broken ↦ absurd (failed-ne-returned (rw (e, broken) at h))
      | inr works ↦
          looked_up-Out id c faults now rows (first_row (has_hash (hash_token token)) rows) s
            (λ r found. first_row-Out id (has_hash (hash_token token)) rows r found a)
            (rw (e, works) at h)
    ]
  ]

  -- Once a session has been revoked, whatever is done to the table, no token gives it out again; only a
  -- new session of the same identifier could, and none is made, identifiers being unique.
  pub lookup-revoke_ne :
      (rows : List Row) (since : ℕ) (calls : List SessionCall) (faults : Faults) (now : ℕ)
      (token : Bytes) (s : Session)
      → All (Apart id) calls
      → (lookup hash_token earlier c faults now token
          (after_session_calls hash_token earlier c (revoke since id rows) calls)).1
        ≡ returned s
      → s.id ≢ id
  lookup-revoke_ne rows since calls faults now token s apart h =
      lookup-Out faults now token _ s
        (after_session_calls-AllOut _ calls apart (revoke-AllOut id since rows)) h
