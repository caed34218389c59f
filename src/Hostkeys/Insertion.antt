-- ===== src/Hostkeys/Insertion.antt =====
-- internal/hostkeys/hostkeys.go: what `insert` does to the table.
use secure_crt.Base.{
  arith, ◌≡◌, ◌⊎◌, inl, inr, refl, ap, ◌∙◌, ◌||◌, Bool-cases, Bool, true, false, not, Option, none,
  some, List, ◌∷◌, if-rule, Bytes, bytes_eq,
}
use secure_crt.Base.Int.{ℤ, is_between_one_and}
use secure_crt.Base.Outcome.{
  Outcome, failed, returned, failed-ne-returned, returned-injective, guard-returned, >>=-returned,
}
use secure_crt.Sessions.Rules.{is_empty}
use secure_crt.Hostkeys.{
  is_some, Entry, Presented, Call, HostKeyError, normalize_host, is_for, select, lookup, if_found,
  or_not_found, new_entry, insert, trust_seen, check_key, checked, insert_checked, insert_row,
  is_taken, empty_hostname, bad_port, key_required,
}

-- The table is as it was, or has a new row whose place was free.
abbrev pub Inserted : List Entry → Entry → List Entry → Type 0
Inserted rows new after =
    (after ≡ rows)
    ⊎ ((after ≡ new ∷ rows)
        × (select (is_for new.user_id new.hostname new.port new.key_type) rows ≡ none))

if_found-none :
    (found : Option Entry) → if_found (or_not_found found) ≡ returned none → found ≡ none
if_found-none none h = refl
if_found-none (some e) h = cc

free_place :
    (fails : Bool) (rows : List Entry) (user_id host : Bytes) (port : ℤ) (key_type : Bytes)
    → if_found (lookup fails rows user_id host port key_type) ≡ returned none
    → select (is_for user_id host port key_type) rows ≡ none
unfolding lookup
free_place true rows user_id host port key_type h = absurd (failed-ne-returned h)
free_place false rows user_id host port key_type h =
    if_found-none (select (is_for user_id host port key_type) rows) h

insert_row-Inserted :
    (rows : List Entry) (new : Entry) (writing_fails : Bool)
    → select (is_for new.user_id new.hostname new.port new.key_type) rows ≡ none
    → Inserted rows new (insert_row rows new writing_fails).0
unfolding insert_row
insert_row-Inserted rows new writing_fails free =
    if-rule (λ (r : List Entry × Outcome HostKeyError Entry). Inserted rows new r.0)
      (writing_fails || is_taken new rows) (λ e. inl refl) (λ e. inr (refl, free))

checked-none :
    (presented : Presented) (found : Option Entry)
    → checked presented found ≡ returned none
    → found ≡ none
checked-none presented none h = refl
checked-none presented (some existing) h =
    elim (Bool-cases (bytes_eq existing.fingerprint presented.fingerprint)) [
      | inl e ↦ absurd (some-ne-none (returned-injective (rw e at h)))
      | inr e ↦ absurd (failed-ne-returned (rw e at h))
    ]
  where
    some-ne-none : {e : Entry} → some e ≡ none → ⊥
    some-ne-none h = cc

insert_checked-Inserted :
    (rows : List Entry) (new : Entry) (writing_fails : Bool)
    (found : Outcome HostKeyError (Option Entry))
    → (found ≡ returned none
        → select (is_for new.user_id new.hostname new.port new.key_type) rows ≡ none)
    → Inserted rows new (insert_checked rows new writing_fails found).0
insert_checked-Inserted rows new writing_fails (failed e) free = inl refl
insert_checked-Inserted rows new writing_fails (returned (some existing)) free = inl refl
insert_checked-Inserted rows new writing_fails (returned none) free =
    insert_row-Inserted rows new writing_fails (free refl)

-- The UNIQUE of the table, for an owner that is an account.
pub select-none :
    (new : Entry) (rows : List Entry)
    → is_empty new.user_id ≡ false
    → is_taken new rows ≡ false
    → select (is_for new.user_id new.hostname new.port new.key_type) rows ≡ none
select-none new rows owned h =
    none_of (select (is_for new.user_id new.hostname new.port new.key_type) rows) (rw owned at h)
  where
    none_of : (o : Option Entry) → is_some o ≡ false → o ≡ none
    none_of none h = refl
    none_of (some e) h = cc

insert_checked-owned :
    (rows : List Entry) (new : Entry) (writing_fails : Bool)
    (found : Outcome HostKeyError (Option Entry))
    → is_empty new.user_id ≡ false
    → Inserted rows new (insert_checked rows new writing_fails found).0
unfolding insert_row
insert_checked-owned rows new writing_fails (failed e) owned = inl refl
insert_checked-owned rows new writing_fails (returned (some existing)) owned = inl refl
insert_checked-owned rows new writing_fails (returned none) owned =
    if-rule (λ (r : List Entry × Outcome HostKeyError Entry). Inserted rows new r.0)
      (writing_fails || is_taken new rows) (λ e. inl refl)
      (λ e. inr (refl, select-none new rows owned (ground (arith, e))))

module _ (to_lower : Bytes → Bytes) (rows : List Entry) (user_id hostname : Bytes) (port : ℤ)
    (presented : Presented) (call : Call) where
  -- The row that is written, if one is.
  abbrev pub written : Entry
  written = new_entry user_id (normalize_host to_lower hostname) port presented call

  check_key-free :
      check_key to_lower rows user_id hostname port presented call ≡ returned none
      → select (is_for user_id (normalize_host to_lower hostname) port presented.key_type) rows
        ≡ none
  unfolding check_key
  check_key-free h =
      let host = normalize_host to_lower hostname in
      let (_, h) = guard-returned (is_empty host) empty_hostname _ h in
      let (_, h) = guard-returned (not (is_between_one_and 65535 port)) bad_port _ h in
      let (_, h) = guard-returned (is_empty presented.fingerprint) key_required _ h in
      let (_, h) = guard-returned (is_empty presented.public_key) key_required _ h in
      let (found, looked, h) =
        >>=-returned
          (if_found (lookup call.reading_fails rows user_id host port presented.key_type)) _ h in
      free_place call.reading_fails rows user_id host port presented.key_type
        (looked ∙ ap returned (checked-none presented found h))

  pub insert-Inserted :
      Inserted rows written (insert to_lower rows rows user_id hostname port presented call).0
  unfolding insert
  insert-Inserted =
      insert_checked-Inserted rows written call.writing_fails
        (check_key to_lower rows user_id hostname port presented call) check_key-free

  -- Whatever table the query of an account's call saw.
  pub insert-owned :
      (seen : List Entry)
      → is_empty user_id ≡ false
      → Inserted rows written (insert to_lower seen rows user_id hostname port presented call).0
  unfolding insert
  insert-owned seen owned =
      insert_checked-owned rows written call.writing_fails
        (check_key to_lower seen user_id hostname port presented call) owned

  pub trust_seen-Inserted :
      (seen : List Entry)
      → Inserted rows written (trust_seen to_lower seen rows user_id hostname port presented call).0
  unfolding trust_seen
  trust_seen-Inserted seen =
      if-rule (λ (r : List Entry × Outcome HostKeyError Entry). Inserted rows written r.0)
        (is_empty user_id) (λ e. inl refl) (λ e. insert-owned seen e)
