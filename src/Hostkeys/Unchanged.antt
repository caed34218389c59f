-- ===== src/Hostkeys/Unchanged.antt =====
-- internal/hostkeys/hostkeys.go: what accepting keys changes of a verdict, and what it cannot change.

use secure_crt.Base.{
  ◌≡◌, ◌≢◌, inl, inr, refl, sym, ap, ◌∙◌, Bool, true, false, ◌&&◌, Option, none, some, List, [],
  ◌∷◌, if◌then◌else◌, if-rule, Bool-cases, Bytes, bytes_eq, bytes_eq_ne, All, arith,
}
use secure_crt.Base.Int.{ℤ, int_eq}
use secure_crt.Base.Outcome.{Outcome, failed, returned, ◌>>=◌, returned-injective}
use secure_crt.Sessions.Rules.{is_empty}
use secure_crt.Hostkeys.Insertion.{Inserted, insert-owned, trust_seen-Inserted, written}
use secure_crt.Hostkeys.Unique.{is_for_same}
use secure_crt.Hostkeys.{
  Entry, Presented, Call, Check, verdict_unknown, HostKeyError, database_failed, normalize_host,
  is_for, select, lookup, if_found, or_not_found, org_first, verify, trust_seen,
}

-- What `Verify` makes of the entries that it finds.
answer : Bool → Bool → Presented → Option Entry → Option Entry → Outcome HostKeyError Check
answer reading_fails reading_own_fails presented org own =
    if_found (if reading_fails then failed database_failed else or_not_found org) >>= λ org.
    org_first presented org
      (if_found (if reading_own_fails then failed database_failed else or_not_found own))

some-ne-none : {e : Entry} → some e ≢ none
some-ne-none h = cc

Inserted-select :
    (user_id host : Bytes) (port : ℤ) (key_type : Bytes) (rows : List Entry) (new : Entry)
    (after : List Entry) (e : Entry)
    → Inserted rows new after
    → select (is_for user_id host port key_type) rows ≡ some e
    → select (is_for user_id host port key_type) after ≡ some e
unfolding select
Inserted-select user_id host port key_type rows new after e (inl same) h = rw same h
Inserted-select user_id host port key_type rows new after e (inr (longer, free)) h =
    elim (Bool-cases (is_for user_id host port key_type new)) [
      | inl t ↦
          absurd (some-ne-none (sym h ∙ rw (is_for_same user_id host port key_type new t) free))
      | inr t ↦ rw (longer, t) h
    ]

Inserted-other :
    (test : Entry → Bool) (rows : List Entry) (new : Entry) (after : List Entry)
    → test new ≡ false
    → Inserted rows new after
    → select test after ≡ select test rows
unfolding select
Inserted-other test rows new after t (inl same) = ap (select test) same
Inserted-other test rows new after t (inr (longer, free)) = rw (longer, t) refl

owner_not_null : (id : Bytes) → is_empty id ≡ false → bytes_eq id [] ≡ false
unfolding bytes_eq
owner_not_null [] e = cc
owner_not_null (x ∷ id) e = refl

-- A verdict other than `unknown` rests on an entry, which decides it.
answer-kept :
    (reading_fails reading_own_fails : Bool) (presented : Presented) (org own after : Option Entry)
    {c : Check}
    → answer reading_fails reading_own_fails presented org own ≡ returned c
    → c.verdict ≢ verdict_unknown
    → ((e : Entry) → own ≡ some e → after ≡ some e)
    → answer reading_fails reading_own_fails presented org after ≡ returned c
unfolding answer
answer-kept true own_fails presented org own after h known kept = h
answer-kept false own_fails presented (some o) own after h known kept = h
answer-kept false true presented none own after h known kept = h
answer-kept false false presented none none after h known kept =
    absurd (known (sym (ap (λ c. c.verdict) (returned-injective h))))
answer-kept false false presented none (some e) after h known kept = rw (kept e refl) h

none_of_type :
    (user_id host : Bytes) (port : ℤ) (key_type : Bytes) (rows : List Entry)
    → All (λ e. e.key_type ≢ key_type) rows
    → select (is_for user_id host port key_type) rows ≡ none
unfolding select
none_of_type user_id host port key_type [] _ = refl
none_of_type user_id host port key_type (e ∷ rows) (h, hs) =
    rw
      (not_for (bytes_eq e.user_id user_id) (bytes_eq e.hostname host) (int_eq e.port port)
        (bytes_eq_ne e.key_type key_type h))
      (none_of_type user_id host port key_type rows hs)
  where
    not_for : (a b c : Bool) {d : Bool} → d ≡ false → (a && (b && (c && d))) ≡ false
    not_for a b c h = ground (arith, h)

-- An account's accept of a key: the arguments of `Trust`, and the table that its query saw.
pub record Accept : Type 0 where
  pub looked_in : List Entry
  pub user_id : Bytes
  pub hostname : Bytes
  pub port : ℤ
  pub presented : Presented
  pub call : Call

module _ (to_lower : Bytes → Bytes) where
  abbrev pub after_accept : List Entry → Accept → List Entry
  after_accept rows a =
      (trust_seen to_lower a.looked_in rows a.user_id a.hostname a.port a.presented a.call).0

  abbrev pub after_accepts : List Entry → List Accept → List Entry
  after_accepts rows [] = rows
  after_accepts rows (a ∷ accepts) = after_accepts (after_accept rows a) accepts

  accept-org :
      (host : Bytes) (port : ℤ) (key_type : Bytes) (rows : List Entry) (a : Accept)
      → select (is_for [] host port key_type) (after_accept rows a)
        ≡ select (is_for [] host port key_type) rows
  unfolding trust_seen
  accept-org host port key_type rows a =
      if-rule
        (λ (r : List Entry × Outcome HostKeyError Entry).
          select (is_for [] host port key_type) r.0 ≡ select (is_for [] host port key_type) rows)
        (is_empty a.user_id) (λ e. refl)
        (λ e.
          Inserted-other (is_for [] host port key_type) rows
            (written to_lower rows a.user_id a.hostname a.port a.presented a.call) _
            (rw (owner_not_null a.user_id e) refl)
            (insert-owned to_lower rows a.user_id a.hostname a.port a.presented a.call a.looked_in
              e))

  accept-own :
      (user_id host : Bytes) (port : ℤ) (key_type : Bytes) (rows : List Entry) (a : Accept)
      (e : Entry)
      → select (is_for user_id host port key_type) rows ≡ some e
      → select (is_for user_id host port key_type) (after_accept rows a) ≡ some e
  unfolding trust_seen
  accept-own user_id host port key_type rows a e h =
      Inserted-select user_id host port key_type rows
        (written to_lower rows a.user_id a.hostname a.port a.presented a.call) (after_accept rows a)
        e
        (trust_seen-Inserted to_lower rows a.user_id a.hostname a.port a.presented a.call
          a.looked_in)
        h

  accepts-org :
      (host : Bytes) (port : ℤ) (key_type : Bytes) (rows : List Entry) (accepts : List Accept)
      → select (is_for [] host port key_type) (after_accepts rows accepts)
        ≡ select (is_for [] host port key_type) rows
  accepts-org host port key_type rows [] = refl
  accepts-org host port key_type rows (a ∷ accepts) =
      accepts-org host port key_type (after_accept rows a) accepts
      ∙ accept-org host port key_type rows a

  accepts-own :
      (user_id host : Bytes) (port : ℤ) (key_type : Bytes) (rows : List Entry)
      (accepts : List Accept) (e : Entry)
      → select (is_for user_id host port key_type) rows ≡ some e
      → select (is_for user_id host port key_type) (after_accepts rows accepts) ≡ some e
  accepts-own user_id host port key_type rows [] e h = h
  accepts-own user_id host port key_type rows (a ∷ accepts) e h =
      accepts-own user_id host port key_type (after_accept rows a) accepts e
        (accept-own user_id host port key_type rows a e h)

  -- No accepts of keys, by any accounts and for any hosts, whatever comes between their queries and their INSERTs
  -- (`looked_in` is any table), change a verdict of `Verify` other than `unknown`:
  -- a key that is refused as changed stays refused, with the same entry beside it.
  pub accepts-verify :
      (rows : List Entry) (accepts : List Accept) (user_id hostname : Bytes) (port : ℤ)
      (presented : Presented) (call : Call) (c : Check)
      → verify to_lower rows user_id hostname port presented call ≡ returned c
      → c.verdict ≢ verdict_unknown
      → verify to_lower (after_accepts rows accepts) user_id hostname port presented call
        ≡ returned c
  unfolding verify lookup answer
  accepts-verify rows accepts user_id hostname port presented call c h known =
      let host = normalize_host to_lower hostname in
      let before_org = select (is_for [] host port presented.key_type) rows in
      let before_own = select (is_for user_id host port presented.key_type) rows in
      let after_own =
        select (is_for user_id host port presented.key_type) (after_accepts rows accepts) in
      rw (accepts-org host port presented.key_type rows accepts) (
        answer-kept call.reading_fails call.reading_own_fails presented before_org before_own
          after_own h known
          (λ e found. accepts-own user_id host port presented.key_type rows accepts e found))

  -- Where no row has the presented key's type, the verdict is `unknown`, whatever other keys of the host are on record.
  pub other_type-unknown :
      (rows : List Entry) (user_id hostname : Bytes) (port : ℤ) (presented : Presented)
      (call : Call)
      → call.reading_fails ≡ false
      → call.reading_own_fails ≡ false
      → All (λ e. e.key_type ≢ presented.key_type) rows
      → verify to_lower rows user_id hostname port presented call
        ≡ returned (record { verdict = verdict_unknown; presented = presented; existing = none })
  unfolding verify lookup
  other_type-unknown rows user_id hostname port presented call h k others =
      let host = normalize_host to_lower hostname in
      rw
        (
          h,
          k,
          none_of_type [] host port presented.key_type rows others,
          none_of_type user_id host port presented.key_type rows others,
        )
        refl
