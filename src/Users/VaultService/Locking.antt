-- ===== src/Users/VaultService/Locking.antt =====
-- internal/users/vaultsvc.go: locking an account forgets the keys of its own sessions and of no other's.
use mathlib.Core.Path.{subst}
use secure_crt.Base.{
  ℕ, ◌≡◌, ◌≢◌, refl, ap, ◌∙◌, Bool, true, false, Option, none, some, List, [], ltb, ◌∷◌, Bytes,
  bytes_eq, bytes_eq_sound, All, Bool-cases, if-rule, if◌then◌else◌, arith, inl, inr,
}
use secure_crt.Base.Outcome.{failed}
use secure_crt.Base.Text.{has_prefix}
use secure_crt.Vault.Cache.{Cache, Entry, lookup, sweep, sweep_all, forget_func, get, got}
use secure_crt.Users.VaultService.{
  State, vault_cache_key, vault_cache_key_is_owned_by, lock_all_for_user, key, key_at, vault_locked,
}

-- What the identifiers of accounts are: they are UUIDs.
abbrev pub NoNul : Bytes → Type 0
NoNul id = All (λ b. b ≢ 0) id

owned_by_lem :
    (user_id other session_id : Bytes)
    → NoNul user_id
    → NoNul other
    → vault_cache_key_is_owned_by (vault_cache_key other session_id) user_id
      ≡ bytes_eq user_id other
unfolding has_prefix bytes_eq
owned_by_lem [] [] session_id _ _ = refl
owned_by_lem [] (y ∷ other) session_id _ (hy, _) = ground (arith, hy)
owned_by_lem (x ∷ user_id) [] session_id (hx, _) _ = ground (arith, hx)
owned_by_lem (x ∷ user_id) (y ∷ other) session_id (_, h) (_, k) =
    ground (arith, owned_by_lem user_id other session_id h k)

lookup-sweep :
    (pred : Bytes → Bool) (id : Bytes) (entries : List (Bytes × Entry))
    → lookup id (sweep (λ j e. pred j) entries).0 ≡ (if pred id then none else lookup id entries)
unfolding lookup sweep
lookup-sweep pred id [] = if-rule (λ (r : Option Entry). none ≡ r) (pred id) (λ e. refl) (λ e. refl)
lookup-sweep pred id ((j, e) ∷ entries) =
    let rest = lookup-sweep pred id entries in
    let follow : (b : Bool) → bytes_eq j id ≡ true → pred j ≡ b → pred id ≡ b =
      λ b same p. subst (λ (k : Bytes). pred k ≡ b) (bytes_eq_sound j id same) p in
    elim (Bool-cases (pred j)) [
      | inl p ↦ elim (Bool-cases (bytes_eq j id)) [
        | inl same ↦ rw (p, follow true same p) (rw (follow true same p) at rest)
        | inr other ↦ rw (p, other) rest
      ]
      | inr p ↦ elim (Bool-cases (bytes_eq j id)) [
        | inl same ↦ rw (p, same, follow false same p) refl
        | inr other ↦ rw (p, other) rest
      ]
    ]

-- What `Get` answers is read off the entry.
got_lem :
    (c d : Cache) (id : Bytes) (now : ℕ) (e : Option Entry)
    → (got c id now e).1 ≡ (got d id now e).1
got_lem c d id now none = refl
got_lem c d id now (some e) = elim (Bool-cases (ltb e.expires_at now)) [
  | inl late ↦ rw late refl
  | inr early ↦ rw early refl
]

module _ (st : State) (user_id session_id : Bytes) (now : ℕ) where
  -- After `LockAllForUser` the sessions of the account are locked, and what any other account's session is
  -- answered is what it was; the identifiers of accounts hold no NUL.
  pub lock_all_for_user_lem :
      (other : Bytes)
      → NoNul user_id
      → NoNul other
      → (key (lock_all_for_user st user_id).0 other session_id now).1
        ≡ (if bytes_eq user_id other then failed vault_locked else (key st other session_id now).1)
  unfolding key lock_all_for_user forget_func sweep_all get
  lock_all_for_user_lem other h k =
      let id = vault_cache_key other session_id in
      let found = lookup-sweep (λ j. vault_cache_key_is_owned_by j user_id) id st.cache.entries in
      let found = rw (owned_by_lem user_id other session_id h k) at found in
      let after = (lock_all_for_user st user_id).0.cache in
      ap (λ e. key_at st.keys (got after id now e).1) found
      ∙ if-rule
          (λ (e : Option Entry). key_at st.keys (got after id now e).1 ≡ (
            if bytes_eq user_id other
            then failed vault_locked
            else (key st other session_id now).1))
          (bytes_eq user_id other) (λ e. rw e refl)
          (λ e.
            rw e (ap (key_at st.keys) (got_lem after st.cache id now (lookup id st.cache.entries))))
