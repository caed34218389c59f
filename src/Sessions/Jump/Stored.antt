-- ===== src/Sessions/Jump/Stored.antt =====
-- jump.go: what `ExpandJumpChain` returns, and what `ValidateJumpChain` lets into the store.
use mathlib.Core.Path.{subst}
use secure_crt.Base.{
  ℕ, ◌≤◌, ◌≡◌, ◌≢◌, ◌↔◌, refl, sym, ap, ◌∙◌, inl, inr, true, false, List, [], ◌∷◌, arith, ltb,
  if◌then◌else◌, Bool-cases, Bytes, bytes_eq, bytes_eq_refl, bytes_eq_sound, length,
}
use secure_crt.Base.Outcome.{Outcome, returned, ◌>>=◌, >>=-returned, failed-ne-returned}
use secure_crt.Sessions.Jump.{
  max_jump_chain, Hop, JumpError, Store, visit, is_none, walk_chain, nothing_visited, from_session,
  check_hops, expand_jump_chain, validate_jump_chain, levels,
}
use secure_crt.Sessions.Jump.Route.{
  holds, holds-append, Distinct, Expands, here, through, walk_chain-Traces,
}
use secure_crt.Sessions.Jump.Arrival.{walk_chain-lem, Expands-nil}

-- The rest of `ExpandJumpChain`, once the connection has been found.
expand_found : (store : Store) → Bytes → List Bytes → Outcome JumpError (List Hop)
expand_found store session_id chain =
    if is_none chain
    then returned []
    else (walk_chain store levels chain (visit nothing_visited session_id) >>= λ walked.
        returned walked.0)

expand-found :
    (store : Store) (session_id : Bytes) {s : Hop}
    → store.get_session session_id ≡ returned s
    → expand_jump_chain store session_id ≡ expand_found store session_id s.jump_chain
unfolding expand_jump_chain expand_found
expand-found store session_id e = rw e refl

module _ (store : Store) (session_id : Bytes) where
  -- The route of a chain, of hosts that are all different, are not the connection, and are at most
  -- eight.
  abbrev pub IsRoute : List Bytes → List Hop → Type 0
  IsRoute chain route =
      Expands store chain route
      × Distinct route
      × (holds session_id route ≡ false)
      × (length route ≤ max_jump_chain)

  not_itself :
      (route : List Hop)
      → ((j : Bytes) → holds j route ≡ true → visit nothing_visited session_id j ≡ false)
      → holds session_id route ≡ false
  not_itself route f = grind (arith, f session_id, bytes_eq_refl session_id)

  itself_not :
      (route : List Hop)
      → holds session_id route ≡ false
      → (j : Bytes) → holds j route ≡ true
      → visit nothing_visited session_id j ≡ false
  itself_not route n j h = elim (Bool-cases (bytes_eq j session_id)) [
    | inl same ↦ absurd (
        false-ne-true
          (sym n ∙ ap (λ i. holds i route) (sym (bytes_eq_sound j session_id same)) ∙ h))
    | inr other ↦ rw other
  ]
    where
      false-ne-true : false ≢ true
      false-ne-true e = cc

  expand_found-IsRoute :
      (chain : List Bytes) (route : List Hop)
      → expand_found store session_id chain ≡ returned route
      → IsRoute chain route
  unfolding expand_found
  expand_found-IsRoute [] route h =
      let e : [] ≡ route = cc in rw (← e) (here, tt, refl, omega arith)
  expand_found-IsRoute (hop ∷ hops) route h =
      let (walked, p, q) =
        >>=-returned (walk_chain store levels (hop ∷ hops) (visit nothing_visited session_id)) _
          h in
      let (f, l) = walk_chain-Traces store levels (hop ∷ hops) _ walked.0 walked.1 p in
      let e : walked.0 ≡ route = cc in
      subst (IsRoute (hop ∷ hops)) e (f.expands, f.distinct, not_itself walked.0 f.fresh, l)

  IsRoute-expand_found :
      (chain : List Bytes) (route : List Hop)
      → IsRoute chain route
      → expand_found store session_id chain ≡ returned route
  unfolding expand_found
  IsRoute-expand_found [] route (x, d, n, l) = ap returned (sym (Expands-nil store [] route refl x))
  IsRoute-expand_found (hop ∷ hops) route (x, d, n, l) =
      let (after, w) =
        walk_chain-lem store levels (hop ∷ hops) (visit nothing_visited session_id) route x
          (record { distinct = d; fresh = itself_not route n }) l (omega arith) in
      rw w refl

-- `ExpandJumpChain` of a connection that is there returns a route exactly when that route is the
-- one that the chains mean (each host after the hosts of its own chain, all of them SSH and in the
-- store), its hosts are all different and are not the connection itself, and they are at most eight.
pub expand_jump_chain_lem :
    (store : Store) (session_id : Bytes) (s : Hop) (route : List Hop)
    → store.get_session session_id ≡ returned s
    → (expand_jump_chain store session_id ≡ returned route)
      ↔ IsRoute store session_id s.jump_chain route
expand_jump_chain_lem store session_id s route e =
    let same = expand-found store session_id e in
    (
      (λ h. expand_found-IsRoute store session_id s.jump_chain route (sym same ∙ h)),
      (λ r. same ∙ IsRoute-expand_found store session_id s.jump_chain route r),
    )

-- The same route is meant in a store that differs in a connection that is not on it.
Expands-other :
    (store other : Store) (session_id : Bytes) {chain : List Bytes} {route : List Hop}
    → ((hop : Bytes) → hop ≢ session_id → other.resolve hop ≡ store.resolve hop)
    → Expands store chain route
    → holds session_id route ≡ false
    → Expands other chain route
Expands-other store other session_id agree here n = here
Expands-other store other session_id agree
      (through {hop = hop} {r = r} {inner = inner} {rest = rest} e ssh f g) n =
    let split = holds-append session_id inner (r ∷ rest) in
    let apart : hop ≢ session_id =
      λ same. grind (arith, bytes_eq_refl session_id, store.id-resolve hop e) in
    through (agree hop apart ∙ e) ssh (Expands-other store other session_id agree f (grind arith))
      (Expands-other store other session_id agree g (grind arith))

validated :
    (store : Store) (c : ℕ) (id : Bytes) (chain : List Bytes)
    → validate_jump_chain store (c ∷ id) chain ≡ returned tt
    → (route : List Hop) × IsRoute store (c ∷ id) chain route
unfolding validate_jump_chain
validated store c id [] v = ([], (here, tt, refl, omega arith))
validated store c id (hop ∷ hops) v = elim (Bool-cases (ltb max_jump_chain (length (hop ∷ hops)))) [
  | inl long ↦ absurd (failed-ne-returned (rw long at v))
  | inr fits ↦
      let (u, p, q) =
        >>=-returned (check_hops store (c ∷ id) nothing_visited (hop ∷ hops)) _ (rw fits at v) in
      let (walked, w, z) =
        >>=-returned (walk_chain store levels (hop ∷ hops) (from_session (c ∷ id))) _ q in
      let (f, l) = walk_chain-Traces store levels (hop ∷ hops) _ walked.0 walked.1 w in
      (walked.0, (f.expands, f.distinct, not_itself store (c ∷ id) walked.0 f.fresh, l))
]

-- A chain that `ValidateJumpChain` lets through for a connection expands once it is stored: in any
-- store that has the connection with that chain, and finds every other connection as before.
pub validate_jump_chain-expand :
    (store other : Store) (c : ℕ) (id : Bytes) (s : Hop)
    → validate_jump_chain store (c ∷ id) s.jump_chain ≡ returned tt
    → other.get_session (c ∷ id) ≡ returned s
    → ((hop : Bytes) → hop ≢ c ∷ id → other.resolve hop ≡ store.resolve hop)
    → (route : List Hop) × (expand_jump_chain other (c ∷ id) ≡ returned route)
validate_jump_chain-expand store other c id s v e agree =
    let (route, is_route) = validated store c id s.jump_chain v in
    let (x, d, n, l) = is_route in
    let y = Expands-other store other (c ∷ id) agree x n in
    (route, (expand_jump_chain_lem other (c ∷ id) s route e).1 (y, d, n, l))
