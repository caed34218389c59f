-- ===== src/Sessions/Jump/Route.antt =====
-- jump.go: the route that a walk returns is the one that the chains mean.
use mathlib.Core.Path.{subst}
use secure_crt.Base.{
  ℕ, zero, suc, ◌≤◌, ◌≡◌, refl, sym, ap, ◌∙◌, inl, inr, Bool, true, false, ◌||◌, List, [], ◌∷◌,
  ◌++◌, append-nil, append_assoc, arith, Bool-cases, Bytes, bytes_eq, bytes_eq_refl, bytes_eq_sound,
  length,
}
use secure_crt.Base.Outcome.{Outcome, failed, returned, >>=-returned, failed-ne-returned}
use secure_crt.Sessions.Jump.{
  max_jump_chain, is_ssh, Hop, StoreError, not_found, database_failure, Store, Visited, visit,
  or_jump_error, only_ssh, bounded, Walk, arrive, own_chain, walk_hops, walk_chain,
}

-- Whether a host of the route has this id.
abbrev pub holds : Bytes → List Hop → Bool
holds j [] = false
holds j (r ∷ rs) = bytes_eq j r.id || holds j rs

abbrev pub Distinct : List Hop → Type 0
Distinct [] = Unit
Distinct (r ∷ rs) = (holds r.id rs ≡ false) × Distinct rs

pub holds-append : (j : Bytes) (xs ys : List Hop) → holds j (xs ++ ys) ≡ (holds j xs || holds j ys)
holds-append j [] ys = refl
holds-append j (x ∷ xs) ys = ground (arith, holds-append j xs ys)

pub Distinct-append :
    (xs ys : List Hop)
    → Distinct xs
    → Distinct ys
    → ((j : Bytes) → holds j xs ≡ true → holds j ys ≡ false)
    → Distinct (xs ++ ys)
Distinct-append [] ys d e apart = e
Distinct-append (x ∷ xs) ys (p, d) e apart = (
  holds-append x.id xs ys ∙ rw p (apart x.id (rw (bytes_eq_refl x.id))),
  Distinct-append xs ys d e (λ j h. apart j (ground arith)),
)

or_jump_error-returned :
    (o : Outcome StoreError Hop) {r : Hop} → or_jump_error o ≡ returned r → o ≡ returned r
or_jump_error-returned (returned r') h = cc
or_jump_error-returned (failed not_found) h = cc
or_jump_error-returned (failed database_failure) h = cc

only_ssh-returned :
    (r : Hop) {r' : Hop} → only_ssh r ≡ returned r' → (r ≡ r') × (is_ssh r.protocol ≡ true)
only_ssh-returned r h = grind arith

pub pair-returned :
    {xs ys : List Hop} {v w : Visited}
    → ◌≡◌ {A = Walk} (returned (xs, v)) (returned (ys, w))
    → (xs ≡ ys) × (v ≡ w)
pair-returned h = (cc, cc)

pub regroup :
    (route longer acc w : List Hop) (r : Hop) (rest : List Hop)
    → route ≡ longer ++ rest
    → longer ≡ acc ++ w ++ r ∷ []
    → route ≡ acc ++ (w ++ r ∷ rest)
regroup route longer acc w r rest h e = rw (h, e, append_assoc, append_assoc)

module _ (store : Store) where
  -- What a chain means: each host after the hosts of its own chain.
  pub data Expands : List Bytes → List Hop → Type 0 where
    here : Expands [] []
    through :
        {hop : Bytes} {hops : List Bytes} {r : Hop} {inner rest : List Hop}
        → store.resolve hop ≡ returned r
        → is_ssh r.protocol ≡ true
        → Expands r.jump_chain inner
        → Expands hops rest
        → Expands (hop ∷ hops) (inner ++ r ∷ rest)

  -- What a walk that succeeds has found and visited.
  pub record Traces (chain : List Bytes) (before after : Visited) (route : List Hop) : Type 0 where
    pub expands : Expands chain route
    pub distinct : Distinct route
    pub fresh : (j : Bytes) → holds j route ≡ true → before j ≡ false
    pub grown : (j : Bytes) → after j ≡ (before j || holds j route)

  arrive-returned :
      (visited : Visited) (hop : Bytes) {r : Hop}
      → arrive store visited hop ≡ returned r
      → (visited hop ≡ false) × (store.resolve hop ≡ returned r) × (is_ssh r.protocol ≡ true)
  unfolding arrive
  arrive-returned visited hop e = elim (Bool-cases (visited hop)) [
    | inl old ↦ absurd (failed-ne-returned (rw old at e))
    | inr new ↦
        let (r', p, q) = >>=-returned (or_jump_error (store.resolve hop)) only_ssh (rw new at e) in
        let (kept, ssh) = only_ssh-returned r' q in
        (
          new,
          or_jump_error-returned (store.resolve hop) p ∙ ap returned kept,
          subst (λ x. is_ssh x.protocol ≡ true) kept ssh,
        )
  ]

  bounded-returned :
      (route : List Hop) {longer : List Hop}
      → bounded route ≡ returned longer
      → (longer ≡ route) × (length route ≤ max_jump_chain)
  bounded-returned route e = grind arith

  -- One host, its own chain before it, and the hosts behind it.
  Traces-through :
      (hop : Bytes) (hops : List Bytes) (before after final : Visited) (r : Hop)
      (inner rest : List Hop)
      → before hop ≡ false
      → store.resolve hop ≡ returned r
      → is_ssh r.protocol ≡ true
      → Traces r.jump_chain (visit before hop) after inner
      → Traces hops after final rest
      → Traces (hop ∷ hops) before final (inner ++ r ∷ rest)
  Traces-through hop hops before after final r inner rest new e s f g =
      let named = store.id-resolve hop e in
      record {
        expands = through e s f.expands g.expands;
        distinct =
            Distinct-append inner (r ∷ rest) f.distinct
              (grind (arith, g.fresh r.id, f.grown r.id, bytes_eq_refl hop), g.distinct)
              (λ j h. grind (arith, f.fresh j h, g.fresh j, f.grown j));
        fresh = λ j h. elim (Bool-cases (bytes_eq j hop)) [
          | inl same ↦ rw (bytes_eq_sound j hop same) new
          | inr other ↦
              grind (arith, f.fresh j, g.fresh j, f.grown j, holds-append j inner (r ∷ rest))
        ];
        grown = λ j. grind (arith, f.grown j, g.grown j, holds-append j inner (r ∷ rest));
      }

  pub Traces-nil :
      (chain : List Bytes) (before after : Visited) (route : List Hop)
      → chain ≡ []
      → route ≡ []
      → after ≡ before
      → Traces chain before after route
  Traces-nil chain before after route c p q = record {
    expands = rw (c, p) here;
    distinct = rw p tt;
    fresh = λ j h. cc (rw p at h);
    grown = λ j. rw (p, q) (ground arith);
  }

  -- A run of the loop adds a route to what it was given, of at most eight hosts in all.
  record Walked (hops : List Bytes) (before after : Visited) (acc route : List Hop) : Type 0 where
    added : List Hop
    route_eq : route ≡ acc ++ added
    trace : Traces hops before after added
    short : length acc ≤ max_jump_chain → length route ≤ max_jump_chain

  module _ (inner : List Bytes → Visited → Walk)
      (sound : (chain : List Bytes) (before : Visited) (route : List Hop) (after : Visited)
        → inner chain before ≡ returned (route, after)
        → Traces chain before after route) where
    pub own_chain-Traces :
        (r : Hop) (before : Visited) {route : List Hop} {after : Visited}
        → own_chain store inner r before ≡ returned (route, after)
        → Traces r.jump_chain before after route
    own_chain-Traces r before {route} {after} h = own_chain-cases r.jump_chain refl
      where
        own_chain-cases :
            (chain : List Bytes) → r.jump_chain ≡ chain → Traces r.jump_chain before after route
        own_chain-cases [] e =
            let (same, kept) = pair-returned (rw e at h) in
            Traces-nil r.jump_chain before after route e (sym same) (sym kept)
        own_chain-cases (hop ∷ hops) e = rw e (sound (hop ∷ hops) before route after (rw e at h))

    walk_hops-Walked :
        (hops : List Bytes) (before : Visited) (acc : List Hop) {route : List Hop} {after : Visited}
        → walk_hops store inner hops before acc ≡ returned (route, after)
        → Walked hops before after acc route
    unfolding walk_hops
    walk_hops-Walked [] before acc h =
        let (same, kept) = pair-returned h in
        record {
          added = [];
          route_eq = sym same ∙ sym (append-nil acc);
          trace = Traces-nil [] before _ [] refl refl (sym kept);
          short = λ s. rw (← same) s;
        }
    walk_hops-Walked (hop ∷ hops) before acc h =
        let (r, p, h') = >>=-returned (arrive store before hop) _ h in
        let (new, e, s) = arrive-returned before hop p in
        let (walked, q, h'') = >>=-returned (own_chain store inner r (visit before hop)) _ h' in
        let own = own_chain-Traces r (visit before hop) q in
        let (longer, b, last_one) = >>=-returned (bounded (acc ++ walked.0 ++ r ∷ [])) _ h'' in
        let (same, fits) = bounded-returned (acc ++ walked.0 ++ r ∷ []) b in
        let rest = walk_hops-Walked hops walked.1 longer last_one in
        record {
          added = walked.0 ++ r ∷ rest.added;
          route_eq = regroup _ longer acc walked.0 r rest.added rest.route_eq same;
          trace =
              Traces-through hop hops before walked.1 _ r walked.0 rest.added new e s own
                rest.trace;
          short = λ _. rest.short (rw same fits);
        }

  pub walk_chain-Traces :
      (left : ℕ) (chain : List Bytes) (before : Visited) (route : List Hop) (after : Visited)
      → walk_chain store left chain before ≡ returned (route, after)
      → Traces chain before after route × (length route ≤ max_jump_chain)
  unfolding walk_chain
  walk_chain-Traces zero chain before route after h = absurd (failed-ne-returned h)
  walk_chain-Traces (suc left) chain before route after h =
      let w =
        walk_hops-Walked (walk_chain store left) (λ c b r a e. (walk_chain-Traces left c b r a e).0)
          chain before [] h in
      (subst (Traces chain before after) (sym w.route_eq) w.trace, w.short (omega arith))
