-- ===== src/Sessions/Jump/Arrival.antt =====
-- jump.go: a route that is short and does not meet itself is found, and nothing else is.

use secure_crt.Base.{
  ℕ, zero, suc, ◌+◌, ◌≤◌, ◌<◌, ◌≡◌, ◌≢◌, refl, sym, ap, ◌∙◌, inl, inr, true, false, ◌||◌, List, [],
  ◌∷◌, ◌++◌, append-nil, append_assoc, arith, Bool-cases, Bytes, bytes_eq, bytes_eq_refl,
  bytes_eq_sound, length, length-append,
}
use secure_crt.Base.Outcome.{returned}
use secure_crt.Sessions.Jump.{
  max_jump_chain, is_ssh, Hop, Store, Visited, visit, bounded, Walk, arrive, own_chain, walk_hops,
  walk_chain,
}
use secure_crt.Sessions.Jump.Route.{
  holds, holds-append, Distinct, Expands, here, through, own_chain-Traces, walk_chain-Traces,
}

Distinct-split :
    (xs ys : List Hop)
    → Distinct (xs ++ ys)
    → Distinct xs × Distinct ys × ((j : Bytes) → holds j xs ≡ true → holds j ys ≡ false)
Distinct-split [] ys d = (tt, d, λ j h. cc)
Distinct-split (x ∷ xs) ys (p, d) =
    let (a, b, apart) = Distinct-split xs ys d in
    let split = holds-append x.id xs ys in
    (
      (grind arith, a),
      b,
      λ j h. elim (Bool-cases (bytes_eq j x.id)) [
        | inl same ↦ rw (bytes_eq_sound j x.id same) (grind arith)
        | inr other ↦ apart j (grind arith)
      ],
    )

true-ne-false : true ≢ false
true-ne-false h = cc

module _ (store : Store) where
  arrive-lem :
      (before : Visited) (hop : Bytes) (r : Hop)
      → before hop ≡ false
      → store.resolve hop ≡ returned r
      → is_ssh r.protocol ≡ true
      → arrive store before hop ≡ returned r
  unfolding arrive
  arrive-lem before hop r n e s = simp (n, e, s)

  pub Expands-nil :
      (chain : List Bytes) (route : List Hop) → chain ≡ [] → Expands store chain route → route ≡ []
  Expands-nil [] _ h here = refl
  Expands-nil (hop ∷ hops) _ h (through e s f g) = cc

  own_chain-lem :
      (walk : List Bytes → Visited → Walk) (before : Visited) (r : Hop) (route : List Hop)
      → Expands store r.jump_chain route
      → ((after : Visited) × (walk r.jump_chain before ≡ returned (route, after)))
      → (after : Visited) × (own_chain store walk r before ≡ returned (route, after))
  own_chain-lem walk before r route x w = by_chain r.jump_chain refl
    where
      by_chain :
          (chain : List Bytes)
          → r.jump_chain ≡ chain
          → (after : Visited) × (own_chain store walk r before ≡ returned (route, after))
      by_chain [] e = (before, rw (e, Expands-nil r.jump_chain route e x) refl)
      by_chain (hop ∷ hops) e = (w.0, rw e (rw e at w.1))

  bounded-lem : (route : List Hop) → length route ≤ max_jump_chain → bounded route ≡ returned route
  bounded-lem route h = grind arith

  -- A route that may be taken from here: it does not meet itself, nor what has been visited.
  pub record IsOpen (before : Visited) (route : List Hop) : Type 0 where
    pub distinct : Distinct route
    pub fresh : (j : Bytes) → holds j route ≡ true → before j ≡ false

  IsOpen-first :
      (hop : Bytes) (before : Visited) (r : Hop) (inner rest : List Hop)
      → r.id ≡ hop
      → IsOpen before (inner ++ r ∷ rest)
      → (before hop ≡ false) × IsOpen (visit before hop) inner
  IsOpen-first hop before r inner rest named o =
      let (di, dr, apart) = Distinct-split inner (r ∷ rest) o.distinct in
      (
        o.fresh hop (holds-append hop inner (r ∷ rest) ∙ grind (arith, bytes_eq_refl hop)),
        record {
          distinct = di;
          fresh = λ j h. grind (arith, apart j, o.fresh j, holds-append j inner (r ∷ rest));
        },
      )

  IsOpen-behind :
      (hop : Bytes) (before after : Visited) (r : Hop) (inner rest : List Hop)
      → r.id ≡ hop
      → IsOpen before (inner ++ r ∷ rest)
      → ((j : Bytes) → after j ≡ (visit before hop j || holds j inner))
      → IsOpen after rest
  IsOpen-behind hop before after r inner rest named o grown =
      let (di, dr, apart) = Distinct-split inner (r ∷ rest) o.distinct in
      record {
        distinct = dr.1;
        fresh = λ j h. elim (Bool-cases (bytes_eq j hop)) [
          | inl same ↦
              let at : j ≡ r.id = bytes_eq_sound j hop same ∙ sym named in
              absurd (true-ne-false (sym h ∙ ap (λ i. holds i rest) at ∙ dr.0))
          | inr other ↦ grind (arith, grown j, apart j, o.fresh j, holds-append j inner (r ∷ rest))
        ];
      }

  module _ (left : ℕ)
      (arrives : (chain : List Bytes) (before : Visited) (route : List Hop)
        → Expands store chain route
        → IsOpen before route
        → length route ≤ max_jump_chain
        → length route < left
        → (after : Visited) × (walk_chain store left chain before ≡ returned (route, after))) where
    walk_hops-lem :
        (hops : List Bytes) (before : Visited) (acc route : List Hop)
        → Expands store hops route
        → IsOpen before route
        → length acc + length route ≤ max_jump_chain
        → length route ≤ left
        → (after : Visited) × (walk_hops store (walk_chain store left) hops before acc
            ≡ returned (acc ++ route, after))
    unfolding walk_hops
    walk_hops-lem [] before acc _ here o s l = (before, rw append-nil refl)
    walk_hops-lem (hop ∷ hops) before acc _
          (through {r = r} {inner = inner} {rest = rest} e ssh f g) o s l =
        let r_first = IsOpen-first hop before r inner rest (store.id-resolve hop e) o in
        let long : length (inner ++ r ∷ rest) ≡ length inner + suc (length rest) =
          length-append inner (r ∷ rest) in
        let (after, w) = own_chain-lem (walk_chain store left) (visit before hop) r inner f (
          arrives r.jump_chain (visit before hop) inner f r_first.1 (omega (arith, long))
            (omega (arith, long))) in
        let found =
          own_chain-Traces store (walk_chain store left)
            (λ c b t a x. (walk_chain-Traces store left c b t a x).0) r (visit before hop) w in
        let behind =
          IsOpen-behind hop before after r inner rest (store.id-resolve hop e) o found.grown in
        let longer = acc ++ inner ++ r ∷ [] in
        let size : length longer ≡ length acc + suc (length inner) =
          omega (arith, length-append acc inner, length-append (acc ++ inner) (r ∷ [])) in
        let (final, z) =
          walk_hops-lem hops after longer rest g behind (omega (arith, size, long))
            (omega (arith, long)) in
        (
          final,
          rw
              (
                arrive-lem before hop r r_first.0 e ssh,
                w,
                bounded-lem longer (omega (arith, size, long)),
                z,
                append_assoc,
                append_assoc,
              )
              refl,
        )

  pub walk_chain-lem :
      (left : ℕ) (chain : List Bytes) (before : Visited) (route : List Hop)
      → Expands store chain route
      → IsOpen before route
      → length route ≤ max_jump_chain
      → length route < left
      → (after : Visited) × (walk_chain store left chain before ≡ returned (route, after))
  unfolding walk_chain
  walk_chain-lem zero chain before route x o s l = absurd (omega arith)
  walk_chain-lem (suc left) chain before route x o s l =
      walk_hops-lem left (walk_chain-lem left) chain before [] route x o (omega arith) (omega arith)
