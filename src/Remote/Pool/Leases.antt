-- ===== src/Remote/Pool/Leases.antt =====
-- pool.go: what the callers of an open pool may rely on, in every interleaving.
use secure_crt.Base.{
  ℕ, ◌⊎◌, ◌<◌, ◌≡◌, ◌≢◌, sym, ap, ◌∙◌, inl, inr, true, false, some, arith, Bool-cases,
}
use secure_crt.Remote.Pool.{Key, Entry, lookup}
use secure_crt.Remote.Pool.System.{Users, System, Reach}
use secure_crt.Remote.Pool.Counts.{one_if, closes, gives, Fine}
use secure_crt.Remote.Pool.Steps.{Reach-IsValid}
use secure_crt.Remote.Pool.Valid.{made}

leased_lem :
    (e : Entry) (u : Users) (c g : ℕ)
    → 0 < u.leased
    → Fine e u c g
    → (e.ready ≡ true) × (e.has_client ≡ true) × (c ≡ 0) × (g ≡ 0)
leased_lem e u c g h f = grind arith

idle_lem :
    (e : Entry) (u : Users) (c g : ℕ)
    → u.dialling ≡ 0
    → u.waiting ≡ 0
    → u.leased ≡ 0
    → Fine e u c g
    → (e.ready ≡ true) × (c ≡ one_if e.has_client) × (g ≡ one_if e.has_release) × (e.evicted ≡ true)
idle_lem e u c g a b d f = grind arith

waiting_lem : (e : Entry) (u : Users) (c g : ℕ) → Fine e u c g → (e.ready ≡ true) ⊎ (0 < u.dialling)
waiting_lem e u c g f = elim (Bool-cases e.ready) [
  | inl r ↦ inl r
  | inr n ↦ inr (omega (arith, (f.unready n).0))
]

dialling_lem : (e : Entry) (u : Users) (c g : ℕ) → 0 < u.dialling → Fine e u c g → e.evicted ≡ false
dialling_lem e u c g h f = grind arith

-- While a caller holds a lease on a connection that it has not released, and the pool has not been
-- closed, the connection has been dialled with success, and the pool has neither closed it nor given
-- back what it was reached through; and this after any interleaving of any callers.
pub leased-open :
    (s : System) (i : ℕ)
    → Reach s
    → s.pool.closed ≡ false
    → 0 < (s.users i).leased
    → ((s.pool.entries i).ready ≡ true)
      × ((s.pool.entries i).has_client ≡ true)
      × (closes i s.pool.effects ≡ 0)
      × (gives i s.pool.effects ≡ 0)
leased-open s i r o h =
    let v = Reach-IsValid r o in
    leased_lem (s.pool.entries i) (s.users i) _ _ h (v.fine i (made s i v (omega arith)))

-- In an open pool, an entry that has been made, and that nobody dials, waits for or holds a lease on,
-- has let go of everything: its client, if it ever had one, has been closed exactly once, what its
-- dial had borrowed has been given back exactly once, and no key leads to it.
pub idle-closed :
    (s : System) (i : ℕ)
    → Reach s
    → s.pool.closed ≡ false
    → i < s.pool.next
    → (s.users i).dialling ≡ 0
    → (s.users i).waiting ≡ 0
    → (s.users i).leased ≡ 0
    → (closes i s.pool.effects ≡ one_if (s.pool.entries i).has_client)
      × (gives i s.pool.effects ≡ one_if (s.pool.entries i).has_release)
      × ((k : Key) → lookup k s.pool.conns ≢ some i)
idle-closed s i r o l a b c =
    let v = Reach-IsValid r o in
    let (ready, closed, given, out) =
      idle_lem (s.pool.entries i) (s.users i) _ _ a b c (v.fine i l) in
    (closed, given, λ k h. true-ne-false (sym out ∙ (v.maps.known k i h).1))
  where
    true-ne-false : true ≢ false
    true-ne-false h = cc

same_entry : {i j : ℕ} → some i ≡ some j → i ≡ j
same_entry h = cc

-- In an open pool, two dials that are in flight for the same key are the same dial.
pub dialling_unique :
    (s : System) (i j : ℕ)
    → Reach s
    → s.pool.closed ≡ false
    → 0 < (s.users i).dialling
    → 0 < (s.users j).dialling
    → (s.pool.entries i).key ≡ (s.pool.entries j).key
    → i ≡ j
dialling_unique s i j r o h k e =
    let v = Reach-IsValid r o in
    let l = made s i v (omega arith) in
    let m = made s j v (omega arith) in
    let found_i = v.maps.mapped i l (dialling_lem _ (s.users i) _ _ h (v.fine i l)) in
    let found_j = v.maps.mapped j m (dialling_lem _ (s.users j) _ _ k (v.fine j m)) in
    same_entry (sym found_i ∙ ap (λ x. lookup x s.pool.conns) e ∙ found_j)

-- In an open pool no caller waits for nothing: where one waits for an entry, the dial of that entry
-- has ended, so that the caller may go on, or is in flight.
pub waiting-progress :
    (s : System) (i : ℕ)
    → Reach s
    → s.pool.closed ≡ false
    → 0 < (s.users i).waiting
    → ((s.pool.entries i).ready ≡ true) ⊎ (0 < (s.users i).dialling)
waiting-progress s i r o h =
    let v = Reach-IsValid r o in
    waiting_lem (s.pool.entries i) (s.users i) _ _ (v.fine i (made s i v (omega arith)))
