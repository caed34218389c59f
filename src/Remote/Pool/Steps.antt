-- ===== src/Remote/Pool/Steps.antt =====
-- pool.go: every critical section of an open pool keeps its invariant.

use secure_crt.Base.{
  ℕ, ◌+◌, ◌-◌, ◌<◌, ◌≡◌, refl, sym, ap, ◌∙◌, inl, inr, Bool, true, false, Option, none, some, List,
  ◌++◌, arith, leb, ◌==◌, ==_iff, if◌then◌else◌, if-rule, Bool-cases,
}
use secure_crt.Remote.Pool.{
  Key, Entry, Pool, Effect, gives_back, lookup, when, let_go, put, evict, release, Next,
  pool_closed, found, acquire, Dialled, connected, dial_failed, finish_dial, connection_ended,
  close_pool,
}
use secure_crt.Remote.Pool.System.{
  Users, System, start, acquires, dialler_after, dial_ends, wait_ends, wait_cancelled,
  lease_released, watch_ends, pool_closes, with_users, Step, acquiring, dialled, waited, cancelled,
  releasing, ended, closing, Reach, empty, then_,
}
use secure_crt.Remote.Pool.Map.{
  put-Mapped, evict-Mapped, evict_self, evict_other, evict-next, evict-effects, evict-closed,
}
use secure_crt.Remote.Pool.Counts.{
  one_if, closes, gives, closes-append, gives-append, closes-let_go, gives-let_go,
  closes-when-gives, gives-when-gives, Fine, Fine-connected, Fine-failed, Fine-ended,
  Fine-unwatched, Fine-fewer, Fine-last, Fine-last_evicted, OneLess, waiter_less, lease_less,
}
use secure_crt.Remote.Pool.Valid.{
  IsValid, IsValid-at, none-ne-some, true-ne-false, made, watched_made, acquires-IsValid,
  wait_ends-IsValid,
}

flip : (j i : ℕ) → (j == i) ≡ false → (i == j) ≡ false
flip j i h = ground arith

gives-when-gives_ne : (j i : ℕ) (r : Bool) → (j == i) ≡ false → gives j (when r (gives_back i)) ≡ 0
gives-when-gives_ne j i r d = rw (gives-when-gives j i r, flip j i d) refl

closes-let_go_ne : (j i : ℕ) (e : Entry) → (j == i) ≡ false → closes j (let_go e i) ≡ 0
closes-let_go_ne j i e d = rw (closes-let_go j i e, flip j i d) refl

gives-let_go_ne : (j i : ℕ) (e : Entry) → (j == i) ≡ false → gives j (let_go e i) ≡ 0
gives-let_go_ne j i e d = rw (gives-let_go j i e, flip j i d) refl

closes-failed :
    (effects : List Effect) (j i : ℕ) (r : Bool)
    → closes j (effects ++ when r (gives_back i)) ≡ closes j effects
closes-failed effects j i r =
    closes-append j effects (when r (gives_back i)) ∙ omega (arith, closes-when-gives j i r)

-- An entry whose users change, and which is evicted after a change that keeps its key and its mark.
evicted-IsValid :
    (s : System) (i : ℕ) (e : Entry) (u : Users) (effects : List Effect)
    → IsValid s
    → i < s.pool.next
    → e.key ≡ (s.pool.entries i).key
    → e.evicted ≡ (s.pool.entries i).evicted
    → Fine (record e { evicted = true }) u (closes i effects) (gives i effects)
    → ((j : ℕ)
        → (j == i) ≡ false
        → (closes j effects ≡ closes j s.pool.effects) × (gives j effects ≡ gives j s.pool.effects))
    → IsValid (record {
      pool = record (evict (record s.pool { entries = put s.pool.entries i e }) i) {
        effects = effects;
      };
      users = with_users s.users i u;
    })
evicted-IsValid s i e u effects v l k m f other =
    let p = record s.pool { entries = put s.pool.entries i e } in
    let self = (==_iff i i).1 refl in
    let here : put s.pool.entries i e i ≡ e = rw self refl in
    let t : System = record {
      pool = record (evict p i) { effects = effects };
      users = with_users s.users i u;
    } in
    let entry : t.pool.entries i ≡ record e { evicted = true } =
      evict_self p i ∙ ap (λ (x : Entry). record x { evicted = true }) here in
    IsValid-at s t i v l (evict-next p i) (rw (entry, self) f)
      (λ j d. record {
        entry = evict_other p i j d ∙ rw d refl;
        users = rw d refl;
        closed = (other j d).0;
        given = (other j d).1;
      })
      (evict-Mapped p i l (put-Mapped s.pool.entries s.pool.next s.pool.conns i e k m v.maps))

connection_ended-IsValid :
    (s : System) (i : ℕ) → (s.users i).watched ≡ true → IsValid s → IsValid (watch_ends s i)
unfolding watch_ends connection_ended
connection_ended-IsValid s i w v =
    let l = watched_made s i v w in
    let self = (==_iff i i).1 refl in
    let u = record (s.users i) { watched = false } in
    if-rule (λ (p : Pool). IsValid (record { pool = p; users = with_users s.users i u }))
      (s.pool.entries i).evicted
      (λ _.
        IsValid-at s (record s { users = with_users s.users i u }) i v l refl
          (rw self (Fine-unwatched _ _ _ _ (v.fine i l)))
          (λ j d. record { entry = refl; users = rw d refl; closed = refl; given = refl }) v.maps)
      (λ _.
        IsValid-at s (record { pool = evict s.pool i; users = with_users s.users i u }) i v l
          (evict-next s.pool i)
          (rw (evict_self s.pool i, evict-effects s.pool i, self)
            (Fine-ended _ _ _ _ w (v.fine i l)))
          (λ j d. record {
            entry = evict_other s.pool i j d;
            users = rw d refl;
            closed = ap (closes j) (evict-effects s.pool i);
            given = ap (gives j) (evict-effects s.pool i);
          })
          (evict-Mapped s.pool i l v.maps))

dial_ends-IsValid :
    (s : System) (i : ℕ) (d : Dialled)
    → 0 < (s.users i).dialling
    → IsValid s
    → IsValid (dial_ends s i d)
unfolding dial_ends finish_dial
dial_ends-IsValid s i (connected r) h v =
    let l = made s i v (omega arith) in
    let self = (==_iff i i).1 refl in
    IsValid-at s (dial_ends s i (connected r)) i v l refl
      (rw self (Fine-connected _ _ _ _ r h (v.fine i l)))
      (λ j d. record { entry = rw d refl; users = rw d refl; closed = refl; given = refl })
      (put-Mapped s.pool.entries s.pool.next s.pool.conns i _ refl refl v.maps)
dial_ends-IsValid s i (dial_failed r) h v =
    let l = made s i v (omega arith) in
    let e = s.pool.entries i in
    let effects = s.pool.effects ++ when r (gives_back i) in
    evicted-IsValid s i (record e { ready = true; has_release = r; failed = true })
      (dialler_after (s.users i) (dial_failed r)) effects v l refl refl
      (rw
        (
          closes-failed s.pool.effects i i r,
          gives-append i s.pool.effects (when r (gives_back i)),
          gives-when-gives i i r,
          (==_iff i i).1 refl,
        )
        (Fine-failed e (s.users i) (closes i s.pool.effects) (gives i s.pool.effects) r h
          (v.fine i l)))
      (λ j d. (
        closes-failed s.pool.effects j i r,
        gives-append j s.pool.effects (when r (gives_back i))
            ∙ omega (arith, gives-when-gives_ne j i r d),
      ))

closes-gone :
    (effects : List Effect) (e : Entry) (j i : ℕ)
    → (j == i) ≡ false
    → (closes j (effects ++ let_go e i) ≡ closes j effects)
      × (gives j (effects ++ let_go e i) ≡ gives j effects)
closes-gone effects e j i d = (
  closes-append j effects (let_go e i) ∙ omega (arith, closes-let_go_ne j i e d),
  gives-append j effects (let_go e i) ∙ omega (arith, gives-let_go_ne j i e d),
)

closes-gone_self :
    (effects : List Effect) (e : Entry) (i : ℕ)
    → (closes i (effects ++ let_go e i) ≡ closes i effects + one_if e.has_client)
      × (gives i (effects ++ let_go e i) ≡ gives i effects + one_if e.has_release)
closes-gone_self effects e i =
    let self = (==_iff i i).1 refl in
    (
      closes-append i effects (let_go e i)
          ∙ ap (◌+◌ (closes i effects)) (closes-let_go i i e ∙ rw self refl),
      gives-append i effects (let_go e i)
          ∙ ap (◌+◌ (gives i effects)) (gives-let_go i i e ∙ rw self refl),
    )

release-IsValid :
    (s : System) (i : ℕ) (u : Users)
    → IsValid s
    → i < s.pool.next
    → OneLess (s.users i) u
    → IsValid (record { pool = release s.pool i; users = with_users s.users i u })
unfolding release
release-IsValid s i u v l o =
    let e = s.pool.entries i in
    let self = (==_iff i i).1 refl in
    let fewer = record s.pool { entries = put s.pool.entries i (record e { refs = e.refs - 1 }) } in
    let P = λ (p : Pool). IsValid (record { pool = p; users = with_users s.users i u }) in
    let f = v.fine i l in
    let kept =
      put-Mapped s.pool.entries s.pool.next s.pool.conns i (record e { refs = e.refs - 1 }) refl
        refl v.maps in
    let gone = closes-gone_self s.pool.effects e i in
    if-rule P (leb (e.refs - 1) 0)
      (λ last.
        if-rule (λ (p : Pool). P (record p { effects = s.pool.effects ++ let_go e i })) e.evicted
          (λ out.
            IsValid-at s
              (record {
                pool = record fewer { effects = s.pool.effects ++ let_go e i };
                users = with_users s.users i u;
              })
              i v l refl
              (rw (self, gone.0, gone.1)
                (Fine-last_evicted e (s.users i) u _ _ o (ground arith) out f))
              (λ j d.
                let g = closes-gone s.pool.effects e j i d in
                record { entry = rw d refl; users = rw d refl; closed = g.0; given = g.1 })
              kept)
          (λ _.
            evicted-IsValid s i (record e { refs = e.refs - 1 }) u (s.pool.effects ++ let_go e i) v
              l refl refl (rw (gone.0, gone.1) (Fine-last e (s.users i) u _ _ o (ground arith) f))
              (λ j d. closes-gone s.pool.effects e j i d)))
      (λ more.
        IsValid-at s (record { pool = fewer; users = with_users s.users i u }) i v l refl
          (rw self (Fine-fewer e (s.users i) u _ _ o (ground arith) f))
          (λ j d. record { entry = rw d refl; users = rw d refl; closed = refl; given = refl })
          kept)

release-closed : (p : Pool) (i : ℕ) → (release p i).closed ≡ p.closed
unfolding release
release-closed p i =
    let e = p.entries i in
    let Kept = λ (q : Pool). q.closed ≡ p.closed in
    if-rule Kept (leb (e.refs - 1) 0)
      (λ _.
        if-rule (λ (q : Pool). q.closed ≡ p.closed) e.evicted (λ _. refl) (λ _. evict-closed _ i))
      (λ _. refl)

found-closed : (p : Pool) (key : Key) (o : Option ℕ) → (found p key o).0.closed ≡ p.closed
found-closed p key none = refl
found-closed p key (some i) = refl

-- A pool that is open was open before.
Step-open : {s t : System} → Step s t → t.pool.closed ≡ false → s.pool.closed ≡ false
unfolding acquires acquire dial_ends finish_dial wait_ends wait_cancelled lease_released watch_ends
    connection_ended pool_closes close_pool
Step-open {s} (acquiring key) h = elim (Bool-cases s.pool.closed) [
  | inl shut ↦ sym (acquire-closed) ∙ h
  | inr open_ ↦ open_
]
  where
    acquire-closed :
        (if s.pool.closed
          then (s.pool, pool_closed)
          else found s.pool key (lookup key s.pool.conns)).0.closed
        ≡ s.pool.closed
    acquire-closed =
        if-rule (λ (r : Pool × Next). r.0.closed ≡ s.pool.closed) s.pool.closed (λ _. refl)
          (λ _. found-closed s.pool key (lookup key s.pool.conns))
Step-open (dialled i (connected r) g) h = h
Step-open {s} (dialled i (dial_failed r) g) h = sym (evict-closed _ i) ∙ h
Step-open (waited i g r) h = h
Step-open {s} (cancelled i g) h = sym (release-closed s.pool i) ∙ h
Step-open {s} (releasing i g) h = sym (release-closed s.pool i) ∙ h
Step-open {s} (ended i g) h =
    sym (
      if-rule (λ (q : Pool). q.closed ≡ s.pool.closed) (s.pool.entries i).evicted (λ _. refl)
        (λ _. evict-closed s.pool i))
    ∙ h
Step-open closing h = absurd (true-ne-false h)

Step-IsValid : {s t : System} → Step s t → t.pool.closed ≡ false → IsValid s → IsValid t
unfolding wait_cancelled lease_released
Step-IsValid {s} (acquiring key) h v = acquires-IsValid s key v
Step-IsValid {s} (dialled i d g) h v = dial_ends-IsValid s i d g v
Step-IsValid {s} (waited i g r) h v = wait_ends-IsValid s i g r v
Step-IsValid {s} (cancelled i g) h v =
    release-IsValid s i _ v (made s i v (omega arith)) (waiter_less refl refl (omega arith) refl)
Step-IsValid {s} (releasing i g) h v =
    release-IsValid s i _ v (made s i v (omega arith)) (lease_less refl refl refl (omega arith))
Step-IsValid {s} (ended i g) h v = connection_ended-IsValid s i g v
Step-IsValid closing h v = absurd (true-ne-false (unfold pool_closes close_pool in h))

start-IsValid : (any : Key) → IsValid (start any)
unfolding lookup
start-IsValid any = record {
  fresh = λ i h. (refl, refl, refl, refl, refl, refl);
  fine = λ i h. absurd (omega arith);
  maps = record { mapped = λ i h. absurd (omega arith); known = λ k i h. absurd (none-ne-some h) };
}

pub Reach-IsValid : {s : System} → Reach s → s.pool.closed ≡ false → IsValid s
Reach-IsValid (empty any) h = start-IsValid any
Reach-IsValid (then_ r st) h = Step-IsValid st h (Reach-IsValid r (Step-open st h))
