-- ===== src/Remote/Pool/Counts.antt =====
-- pool.go: how often a connection has been closed, and what is true of one entry and its users.
use secure_crt.Base.{
  ℕ, suc, ◌+◌, ◌-◌, ◌<◌, ◌≡◌, refl, ◌∙◌, Bool, true, false, List, [], ◌∷◌, ◌++◌, arith, ◌==◌,
  if◌then◌else◌,
}
use secure_crt.Remote.Pool.{
  Key, Entry, Effect, closes_client, gives_back, when, let_go, entry_of, connected, dial_failed,
}
use secure_crt.Remote.Pool.System.{Users, dialler_after, waiter_after}

abbrev pub one_if : Bool → ℕ
one_if true = 1
one_if false = 0

-- How often the client of an entry has been closed.
abbrev pub closes : ℕ → List Effect → ℕ
closes i [] = 0
closes i (closes_client j ∷ effects) = one_if (j == i) + closes i effects
closes i (gives_back j ∷ effects) = closes i effects

-- How often what its dial had borrowed was given back.
abbrev pub gives : ℕ → List Effect → ℕ
gives i [] = 0
gives i (closes_client j ∷ effects) = gives i effects
gives i (gives_back j ∷ effects) = one_if (j == i) + gives i effects

pub closes-append : (i : ℕ) (xs ys : List Effect) → closes i (xs ++ ys) ≡ closes i xs + closes i ys
closes-append i [] ys = omega arith
closes-append i (closes_client j ∷ xs) ys = omega (arith, closes-append i xs ys)
closes-append i (gives_back j ∷ xs) ys = closes-append i xs ys

pub gives-append : (i : ℕ) (xs ys : List Effect) → gives i (xs ++ ys) ≡ gives i xs + gives i ys
gives-append i [] ys = omega arith
gives-append i (closes_client j ∷ xs) ys = gives-append i xs ys
gives-append i (gives_back j ∷ xs) ys = omega (arith, gives-append i xs ys)

pub closes-when-gives : (i j : ℕ) (b : Bool) → closes i (when b (gives_back j)) ≡ 0
closes-when-gives i j true = refl
closes-when-gives i j false = refl

pub gives-when-gives :
    (i j : ℕ) (b : Bool) → gives i (when b (gives_back j)) ≡ (if j == i then one_if b else 0)
gives-when-gives i j true = ground arith
gives-when-gives i j false = ground arith

closes-when :
    (i j : ℕ) (b : Bool) → closes i (when b (closes_client j)) ≡ (if j == i then one_if b else 0)
closes-when i j true = ground arith
closes-when i j false = ground arith

gives-when : (i j : ℕ) (b : Bool) → gives i (when b (closes_client j)) ≡ 0
gives-when i j true = refl
gives-when i j false = refl

pub closes-let_go :
    (i j : ℕ) (e : Entry) → closes i (let_go e j) ≡ (if j == i then one_if e.has_client else 0)
closes-let_go i j e =
    closes-append i (when e.has_client (closes_client j)) (when e.has_release (gives_back j))
    ∙ omega (arith, closes-when i j e.has_client, closes-when-gives i j e.has_release)

pub gives-let_go :
    (i j : ℕ) (e : Entry) → gives i (let_go e j) ≡ (if j == i then one_if e.has_release else 0)
gives-let_go i j e =
    gives-append i (when e.has_client (closes_client j)) (when e.has_release (gives_back j))
    ∙ omega (arith, gives-when i j e.has_client, gives-when-gives i j e.has_release)

-- An entry of an open pool, its users, and how often it has been closed and given back.
pub record Fine (e : Entry) (u : Users) (c g : ℕ) : Type 0 where
  pub counted : e.failed ≡ false → e.refs ≡ u.dialling + u.waiting + u.leased
  pub broken :
      e.failed ≡ true
      → (u.waiting < e.refs)
        × (u.leased ≡ 0)
        × (e.has_client ≡ false)
        × (e.evicted ≡ true)
        × (e.ready ≡ true)
        × (c ≡ 0)
        × (g ≡ one_if e.has_release)
  pub unready :
      e.ready ≡ false
      → (u.dialling ≡ 1)
        × (u.leased ≡ 0)
        × (e.failed ≡ false)
        × (e.evicted ≡ false)
        × (u.watched ≡ false)
        × (e.has_client ≡ false)
  pub settled : e.ready ≡ true → u.dialling ≡ 0
  pub client : e.ready ≡ true → e.failed ≡ false → e.has_client ≡ true
  pub live : e.failed ≡ false → 0 < e.refs → (c ≡ 0) × (g ≡ 0)
  pub over :
      e.failed ≡ false → e.refs ≡ 0 → (c ≡ 1) × (g ≡ one_if e.has_release) × (e.evicted ≡ true)

pub Fine-joined :
    (e : Entry) (u : Users) (c g : ℕ)
    → e.evicted ≡ false
    → Fine e u c g
    → Fine (record e { refs = suc e.refs }) (record u { waiting = suc u.waiting }) c g
Fine-joined e u c g h f = grind arith

pub Fine-new :
    (key : Key) (u : Users)
    → u.dialling ≡ 0
    → u.waiting ≡ 0
    → u.leased ≡ 0
    → u.watched ≡ false
    → Fine (entry_of key) (record u { dialling = suc u.dialling }) 0 0
Fine-new key u a b c d = grind arith

pub Fine-connected :
    (e : Entry) (u : Users) (c g : ℕ) (r : Bool)
    → 0 < u.dialling
    → Fine e u c g
    → Fine
        (record e { ready = true; has_client = true; has_release = r })
        (dialler_after u (connected r))
        c
        g
Fine-connected e u c g r h f = grind arith

pub Fine-failed :
    (e : Entry) (u : Users) (c g : ℕ) (r : Bool)
    → 0 < u.dialling
    → Fine e u c g
    → Fine
        (record e { ready = true; has_release = r; failed = true; evicted = true })
        (dialler_after u (dial_failed r))
        c
        (g + one_if r)
Fine-failed e u c g r h f = grind arith

pub Fine-waited :
    (e : Entry) (u : Users) (c g : ℕ)
    → 0 < u.waiting
    → e.ready ≡ true
    → Fine e u c g
    → Fine e (waiter_after u e.failed) c g
Fine-waited e u c g h r f = grind arith

pub Fine-ended :
    (e : Entry) (u : Users) (c g : ℕ)
    → u.watched ≡ true
    → Fine e u c g
    → Fine (record e { evicted = true }) (record u { watched = false }) c g
Fine-ended e u c g w f = grind arith

-- A waiter or a lease less.
pub data OneLess (u v : Users) : Type 0 where
  waiter_less :
      v.dialling ≡ u.dialling
      → v.watched ≡ u.watched
      → v.waiting + 1 ≡ u.waiting
      → v.leased ≡ u.leased
      → OneLess u v
  lease_less :
      v.dialling ≡ u.dialling
      → v.watched ≡ u.watched
      → v.waiting ≡ u.waiting
      → v.leased + 1 ≡ u.leased
      → OneLess u v

-- A reference is given back, by a waiter or by a lease; it is not the last.
pub Fine-fewer :
    (e : Entry) (u v : Users) (c g : ℕ)
    → OneLess u v
    → 0 < e.refs - 1
    → Fine e u c g
    → Fine (record e { refs = e.refs - 1 }) v c g
Fine-fewer e u v c g (waiter_less d w a b) l f = grind arith
Fine-fewer e u v c g (lease_less d w a b) l f = grind arith

-- The last one.
pub Fine-last :
    (e : Entry) (u v : Users) (c g : ℕ)
    → OneLess u v
    → e.refs - 1 ≡ 0
    → Fine e u c g
    → Fine
        (record e { refs = e.refs - 1; evicted = true })
        v
        (c + one_if e.has_client)
        (g + one_if e.has_release)
Fine-last e u v c g (waiter_less d w a b) l f = grind arith
Fine-last e u v c g (lease_less d w a b) l f = grind arith

pub Fine-unwatched :
    (e : Entry) (u : Users) (c g : ℕ) → Fine e u c g → Fine e (record u { watched = false }) c g
Fine-unwatched e u c g f = grind arith

pub Fine-last_evicted :
    (e : Entry) (u v : Users) (c g : ℕ)
    → OneLess u v
    → e.refs - 1 ≡ 0
    → e.evicted ≡ true
    → Fine e u c g
    → Fine (record e { refs = e.refs - 1 }) v (c + one_if e.has_client) (g + one_if e.has_release)
Fine-last_evicted e u v c g (waiter_less d w a b) l k f = grind arith
Fine-last_evicted e u v c g (lease_less d w a b) l k f = grind arith
