-- ===== src/Remote/Pool.antt =====
-- internal/remote/pool.go: the pool of shared SSH connections. A pointer to an entry is a number, and
-- each critical section of the pool is a function. `refs--` is on ℕ: the pool has it only where a
-- reference is counted.
pub mod Valid
pub mod System
pub mod Map
pub mod Counts
pub mod Steps
pub mod Leases
use secure_crt.Base.{
  length, ℕ, zero, suc, ◌+◌, ◌-◌, Bool, true, false, not, ◌&&◌, ◌||◌, Option, none, some, List, [],
  ◌∷◌, ◌++◌, ltb, leb, ◌==◌, if◌then◌else◌, Bytes, codes, bytes_eq,
}

pub record Key : Type 0 where
  pub user_id : Bytes
  pub session_id : Bytes
  pub via : Bytes

-- strings.Join with ">"
unfoldable pub join_hops : List Bytes → Bytes
join_hops [] = []
join_hops (hop ∷ []) = hop
join_hops (hop ∷ next ∷ hops) = hop ++ (b'>' ∷ join_hops (next ∷ hops))

unfoldable pub path_key : Bytes → List Bytes → Bytes → Key
path_key user_id hops session_id = record {
  user_id = user_id;
  session_id = session_id;
  via = join_hops hops;
}

-- strings.Count of ">"
unfoldable pub count_separators : Bytes → ℕ
count_separators [] = 0
count_separators (c ∷ s) = if c == b'>' then suc (count_separators s) else count_separators s

abbrev pub depth_of : Bytes → ℕ
depth_of [] = 0
depth_of (c ∷ s) = count_separators (c ∷ s) + 1

unfoldable pub depth : Key → ℕ
depth k = depth_of k.via

unfoldable pub key_eq : Key → Key → Bool
key_eq k l =
    bytes_eq k.user_id l.user_id && (bytes_eq k.session_id l.session_id && bytes_eq k.via l.via)

-- `ready` is the closed channel; `has_client` and `has_release` tell that the pointers are not nil.
pub record Entry : Type 0 where
  pub key : Key
  pub ready : Bool
  pub has_client : Bool
  pub has_release : Bool
  pub failed : Bool
  pub refs : ℕ
  pub evicted : Bool

-- What the pool does outside itself, each to the connection of an entry.
pub data Effect : Type 0 where
  closes_client gives_back : ℕ → Effect

pub record Pool : Type 0 where
  pub entries : ℕ → Entry
  pub next : ℕ
  pub conns : List (Key × ℕ)
  pub closed : Bool
  pub effects : List Effect

unfoldable pub lookup : Key → List (Key × ℕ) → Option ℕ
lookup k [] = none
lookup k ((l, i) ∷ conns) = let rest = lookup k conns in if key_eq l k then some i else rest

unfoldable pub delete : Key → List (Key × ℕ) → List (Key × ℕ)
delete k [] = []
delete k ((l, i) ∷ conns) = let rest = delete k conns in if key_eq l k then rest else (l, i) ∷ rest

abbrev pub put : (ℕ → Entry) → ℕ → Entry → ℕ → Entry
put entries i e j = if j == i then e else entries j

-- `evict`
abbrev pub is_current : Option ℕ → ℕ → Bool
is_current none i = false
is_current (some j) i = j == i

unfoldable pub evict : Pool → ℕ → Pool
evict p i =
    let e = p.entries i in
    record p {
      entries = put p.entries i (record e { evicted = true });
      conns = if is_current (lookup e.key p.conns) i then delete e.key p.conns else p.conns;
    }

abbrev pub when : Bool → Effect → List Effect
when true e = e ∷ []
when false e = []

-- What is done to a connection that nobody holds: the client first, then its transport.
abbrev pub let_go : Entry → ℕ → List Effect
let_go e i = when e.has_client (closes_client i) ++ when e.has_release (gives_back i)

-- `release`
unfoldable pub release : Pool → ℕ → Pool
release p i =
    let e = p.entries i in
    let fewer = record p { entries = put p.entries i (record e { refs = e.refs - 1 }) } in
    let gone = if e.evicted then fewer else evict fewer i in
    if leb (e.refs - 1) 0 then record gone { effects = p.effects ++ let_go e i } else fewer

-- The first critical section of `Acquire`: what the caller does next.
pub data Next : Type 0 where
  pool_closed : Next
  waits_for dials : ℕ → Next

abbrev pub entry_of : Key → Entry
entry_of key = record {
  key = key;
  ready = false;
  has_client = false;
  has_release = false;
  failed = false;
  refs = 1;
  evicted = false;
}

abbrev pub found : Pool → Key → Option ℕ → Pool × Next
found p key (some i) =
    let e = p.entries i in
    (record p { entries = put p.entries i (record e { refs = suc e.refs }) }, waits_for i)
found p key none = (
  record p {
    entries = put p.entries p.next (entry_of key);
    next = suc p.next;
    conns = (key, p.next) ∷ p.conns;
  },
  dials p.next,
)

unfoldable pub acquire : Pool → Key → Pool × Next
acquire p key = if p.closed then (p, pool_closed) else found p key (lookup key p.conns)

-- What a dial comes back with: a client, or an error; and perhaps something to give back.
pub data Dialled : Type 0 where
  connected dial_failed : Bool → Dialled

-- The rest of `Acquire`, after the dial.
unfoldable pub finish_dial : Pool → ℕ → Dialled → Pool
finish_dial p i (connected has_release) =
    let e = p.entries i in
    record p {
      entries =
          put p.entries i (record e { ready = true; has_client = true; has_release = has_release });
    }
finish_dial p i (dial_failed has_release) =
    let e = p.entries i in
    let noted = record p {
      entries =
          put p.entries i (record e { ready = true; has_release = has_release; failed = true });
    } in
    record (evict noted i) { effects = p.effects ++ when has_release (gives_back i) }

-- `watch`, once the connection has ended.
unfoldable pub connection_ended : Pool → ℕ → Pool
connection_ended p i = let e = p.entries i in if e.evicted then p else evict p i

-- The loop of `Close` over the map.
unfoldable pub mark_evicted : List (Key × ℕ) → (ℕ → Entry) → ℕ → Entry
mark_evicted [] entries = entries
mark_evicted ((k, i) ∷ conns) entries =
    mark_evicted conns (put entries i (record (entries i) { evicted = true }))

-- The stable sort, deepest route first.
unfoldable pub insert_by_depth : Key × ℕ → List (Key × ℕ) → List (Key × ℕ)
insert_by_depth c [] = c ∷ []
insert_by_depth c (d ∷ ds) =
    let rest = insert_by_depth c ds in if leb (depth d.0) (depth c.0) then c ∷ d ∷ ds else d ∷ rest

unfoldable pub sort_by_depth : List (Key × ℕ) → List (Key × ℕ)
sort_by_depth [] = []
sort_by_depth (c ∷ cs) = insert_by_depth c (sort_by_depth cs)

unfoldable pub let_all_go : (ℕ → Entry) → List (Key × ℕ) → List Effect
let_all_go entries [] = []
let_all_go entries ((k, i) ∷ conns) = let_go (entries i) i ++ let_all_go entries conns

unfoldable pub close_pool : Pool → Pool
close_pool p = record p {
  entries = mark_evicted p.conns p.entries;
  conns = [];
  closed = true;
  effects = p.effects ++ let_all_go p.entries (sort_by_depth p.conns);
}

-- `Len`
unfoldable pub pool_len : Pool → ℕ
pool_len p = length p.conns
