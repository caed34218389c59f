-- ===== src/Remote/Pool/Valid.antt =====
-- pool.go: the invariant of an open pool, and that a caller keeps it that comes in or has waited.

use secure_crt.Base.{
  ℕ, ◌+◌, ◌≤◌, ◌<◌, ◌≡◌, ◌≢◌, refl, sym, ◌∙◌, inl, inr, true, false, Option, none, some, arith, ltb,
  ◌==◌, ==_iff, if-rule, Bool-cases,
}
use secure_crt.Remote.Pool.{Key, Pool, lookup, Next, waits_for, found, acquire}
use secure_crt.Remote.Pool.System.{Users, System, join_users, acquires, wait_ends}
use secure_crt.Remote.Pool.Map.{Mapped, put-Mapped, add-Mapped}
use secure_crt.Remote.Pool.Counts.{closes, gives, Fine, Fine-joined, Fine-new, Fine-waited}

-- An entry that has not been made.
abbrev pub Fresh : Users → ℕ → ℕ → Type 0
Fresh u c g =
    (u.dialling ≡ 0) × (u.waiting ≡ 0) × (u.leased ≡ 0) × (u.watched ≡ false) × (c ≡ 0) × (g ≡ 0)

pub record IsValid (s : System) : Type 0 where
  pub fresh :
      (i : ℕ)
      → s.pool.next ≤ i
      → Fresh (s.users i) (closes i s.pool.effects) (gives i s.pool.effects)
  pub fine :
      (i : ℕ)
      → i < s.pool.next
      → Fine (s.pool.entries i) (s.users i) (closes i s.pool.effects) (gives i s.pool.effects)
  pub maps : Mapped s.pool.entries s.pool.next s.pool.conns

-- A step that concerns one entry.
pub record Elsewhere (s t : System) (j : ℕ) : Type 0 where
  pub entry : t.pool.entries j ≡ s.pool.entries j
  pub users : t.users j ≡ s.users j
  pub closed : closes j t.pool.effects ≡ closes j s.pool.effects
  pub given : gives j t.pool.effects ≡ gives j s.pool.effects

pub IsValid-at :
    (s t : System) (i : ℕ)
    → IsValid s
    → i < s.pool.next
    → t.pool.next ≡ s.pool.next
    → Fine (t.pool.entries i) (t.users i) (closes i t.pool.effects) (gives i t.pool.effects)
    → ((j : ℕ) → (j == i) ≡ false → Elsewhere s t j)
    → Mapped t.pool.entries t.pool.next t.pool.conns
    → IsValid t
IsValid-at s t i v l n f other m = record {
  fresh = λ j h.
      let o = other j (ground arith) in
      let w = v.fresh j (omega (arith, n)) in rw (o.users, o.closed, o.given) w;
  fine = λ j h. elim (Bool-cases (j == i)) [
    | inl same ↦ let at : j ≡ i = (==_iff j i).0 same in rw at f
    | inr differs ↦
        let o = other j differs in
        rw (o.entry, o.users, o.closed, o.given) (v.fine j (omega (arith, n)))
  ];
  maps = m;
}

pub apart : (i j : ℕ) → (i == j) ≡ false → i ≢ j
apart i j h = ground arith

pub none-ne-some : {i : ℕ} → none ≢ some i
none-ne-some h = cc

pub true-ne-false : true ≢ false
true-ne-false h = cc

-- A caller of an entry shows that it has been made.
pub made :
    (s : System) (i : ℕ)
    → IsValid s
    → 0 < (s.users i).dialling + (s.users i).waiting + (s.users i).leased
    → i < s.pool.next
made s i v h = elim (Bool-cases (ltb i s.pool.next)) [
  | inl lt ↦ ground arith
  | inr ge ↦ let w = v.fresh i (ground arith) in absurd (omega (arith, w.0, w.1, w.2))
]

pub watched_made : (s : System) (i : ℕ) → IsValid s → (s.users i).watched ≡ true → i < s.pool.next
watched_made s i v h = elim (Bool-cases (ltb i s.pool.next)) [
  | inl lt ↦ ground arith
  | inr ge ↦ let w = v.fresh i (ground arith) in absurd (true-ne-false (sym h ∙ w.3))
]

pub found-IsValid :
    (s : System) (key : Key) (o : Option ℕ)
    → lookup key s.pool.conns ≡ o
    → IsValid s
    → IsValid (record {
      pool = (found s.pool key o).0;
      users = join_users s.users (found s.pool key o).1;
    })
unfolding join_users
found-IsValid s key none e v =
    let n = s.pool.next in
    let self = (==_iff n n).1 refl in
    let w = v.fresh n (omega arith) in
    record {
      fresh =
          λ i h. let other : (i == n) ≡ false = ground arith in rw other (v.fresh i (omega arith));
      fine = λ i h. elim (Bool-cases (i == n)) [
        | inl same ↦
            let at : i ≡ n = (==_iff i n).0 same in
            rw (at, self, w.4, w.5) (Fine-new key (s.users n) w.0 w.1 w.2 w.3)
        | inr differs ↦ rw differs (v.fine i (omega (arith, apart i n differs)))
      ];
      maps = add-Mapped s.pool key e v.maps;
    }
found-IsValid s key (some i) e v =
    let (l, o, q) = v.maps.known key i e in
    let self = (==_iff i i).1 refl in
    let t : System = record {
      pool = (found s.pool key (some i)).0;
      users = join_users s.users (waits_for i);
    } in
    IsValid-at s t i v l refl (rw self (Fine-joined _ _ _ _ o (v.fine i l)))
      (λ j d. record { entry = rw d refl; users = rw d refl; closed = refl; given = refl })
      (put-Mapped s.pool.entries s.pool.next s.pool.conns i _ refl refl v.maps)

pub acquires-IsValid : (s : System) (key : Key) → IsValid s → IsValid (acquires s key)
unfolding acquires acquire
acquires-IsValid s key v =
    if-rule (λ (r : Pool × Next). IsValid (record { pool = r.0; users = join_users s.users r.1 }))
      s.pool.closed (λ _. unfold join_users in v)
      (λ _. found-IsValid s key (lookup key s.pool.conns) refl v)

pub wait_ends-IsValid :
    (s : System) (i : ℕ)
    → 0 < (s.users i).waiting
    → (s.pool.entries i).ready ≡ true
    → IsValid s
    → IsValid (wait_ends s i)
unfolding wait_ends
wait_ends-IsValid s i h r v =
    let l = made s i v (omega arith) in
    let self = (==_iff i i).1 refl in
    IsValid-at s (wait_ends s i) i v l refl (rw self (Fine-waited _ _ _ _ h r (v.fine i l)))
      (λ j o. record { entry = refl; users = rw o refl; closed = refl; given = refl }) v.maps
