-- ===== src/Remote/Pool/Map.antt =====
-- pool.go: the map from keys to entries, and the entries that are in it.
use mathlib.Core.Path.{subst}
use secure_crt.Base.{
  ℕ, suc, ◌<◌, ◌≡◌, ◌≢◌, refl, sym, ap, ◌∙◌, inl, inr, Bool, true, false, Option, none, some, List,
  [], ◌∷◌, arith, ◌==◌, ==_iff, if◌then◌else◌, if-rule, Bool-cases, bytes_eq_refl, bytes_eq_sound,
}
use secure_crt.Remote.Pool.{
  Key, Entry, Pool, key_eq, lookup, delete, put, is_current, evict, entry_of,
}

pub key_eq_refl : (k : Key) → key_eq k k ≡ true
unfolding key_eq
key_eq_refl k = simp (bytes_eq_refl k.user_id, bytes_eq_refl k.session_id, bytes_eq_refl k.via)

pub key_eq_sound : (k l : Key) → key_eq k l ≡ true → k ≡ l
unfolding key_eq
key_eq_sound k l h = grind (
  arith,
  bytes_eq_sound k.user_id l.user_id,
  bytes_eq_sound k.session_id l.session_id,
  bytes_eq_sound k.via l.via,
)

true-ne-false : true ≢ false
true-ne-false h = cc

swap_tests :
    (a b : Bool) (x y : Option ℕ)
    → (a ≡ true → b ≡ true → ⊥)
    → (if a then x else if b then none else y) ≡ (if b then none else if a then x else y)
swap_tests true true x y h = absurd (h refl refl)
swap_tests true false x y h = refl
swap_tests false true x y h = refl
swap_tests false false x y h = refl

lookup-delete :
    (k l : Key) (conns : List (Key × ℕ))
    → lookup k (delete l conns) ≡ (if key_eq l k then none else lookup k conns)
unfolding lookup delete
lookup-delete k l [] = ground arith
lookup-delete k l ((m, i) ∷ conns) = elim (Bool-cases (key_eq m l)) [
  | inl h ↦ let e : m ≡ l = key_eq_sound m l h in rw (h, lookup-delete k l conns) (subst_if e)
  | inr h ↦
      rw (h, lookup-delete k l conns)
        (swap_tests (key_eq m k) (key_eq l k) (some i) (lookup k conns) (apart h))
]
  where
    apart : key_eq m l ≡ false → key_eq m k ≡ true → key_eq l k ≡ true → ⊥
    apart h a b =
        let e : m ≡ l = key_eq_sound m k a ∙ sym (key_eq_sound l k b) in
        true-ne-false (sym (key_eq_refl m) ∙ ap (key_eq m) e ∙ h)

    subst_if :
        m ≡ l
        → (if key_eq l k then none else lookup k conns)
          ≡ (if key_eq l k then none else if key_eq m k then some i else lookup k conns)
    subst_if e = rw e (ground arith)

-- Exactly the entries that are not evicted are in the map, each under its key.
pub record Mapped (entries : ℕ → Entry) (next : ℕ) (conns : List (Key × ℕ)) : Type 0 where
  pub mapped :
      (i : ℕ) → i < next → (entries i).evicted ≡ false → lookup (entries i).key conns ≡ some i
  pub known :
      (k : Key) (i : ℕ)
      → lookup k conns ≡ some i
      → (i < next) × ((entries i).evicted ≡ false) × ((entries i).key ≡ k)

-- A change that keeps the keys and the marks.
pub put-Mapped :
    (entries : ℕ → Entry) (next : ℕ) (conns : List (Key × ℕ)) (i : ℕ) (e : Entry)
    → e.key ≡ (entries i).key
    → e.evicted ≡ (entries i).evicted
    → Mapped entries next conns
    → Mapped (put entries i e) next conns
put-Mapped entries next conns i e k v m = record {
  mapped = λ j l h. elim (Bool-cases (j == i)) [
    | inl same ↦
        let at : j ≡ i = (==_iff j i).0 same in
        rw same (
          ap (λ x. lookup x conns) k
          ∙ m.mapped i (rw (← at) l) (sym v ∙ rw same at h)
          ∙ ap some (sym at))
    | inr other ↦ rw other (m.mapped j l (rw other at h))
  ];
  known = λ k' j h. elim (Bool-cases (j == i)) [
    | inl same ↦
        let at : j ≡ i = (==_iff j i).0 same in
        let (l, o, q) = m.known k' j h in (l, rw same (v ∙ rw at at o), rw same (k ∙ rw at at q))
    | inr other ↦ rw other (m.known k' j h)
  ];
}

current_lem : (o : Option ℕ) (i : ℕ) → is_current o i ≡ true → o ≡ some i
current_lem none i h = absurd (true-ne-false (sym h))
current_lem (some j) i h = ap some ((==_iff j i).0 h)

none-ne-some : {i : ℕ} → none ≢ some i
none-ne-some h = cc

same_entry : {i j : ℕ} → some i ≡ some j → i ≡ j
same_entry h = cc

other_entry : (i j : ℕ) → (j == i) ≡ false → j ≢ i
other_entry i j h e = true-ne-false (sym ((==_iff j i).1 e) ∙ h)

pub evict-Mapped :
    (p : Pool) (i : ℕ)
    → i < p.next
    → Mapped p.entries p.next p.conns
    → Mapped (evict p i).entries (evict p i).next (evict p i).conns
unfolding evict
evict-Mapped p i l m =
    let e = p.entries i in
    if-rule (λ c. Mapped (put p.entries i (record e { evicted = true })) p.next c)
      (is_current (lookup e.key p.conns) i)
      (λ current. record {
        mapped = λ j b h. elim (Bool-cases (j == i)) [
          | inl same ↦ absurd (true-ne-false (rw same at h))
          | inr other ↦ rw other (
              lookup-delete (p.entries j).key e.key p.conns
              ∙ if-rule (λ (o : Option ℕ). o ≡ some j) (key_eq e.key (p.entries j).key)
                  (λ k. absurd (
                    other_entry i j other (
                      same_entry (
                        sym (m.mapped j b (rw other at h))
                        ∙ ap (λ x. lookup x p.conns) (sym (key_eq_sound e.key (p.entries j).key k))
                        ∙ current_lem (lookup e.key p.conns) i current))))
                  (λ _. m.mapped j b (rw other at h)))
        ];
        known = λ k j h. elim (Bool-cases (key_eq e.key k)) [
          | inl gone ↦ absurd (none-ne-some (rw gone at (sym (lookup-delete k e.key p.conns) ∙ h)))
          | inr there ↦
              let (b, o, q) = m.known k j (rw there at (sym (lookup-delete k e.key p.conns) ∙ h)) in
              elim (Bool-cases (j == i)) [
                | inl same ↦
                    let at : j ≡ i = (==_iff j i).0 same in
                    absurd (
                      true-ne-false
                        (sym (key_eq_refl e.key) ∙ ap (key_eq e.key) (rw at at q) ∙ there))
                | inr other ↦ rw other (b, o, q)
              ]
        ];
      })
      (λ stale. record {
        mapped = λ j b h. elim (Bool-cases (j == i)) [
          | inl same ↦ absurd (true-ne-false (rw same at h))
          | inr other ↦ rw other (m.mapped j b (rw other at h))
        ];
        known = λ k j h.
            let (b, o, q) = m.known k j h in
            elim (Bool-cases (j == i)) [
              | inl same ↦
                  let at : j ≡ i = (==_iff j i).0 same in
                  let now : lookup e.key p.conns ≡ some i =
                    ap (λ x. lookup x p.conns) (rw at at q) ∙ h ∙ ap some at in
                  absurd (
                    true-ne-false
                      (sym ((==_iff i i).1 refl) ∙ ap (λ o'. is_current o' i) (sym now) ∙ stale))
              | inr other ↦ rw other (b, o, q)
            ];
      })

pub add-Mapped :
    (p : Pool) (key : Key)
    → lookup key p.conns ≡ none
    → Mapped p.entries p.next p.conns
    → Mapped (put p.entries p.next (entry_of key)) (suc p.next) ((key, p.next) ∷ p.conns)
unfolding lookup
add-Mapped p key absent m = record {
  mapped = λ j b h. elim (Bool-cases (j == p.next)) [
    | inl same ↦ rw (same, key_eq_refl key) (ap some (sym ((==_iff j p.next).0 same)))
    | inr other ↦
        let below : j < p.next = omega (arith, other_entry p.next j other) in
        let there = m.mapped j below (rw other at h) in
        let same_as : put p.entries p.next (entry_of key) j ≡ p.entries j = rw other refl in
        subst (λ (e : Entry). lookup e.key ((key, p.next) ∷ p.conns) ≡ some j) (sym same_as)
          (if-rule (λ (o : Option ℕ). o ≡ some j) (key_eq key (p.entries j).key)
            (λ k. absurd (
              none-ne-some (
                sym absent
                ∙ ap (λ x. lookup x p.conns) (key_eq_sound key (p.entries j).key k)
                ∙ there)))
            (λ _. there))
  ];
  known = λ k j h. elim (Bool-cases (key_eq key k)) [
    | inl mine ↦
        let at : p.next ≡ j = same_entry (rw mine at h) in
        rw (← at, (==_iff p.next p.next).1 refl) (omega arith, refl, key_eq_sound key k mine)
    | inr theirs ↦
        let (b, o, q) = m.known k j (rw theirs at h) in
        let other : (j == p.next) ≡ false = ground arith in rw other (omega arith, o, q)
  ];
}

module _ (p : Pool) (i : ℕ) where
  pub evict_self : (evict p i).entries i ≡ record (p.entries i) { evicted = true }
  unfolding evict
  evict_self = rw ((==_iff i i).1 refl) refl

  pub evict_other : (j : ℕ) → (j == i) ≡ false → (evict p i).entries j ≡ p.entries j
  unfolding evict
  evict_other j h = rw h refl

  pub evict-next : (evict p i).next ≡ p.next
  unfolding evict
  evict-next = refl

  pub evict-effects : (evict p i).effects ≡ p.effects
  unfolding evict
  evict-effects = refl

  pub evict-closed : (evict p i).closed ≡ p.closed
  unfolding evict
  evict-closed = refl
