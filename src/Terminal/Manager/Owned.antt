-- ===== src/Terminal/Manager/Owned.antt =====
-- session.go: whose terminals a request can end, and what becomes of the ones that are.
use secure_crt.Base.{
  ◌≡◌, ◌≢◌, refl, sym, ap, ◌∙◌, inl, inr, false, Bool-cases, Option, none, some, List, [], ◌∷◌,
  if◌then◌else◌, Bytes, bytes_eq, bytes_eq_sound, bytes_eq_ne,
}
use secure_crt.Terminal.Session.{Terminal}
use secure_crt.Terminal.Manager.{
  Held, Manager, find, remove, owned_by, get, take_out, close_terminal, terminal_not_found,
}

pub some-injective {ℓ} : {A : Type ℓ} {x y : A} → some x ≡ some y → x ≡ y
some-injective h = cc

none-ne-some {ℓ} : {A : Type ℓ} {x : A} → none ≢ some x
none-ne-some h = cc

pub find-remove : (id : Bytes) (hs : List Held) → find id (remove id hs) ≡ none
unfolding find remove
find-remove id [] = refl
find-remove id (h ∷ hs) = elim (Bool-cases (bytes_eq h.id id)) [
  | inl e ↦ rw e (find-remove id hs)
  | inr e ↦ rw (e, e) (find-remove id hs)
]

pub find-remove_other : (id j : Bytes) (hs : List Held) → j ≢ id → find j (remove id hs) ≡ find j hs
unfolding find remove
find-remove_other id j [] ne = refl
find-remove_other id j (h ∷ hs) ne =
    let rest = find-remove_other id j hs ne in
    elim (Bool-cases (bytes_eq h.id id)) [
      | inl e ↦
          let k : bytes_eq h.id j ≡ false =
            bytes_eq_ne h.id j (λ s. ne (sym s ∙ bytes_eq_sound h.id id e)) in
          rw (e, k) (rest)
      | inr e ↦
          rw e (ap (λ (r : Option Terminal). if bytes_eq h.id j then some h.terminal else r) rest)
    ]

owned_by-other : (u : Bytes) (t : Terminal) → t.user_id ≢ u → owned_by u (some t) ≡ none
unfolding owned_by
owned_by-other u t ne = rw (bytes_eq_ne t.user_id u ne) refl

pub owned_by_sound :
    (u : Bytes) (o : Option Terminal) (t : Terminal)
    → owned_by u o ≡ some t
    → (o ≡ some t) × (t.user_id ≡ u)
unfolding owned_by
owned_by_sound u none t h = cc
owned_by_sound u (some s) t h = elim (Bool-cases (bytes_eq s.user_id u)) [
  | inl e ↦
      let k : some s ≡ some t = rw e at h in
      let same : s ≡ t = some-injective k in
      (k, ap (λ (r : Terminal). r.user_id) (sym same) ∙ bytes_eq_sound s.user_id u e)
  | inr e ↦ absurd (none-ne-some (rw e at h))
]

take_out-keeps :
    (m : Manager) (u id j : Bytes) (t : Terminal) (why : Bytes) (o : Option Terminal)
    → get m u id ≡ o
    → find j m.terminals ≡ some t
    → t.user_id ≢ u
    → find j (take_out m id why o).0.terminals ≡ some t
unfolding take_out get
take_out-keeps m u id j t why none e at ne = at
take_out-keeps m u id j t why (some s) e at ne =
    let own = owned_by_sound u (find id m.terminals) s e in
    let apart : j ≢ id = λ same.
      let both : find j m.terminals ≡ some s =
        ap (λ (i : Bytes). find i m.terminals) same ∙ own.0 in
      ne (ap (λ (r : Terminal). r.user_id) (some-injective (sym at ∙ both)) ∙ own.1) in
    find-remove_other id j m.terminals apart ∙ at

-- Somebody else's terminal stays, whichever terminal the user asks to have ended; asking for that one
-- gives the answer for a terminal that is not there, and changes nothing.
pub close_terminal-isolated :
    (m : Manager) (u id j : Bytes) (t : Terminal)
    → find j m.terminals ≡ some t
    → t.user_id ≢ u
    → (find j (close_terminal m u id).0.terminals ≡ some t)
      × (close_terminal m u j ≡ (m, some terminal_not_found))
unfolding close_terminal get take_out
close_terminal-isolated m u id j t at ne =
    let unseen : get m u j ≡ none = rw at (owned_by-other u t ne) in
    (take_out-keeps m u id j t _ (get m u id) refl at ne, rw unseen (refl))
