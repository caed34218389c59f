-- ===== src/Terminal/Manager/Reaped.antt =====
-- session.go: which terminals `reapOnce` takes, and that whatever is taken is closed once.
use mathlib.Core.Path.{subst}
use secure_crt.Base.{
  ◌&&◌, ltb→lt, lt→ltb, ◌≡◌, ◌≢◌, ◌⊎◌, ◌<◌, refl, sym, ap, ◌∙◌, inl, inr, true, false, Bool-cases,
  Option, none, some, List, [], ◌∷◌, if◌then◌else◌, Bytes, bytes_eq, bytes_eq_sound, bytes_eq_ne, ℕ,
  ◌-◌, All,
}
use secure_crt.Terminal.Session.{Terminal}
use secure_crt.Terminal.Manager.{
  Held, new_manager, find, kept, expired, overdue, is_none, reap_once, detached_grace, ManagerCall,
  after_manager_calls,
}
use secure_crt.Terminal.Manager.Tidy.{Distinct, true-ne-false, after_manager_calls-IsTidy}

find-apart : (id : Bytes) (hs : List Held) → All (λ (x : Held). x.id ≢ id) hs → find id hs ≡ none
unfolding find
find-apart id [] a = refl
find-apart id (h ∷ hs) (p, ps) = rw (bytes_eq_ne h.id id p) (find-apart id hs ps)

-- What `reapOnce` leaves under an identifier.
abbrev pub spared : ℕ → Option Terminal → Option Terminal
spared now none = none
spared now (some t) = if expired now t then none else some t

find-kept :
    (now : ℕ) (id : Bytes) (hs : List Held)
    → Distinct hs
    → find id (kept now hs) ≡ spared now (find id hs)
unfolding find kept
find-kept now id [] d = refl
find-kept now id (h ∷ hs) (fresh, d) =
    let rest = find-kept now id hs d in
    elim (Bool-cases (expired now h.terminal)) [
      | inl e ↦ elim (Bool-cases (bytes_eq h.id id)) [
        | inl at ↦
            let gone : find id hs ≡ none =
              subst (λ (i : Bytes). find i hs ≡ none) (bytes_eq_sound h.id id at)
                (find-apart h.id hs fresh) in
            rw (e, at, e) (rest ∙ ap (spared now) gone)
        | inr off ↦ rw (e, off) (rest)
      ]
      | inr e ↦ elim (Bool-cases (bytes_eq h.id id)) [
        | inl at ↦ rw (e, at, e) (refl)
        | inr off ↦ rw (e, off) (rest)
      ]
    ]

-- Nobody is attached, and the last browser left longer ago than the grace.
abbrev pub Overdue : ℕ → Terminal → Type 0
Overdue now t =
    (t.attached ≡ none)
    × ((since : ℕ) × (t.detached_at ≡ some since) × (detached_grace < now - since))

overdue_sound :
    (now : ℕ) (d : Option ℕ)
    → overdue now d ≡ true
    → (since : ℕ) × (d ≡ some since) × (detached_grace < now - since)
overdue_sound now none h = cc
overdue_sound now (some since) h = (since, refl, ltb→lt _ _ h)

expired_sound :
    (now : ℕ) (t : Terminal) (a : Option ℕ)
    → t.attached ≡ a
    → is_none a && overdue now t.detached_at ≡ true
    → Overdue now t
expired_sound now t none e h = (e, overdue_sound now t.detached_at h)
expired_sound now t (some i) e h = cc

expired_complete : (now : ℕ) (t : Terminal) → expired now t ≡ false → ¬ Overdue now t
unfolding expired
expired_complete now t h (gone, (since, at, late)) =
    absurd (true-ne-false (sym (lt→ltb _ _ late) ∙ rw (gone, at) at h))

-- After any calls, `reapOnce` takes a terminal out exactly when nobody is attached to it and its last
-- browser left longer ago than the grace; all others stay as they were. A terminal to which no browser
-- has come yet has no such time, and stays.
pub reap_once-Overdue :
    (calls : List ManagerCall) (now : ℕ) (id : Bytes) (t : Terminal)
    → find id (after_manager_calls new_manager calls).terminals ≡ some t
    → (Overdue now t
        × (find id (reap_once (after_manager_calls new_manager calls) now).terminals ≡ none))
      ⊎ ((¬ Overdue now t)
          × (find id (reap_once (after_manager_calls new_manager calls) now).terminals ≡ some t))
unfolding reap_once expired
reap_once-Overdue calls now id t at =
    let m = after_manager_calls new_manager calls in
    let left : find id (kept now m.terminals) ≡ spared now (some t) =
      find-kept now id m.terminals (after_manager_calls-IsTidy calls).distinct
      ∙ ap (spared now) at in
    elim (Bool-cases (expired now t)) [
      | inl e ↦ inl (expired_sound now t t.attached refl e, left ∙ rw e refl)
      | inr e ↦ inr (expired_complete now t e, left ∙ rw e refl)
    ]
