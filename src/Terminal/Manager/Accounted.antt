-- ===== src/Terminal/Manager/Accounted.antt =====
-- session.go: the manager loses no terminal: one that was opened is in the map or has been closed.
use secure_crt.Base.{
  ℕ, suc, ◌+◌, ◌≤◌, ◌≡◌, refl, sym, ap, ◌∙◌, false, Option, none, some, List, [], ◌∷◌, ◌++◌,
  Bool-cases, inl, inr, if◌then◌else◌, Bytes, bytes_eq, bytes_eq_sound, arith,
}
use secure_crt.Terminal.Session.{Call, Terminal}
use secure_crt.Terminal.Manager.{
  Held, Manager, new_manager, find, remove, open_, close_terminal, close_any, shut_down, change,
  kept, abandoned, close_all, expired, reap_once, get, owned_by, take_out, ManagerCall, opens,
  user_closes, administrator_closes, reaps, terminal_called, shuts_down, after_manager_call,
  after_manager_calls,
}
use secure_crt.Terminal.Manager.Owned.{owned_by_sound}
use secure_crt.Terminal.Manager.Tidy.{IsTidy, after_manager_calls-IsTidy}

-- How often an identifier stands in a list, and how often a terminal is opened under it.
abbrev pub times : Bytes → List Held → ℕ
times id [] = 0
times id (h ∷ hs) = if bytes_eq h.id id then suc (times id hs) else times id hs

abbrev pub opened_times : Bytes → List ManagerCall → ℕ
opened_times id [] = 0
opened_times id (opens j p ∷ calls) =
    if bytes_eq j id then suc (opened_times id calls) else opened_times id calls
opened_times id (user_closes user_id j ∷ calls) = opened_times id calls
opened_times id (administrator_closes j ∷ calls) = opened_times id calls
opened_times id (reaps now ∷ calls) = opened_times id calls
opened_times id (terminal_called j call ∷ calls) = opened_times id calls
opened_times id (shuts_down ∷ calls) = opened_times id calls

-- In the map or closed.
abbrev pub accounted : Bytes → Manager → ℕ
accounted id m = times id m.terminals + times id m.closed

times-append : (id : Bytes) (hs ks : List Held) → times id (hs ++ ks) ≡ times id hs + times id ks
times-append id [] ks = omega arith
times-append id (h ∷ hs) ks = elim (Bool-cases (bytes_eq h.id id)) [
  | inl e ↦ rw e (omega (arith, times-append id hs ks))
  | inr e ↦ rw e (times-append id hs ks)
]

times-close_all : (id why : Bytes) (hs : List Held) → times id (close_all why hs) ≡ times id hs
unfolding close_all
times-close_all id why [] = refl
times-close_all id why (h ∷ hs) = elim (Bool-cases (bytes_eq h.id id)) [
  | inl e ↦ rw e (ap suc (times-close_all id why hs))
  | inr e ↦ rw e (times-close_all id why hs)
]

times-change :
    (id j : Bytes) (call : Call) (hs : List Held) → times id (change j call hs) ≡ times id hs
unfolding change
times-change id j call [] = refl
times-change id j call (h ∷ hs) = elim (Bool-cases (bytes_eq h.id j)) [
  | inl a ↦ elim (Bool-cases (bytes_eq h.id id)) [
    | inl e ↦ rw (a, e) (ap suc (times-change id j call hs))
    | inr e ↦ rw (a, e) (times-change id j call hs)
  ]
  | inr a ↦ elim (Bool-cases (bytes_eq h.id id)) [
    | inl e ↦ rw (a, e) (ap suc (times-change id j call hs))
    | inr e ↦ rw (a, e) (times-change id j call hs)
  ]
]

times-reaped :
    (id : Bytes) (now : ℕ) (hs : List Held)
    → times id (kept now hs) + times id (abandoned now hs) ≡ times id hs
unfolding kept abandoned
times-reaped id now [] = omega arith
times-reaped id now (h ∷ hs) =
    let rest = times-reaped id now hs in
    elim (Bool-cases (expired now h.terminal)) [
      | inl a ↦ elim (Bool-cases (bytes_eq h.id id)) [
        | inl e ↦ rw (a, e) (omega (arith, rest))
        | inr e ↦ rw (a, e) rest
      ]
      | inr a ↦ elim (Bool-cases (bytes_eq h.id id)) [
        | inl e ↦ rw (a, e) (omega (arith, rest))
        | inr e ↦ rw (a, e) rest
      ]
    ]

times-remove_self : (id : Bytes) (hs : List Held) → times id (remove id hs) ≡ 0
unfolding remove
times-remove_self id [] = refl
times-remove_self id (h ∷ hs) = elim (Bool-cases (bytes_eq h.id id)) [
  | inl e ↦ rw e (times-remove_self id hs)
  | inr e ↦ rw (e, e) (times-remove_self id hs)
]

times-remove_ne :
    (id j : Bytes) (hs : List Held) → bytes_eq j id ≡ false → times id (remove j hs) ≡ times id hs
unfolding remove
times-remove_ne id j [] other = refl
times-remove_ne id j (h ∷ hs) other = elim (Bool-cases (bytes_eq h.id j)) [
  | inl a ↦
      let off : bytes_eq h.id id ≡ false =
        ap (λ i. bytes_eq i id) (bytes_eq_sound h.id j a) ∙ other in
      rw (a, off) (times-remove_ne id j hs other)
  | inr a ↦ elim (Bool-cases (bytes_eq h.id id)) [
    | inl e ↦ rw (a, e) (ap suc (times-remove_ne id j hs other))
    | inr e ↦ rw (a, e) (times-remove_ne id j hs other)
  ]
]

find-times : (id : Bytes) (hs : List Held) (t : Terminal) → find id hs ≡ some t → 1 ≤ times id hs
unfolding find
find-times id [] t h = cc
find-times id (h ∷ hs) t found = elim (Bool-cases (bytes_eq h.id id)) [
  | inl e ↦ rw e (omega arith)
  | inr e ↦ rw e (find-times id hs t (rw e at found))
]

-- A terminal that is found is taken out, and closed, once.
take_out-accounted :
    (id : Bytes) (m : Manager) (j why : Bytes) (o : Option Terminal)
    → ((t : Terminal) → o ≡ some t → find j m.terminals ≡ some t)
    → accounted id m ≤ 1
    → accounted id (take_out m j why o).0 ≡ accounted id m
unfolding take_out
take_out-accounted id m j why none found l = refl
take_out-accounted id m j why (some t) found l = elim (Bool-cases (bytes_eq j id)) [
  | inl e ↦
      let same : j ≡ id = bytes_eq_sound j id e in
      let here : 1 ≤ times id m.terminals =
        find-times id m.terminals t (ap (λ i. find i m.terminals) (sym same) ∙ found t refl) in
      let gone : times id (remove j m.terminals) ≡ 0 =
        ap (λ i. times id (remove i m.terminals)) same ∙ times-remove_self id m.terminals in
      rw (e, gone) (omega (arith, here, l))
  | inr e ↦ rw (e, times-remove_ne id j m.terminals e) refl
]

-- The call alone.
abbrev opened_by : Bytes → ManagerCall → ℕ
opened_by id call = opened_times id (call ∷ [])

opened_times-cons :
    (id : Bytes) (call : ManagerCall) (calls : List ManagerCall)
    → opened_times id (call ∷ calls) ≡ opened_by id call + opened_times id calls
opened_times-cons id (opens j p) calls = elim (Bool-cases (bytes_eq j id)) [
  | inl e ↦ rw e (omega arith)
  | inr e ↦ rw e (omega arith)
]
opened_times-cons id (user_closes user_id j) calls = omega arith
opened_times-cons id (administrator_closes j) calls = omega arith
opened_times-cons id (reaps now) calls = omega arith
opened_times-cons id (terminal_called j call) calls = omega arith
opened_times-cons id shuts_down calls = omega arith

call-accounted :
    (id : Bytes) (m : Manager) (call : ManagerCall)
    → accounted id m + opened_by id call ≤ 1
    → accounted id (after_manager_call m call) ≡ accounted id m + opened_by id call
unfolding after_manager_call open_ close_terminal get close_any reap_once shut_down
call-accounted id m (opens j p) l = elim (Bool-cases (bytes_eq j id)) [
  | inl e ↦
      let same : j ≡ id = bytes_eq_sound j id e in
      let gone : times id (remove j m.terminals) ≡ 0 =
        ap (λ i. times id (remove i m.terminals)) same ∙ times-remove_self id m.terminals in
      let l' : accounted id m + 1 ≤ 1 = rw e at l in rw (e, gone) (omega (arith, l'))
  | inr e ↦ rw (e, times-remove_ne id j m.terminals e) (omega arith)
]
call-accounted id m (user_closes user_id j) l =
    take_out-accounted id m j _ (owned_by user_id (find j m.terminals))
      (λ t e. (owned_by_sound user_id (find j m.terminals) t e).0) (omega (arith, l))
    ∙ omega arith
call-accounted id m (administrator_closes j) l =
    take_out-accounted id m j _ (find j m.terminals) (λ t e. e) (omega (arith, l)) ∙ omega arith
call-accounted id m (reaps now) l =
    rw (times-append id _ m.closed, times-close_all id _ (abandoned now m.terminals))
      (omega (arith, times-reaped id now m.terminals))
call-accounted id m (terminal_called j call) l =
    rw (times-change id j call m.terminals, times-change id j call m.closed) (omega arith)
call-accounted id m shuts_down l =
    rw (times-append id _ m.closed, times-close_all id _ m.terminals) (omega arith)

calls-accounted :
    (id : Bytes) (m : Manager) (calls : List ManagerCall)
    → accounted id m + opened_times id calls ≤ 1
    → accounted id (after_manager_calls m calls) ≡ accounted id m + opened_times id calls
unfolding after_manager_calls
calls-accounted id m [] l = omega arith
calls-accounted id m (call ∷ calls) l =
    let split = opened_times-cons id call calls in
    let one = call-accounted id m call (omega (arith, l, split)) in
    omega (
      arith,
      split,
      one,
      calls-accounted id (after_manager_call m call) calls (omega (arith, l, split, one)),
    )

-- After any calls of a manager and of its terminals, under an identifier that no two terminals were opened with:
-- the terminal that was opened with it, if one was, is either in the map or was taken out of it once, by its user,
-- an administrator, the reaper or the shutdown; and of all that were taken out the shell has been closed and the
-- resource given back exactly once, which have not happened to a terminal that runs in the map.
pub after_manager_calls_lem :
    (calls : List ManagerCall) (id : Bytes)
    → opened_times id calls ≤ 1
    → IsTidy (after_manager_calls new_manager calls)
      × (times id (after_manager_calls new_manager calls).terminals
            + times id (after_manager_calls new_manager calls).closed
          ≡ opened_times id calls)
after_manager_calls_lem calls id l = (
  after_manager_calls-IsTidy calls,
  calls-accounted id new_manager calls (omega (arith, l)) ∙ omega arith,
)
