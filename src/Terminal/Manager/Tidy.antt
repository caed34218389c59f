-- ===== src/Terminal/Manager/Tidy.antt =====
-- session.go: the terminals in the manager's map, and those that it has taken out.
use mathlib.Core.Path.{subst}
use secure_crt.Base.{
  ◌≡◌, ◌≢◌, refl, inl, inr, true, false, Bool-cases, Option, none, some, List, [], ◌∷◌, if-rule,
  Bytes, bytes_eq, bytes_eq_apart, ℕ, All, All-append,
}
use secure_crt.Terminal.Session.{Terminal, close, deliberate, Call, after_call}
use secure_crt.Terminal.Session.Lifecycle.{close-IsSound, after_call-IsSound}
use secure_crt.Terminal.Session.Sound.{IsSound, open_terminal-IsSound}
use secure_crt.Terminal.Session.Ended.{close-closed, after_call-closed}
use secure_crt.Terminal.Manager.{
  Held, Manager, new_manager, find, remove, open_, close_terminal, close_any, shut_down, change,
  kept, abandoned, close_all, expired, reap_once, get, owned_by, take_out, ManagerCall, opens,
  user_closes, administrator_closes, reaps, terminal_called, shuts_down, after_manager_call,
  after_manager_calls,
}
use secure_crt.Terminal.Manager.Owned.{owned_by_sound, some-injective}

-- Each identifier stands once.
abbrev pub Distinct : List Held → Type 0
Distinct [] = Unit
Distinct (h ∷ hs) = All (λ (x : Held). x.id ≢ h.id) hs × Distinct hs

abbrev pub IsLive : Held → Type 0
IsLive h = IsSound h.terminal

pub record IsOver (h : Held) : Type 0 where
  pub sound : IsSound h.terminal
  pub over : h.terminal.closed ≡ true

pub record IsTidy (m : Manager) : Type 0 where
  pub distinct : Distinct m.terminals
  pub live : All IsLive m.terminals
  pub ended : All IsOver m.closed

module _ {κ} (P : Held → Type κ) where
  remove-All : (id : Bytes) (hs : List Held) → All P hs → All P (remove id hs)
  unfolding remove
  remove-All id [] a = a
  remove-All id (h ∷ hs) (p, ps) =
      let rest = remove-All id hs ps in
      if-rule (All P) (bytes_eq h.id id) (λ e. rest) (λ e. (p, rest))

  kept-All : (now : ℕ) (hs : List Held) → All P hs → All P (kept now hs)
  unfolding kept
  kept-All now [] a = a
  kept-All now (h ∷ hs) (p, ps) =
      let rest = kept-All now hs ps in
      if-rule (All P) (expired now h.terminal) (λ e. rest) (λ e. (p, rest))

  abandoned-All : (now : ℕ) (hs : List Held) → All P hs → All P (abandoned now hs)
  unfolding abandoned
  abandoned-All now [] a = a
  abandoned-All now (h ∷ hs) (p, ps) =
      let rest = abandoned-All now hs ps in
      if-rule (All P) (expired now h.terminal) (λ e. (p, rest)) (λ e. rest)

  change-All :
      (id : Bytes) (call : Call) (hs : List Held)
      → ((h : Held) → P h → P (record h { terminal = after_call h.terminal call }))
      → All P hs
      → All P (change id call hs)
  unfolding change
  change-All id call [] f a = a
  change-All id call (h ∷ hs) f (p, ps) =
      let rest = change-All id call hs f ps in
      if-rule (All P) (bytes_eq h.id id) (λ e. (f h p, rest)) (λ e. (p, rest))

pub true-ne-false : true ≢ false
true-ne-false h = cc

pub remove-apart : (id : Bytes) (hs : List Held) → All (λ (x : Held). x.id ≢ id) (remove id hs)
unfolding remove
remove-apart id [] = tt
remove-apart id (h ∷ hs) =
    let rest = remove-apart id hs in
    if-rule (All (λ (x : Held). x.id ≢ id)) (bytes_eq h.id id) (λ e. rest)
      (λ e. (bytes_eq_apart h.id id e, rest))

pub remove-Distinct : (id : Bytes) (hs : List Held) → Distinct hs → Distinct (remove id hs)
unfolding remove
remove-Distinct id [] d = d
remove-Distinct id (h ∷ hs) (a, d) =
    let rest = remove-Distinct id hs d in
    if-rule Distinct (bytes_eq h.id id) (λ e. rest)
      (λ e. (remove-All (λ (x : Held). x.id ≢ h.id) id hs a, rest))

pub kept-Distinct : (now : ℕ) (hs : List Held) → Distinct hs → Distinct (kept now hs)
unfolding kept
kept-Distinct now [] d = d
kept-Distinct now (h ∷ hs) (a, d) =
    let rest = kept-Distinct now hs d in
    if-rule Distinct (expired now h.terminal) (λ e. rest)
      (λ e. (kept-All (λ (x : Held). x.id ≢ h.id) now hs a, rest))

pub change-Distinct :
    (id : Bytes) (call : Call) (hs : List Held) → Distinct hs → Distinct (change id call hs)
unfolding change
change-Distinct id call [] d = d
change-Distinct id call (h ∷ hs) (a, d) =
    let rest = change-Distinct id call hs d in
    let a' = change-All (λ (x : Held). x.id ≢ h.id) id call hs (λ x p. p) a in
    if-rule Distinct (bytes_eq h.id id) (λ e. (a', rest)) (λ e. (a', rest))

pub ended :
    (t : Terminal) (id why : Bytes)
    → IsSound t
    → IsOver (record { id = id; terminal = close t (deliberate why) })
ended t id why s = record {
  sound = close-IsSound t (deliberate why) s;
  over = close-closed t (deliberate why);
}

pub close_all-IsOver :
    (why : Bytes) (hs : List Held) → All IsLive hs → All IsOver (close_all why hs)
unfolding close_all
close_all-IsOver why [] a = a
close_all-IsOver why (h ∷ hs) (p, ps) = (ended h.terminal h.id why p, close_all-IsOver why hs ps)

pub find-live :
    (id : Bytes) (hs : List Held) (t : Terminal) → find id hs ≡ some t → All IsLive hs → IsSound t
unfolding find
find-live id [] t e a = cc
find-live id (h ∷ hs) t e (p, ps) = elim (Bool-cases (bytes_eq h.id id)) [
  | inl at ↦ let k : some h.terminal ≡ some t = rw at at e in subst IsSound (some-injective k) p
  | inr off ↦ find-live id hs t (rw off at e) ps
]

pub taken_out-IsTidy :
    (m : Manager) (id why : Bytes) (o : Option Terminal)
    → ((t : Terminal) → o ≡ some t → IsSound t)
    → IsTidy m
    → IsTidy (take_out m id why o).0
unfolding take_out
taken_out-IsTidy m id why none f v = v
taken_out-IsTidy m id why (some t) f v = record {
  distinct = remove-Distinct id m.terminals v.distinct;
  live = remove-All IsLive id m.terminals v.live;
  ended = (ended t id why (f t refl), v.ended);
}

pub after_manager_call-IsTidy :
    (m : Manager) (call : ManagerCall) → IsTidy m → IsTidy (after_manager_call m call)
unfolding after_manager_call open_ close_terminal get close_any reap_once shut_down
after_manager_call-IsTidy m (opens id p) v = record {
  distinct = (remove-apart id m.terminals, remove-Distinct id m.terminals v.distinct);
  live = (open_terminal-IsSound p, remove-All IsLive id m.terminals v.live);
  ended = v.ended;
}
after_manager_call-IsTidy m (user_closes user_id id) v =
    taken_out-IsTidy m id _ (owned_by user_id (find id m.terminals))
      (λ t e.
        find-live id m.terminals t (owned_by_sound user_id (find id m.terminals) t e).0 v.live)
      v
after_manager_call-IsTidy m (administrator_closes id) v =
    taken_out-IsTidy m id _ (find id m.terminals) (λ t e. find-live id m.terminals t e v.live) v
after_manager_call-IsTidy m (reaps now) v = record {
  distinct = kept-Distinct now m.terminals v.distinct;
  live = kept-All IsLive now m.terminals v.live;
  ended =
      All-append IsOver _ m.closed
        (close_all-IsOver _ (abandoned now m.terminals)
          (abandoned-All IsLive now m.terminals v.live))
        v.ended;
}
after_manager_call-IsTidy m (terminal_called id call) v = record {
  distinct = change-Distinct id call m.terminals v.distinct;
  live = change-All IsLive id call m.terminals (λ h s. after_call-IsSound h.terminal call s) v.live;
  ended =
      change-All IsOver id call m.closed
        (λ h o. record {
          sound = after_call-IsSound h.terminal call o.sound;
          over = after_call-closed h.terminal call o.over;
        })
        v.ended;
}
after_manager_call-IsTidy m shuts_down v = record {
  distinct = tt;
  live = tt;
  ended = All-append IsOver _ m.closed (close_all-IsOver _ m.terminals v.live) v.ended;
}

pub calls-IsTidy :
    (m : Manager) (calls : List ManagerCall) → IsTidy m → IsTidy (after_manager_calls m calls)
unfolding after_manager_calls
calls-IsTidy m [] v = v
calls-IsTidy m (call ∷ calls) v =
    calls-IsTidy (after_manager_call m call) calls (after_manager_call-IsTidy m call v)

-- After any calls of a manager and of its terminals, each identifier stands for one terminal of the map, whose
-- shell has not been closed while it runs; and of every terminal in the list of those that were taken out the
-- shell has been closed and the resource given back exactly once.
pub after_manager_calls-IsTidy :
    (calls : List ManagerCall) → IsTidy (after_manager_calls new_manager calls)
after_manager_calls-IsTidy calls =
    calls-IsTidy new_manager calls (record { distinct = tt; live = tt; ended = tt })
