-- ===== src/Terminal/Triggers/Refire.antt =====
-- triggers.go: chunks in which a line ends and the next begins. The marks are cleared while the
-- chunk is read, and the lines are matched after that.
use secure_crt.Base.{
  ℕ, suc, ◌<◌, ◌≡◌, refl, Bool, true, false, ◌||◌, List, [], ◌∷◌, ◌++◌, append_assoc, arith, Bytes,
  length,
}
use secure_crt.Sessions.Rules.{Trigger, trigger_notify, fires}
use secure_crt.Terminal.Triggers.{
  Regexp, CompiledTrigger, Effect, notifies, TriggerShell, rearm, take_byte, take_lines, skips,
  action_of, event_of, run_rules, any_stop, perform, match_line, match_lines, observe, observe_all,
  trigger_line_limit, is_break,
}
use secure_crt.Terminal.Triggers.Lines.{OneLine, take_lines-piece}

-- A rule that tells somebody, and has not fired in this session.
abbrev pub new_rule : Trigger → CompiledTrigger
new_rule r = record { rule = r; fired = 0; fired_this_line = false }

-- A shell with one such rule and somebody to tell, in the middle of a session.
abbrev pub shell : Bytes → Bytes → CompiledTrigger → Bytes → List Effect → TriggerShell
shell username password c line effects = record {
  username = username;
  password = password;
  has_sink = true;
  triggers = c ∷ [];
  line = line;
  stopped = false;
  line_ended = false;
  effects = effects;
}

-- One that has just been opened.
abbrev pub watching : Bytes → Bytes → CompiledTrigger → TriggerShell
watching username password c = shell username password c [] []

-- The rule after a firing.
abbrev marked : CompiledTrigger → CompiledTrigger
marked c = record c { fired = suc c.fired; fired_this_line = true }

module _ (re : Regexp) (write_ok : List Effect → Bytes → Bool) where
  action_of-notify :
      (t : TriggerShell) (c : CompiledTrigger) (line : Bytes)
      → c.rule.action ≡ trigger_notify
      → action_of re t c line ≡ record { event = event_of re c line; send = []; stop = false }
  action_of-notify t c line a = ground arith

  -- A notify rule that may fire on the line tells it, and is marked.
  match_line-fires :
      (t : TriggerShell) (c : CompiledTrigger) (line : Bytes)
      → t.triggers ≡ c ∷ []
      → t.has_sink ≡ true
      → c.rule.action ≡ trigger_notify
      → skips re c line ≡ false
      → match_line re write_ok t line ≡ record t {
        triggers = marked c ∷ [];
        stopped = t.stopped || false;
        effects = t.effects ++ notifies (event_of re c line) ∷ [];
      }
  unfolding match_line run_rules any_stop perform
  match_line-fires t c line e k a s = simp (e, k, s, action_of-notify t c line a)

  match_line-marked :
      (t : TriggerShell) (c : CompiledTrigger) (line : Bytes)
      → t.triggers ≡ c ∷ []
      → c.fired_this_line ≡ true
      → (match_line re write_ok t line).effects ≡ t.effects
  unfolding match_line run_rules skips perform
  match_line-marked t c line e m = simp (e, m)

take_lines-append :
    (t : TriggerShell) (xs ys : Bytes)
    → take_lines t (xs ++ ys) ≡ (
      (take_lines (take_lines t xs).0 ys).0,
      (take_lines t xs).1 ++ (take_lines (take_lines t xs).0 ys).1,
    )
unfolding take_lines
take_lines-append t [] ys = refl
take_lines-append t (x ∷ xs) ys = rw (take_lines-append (take_byte t x).0 xs ys, append_assoc)

module _ (re : Regexp) (write_ok : List Effect → Bytes → Bool) (username password : Bytes)
    (r : Trigger) (is_notify : r.action ≡ trigger_notify) where
  ready :
      (n : ℕ) (line : Bytes)
      → n < fires r
      → re.match_string r.pattern line ≡ true
      → skips re (record { rule = r; fired = n; fired_this_line = false }) line ≡ false
  unfolding skips
  ready n line f m = ground arith

  -- A first piece of a line is told if the rule matches it.
  observe_first :
      (a : ℕ) (l : Bytes)
      → 0 < fires r
      → re.match_string r.pattern (a ∷ l) ≡ true
      → OneLine (a ∷ l)
      → length (a ∷ l) < trigger_line_limit
      → observe re write_ok (watching username password (new_rule r)) (a ∷ l)
        ≡ shell username password
            (marked (new_rule r))
            (a ∷ l)
            (notifies (event_of re (new_rule r) (a ∷ l)) ∷ [])
  unfolding observe match_lines
  observe_first a l f m h s =
      rw (take_lines-piece (watching username password (new_rule r)) (a ∷ l) refl h (omega arith)) (
        match_line-fires re write_ok (shell username password (new_rule r) (a ∷ l) []) (new_rule r)
          (a ∷ l) refl refl is_notify (ready 0 (a ∷ l) f m))

  -- The end of that line and the start of the next, in one chunk.
  observe_next :
      (n : ℕ) (b : Bool) (a : ℕ) (l : Bytes) (x : ℕ) (effects : List Effect)
      → n < fires r
      → re.match_string r.pattern (a ∷ l) ≡ true
      → is_break x ≡ false
      → (observe re write_ok
          (shell username password
            (record { rule = r; fired = n; fired_this_line = b })
            (a ∷ l)
            effects)
          (10 ∷ x ∷ [])).effects
        ≡ effects ++ notifies (event_of re (new_rule r) (a ∷ l)) ∷ []
  unfolding observe match_lines take_lines take_byte rearm event_of
  observe_next n b a l x effects f m e =
      rw
        (
          e,
          match_line-fires re write_ok
              (shell username password (record { rule = r; fired = n; fired_this_line = false })
                (x ∷ []) effects)
              (record { rule = r; fired = n; fired_this_line = false }) (a ∷ l) refl refl is_notify
              (ready n (a ∷ l) f m),
        )
        (match_line-marked re write_ok _
          (marked (record { rule = r; fired = n; fired_this_line = false })) (x ∷ []) refl refl)

  -- The second chunk of a session ends the line of the first, L, and begins another. A notify rule
  -- that matches L and may fire twice tells L twice: once while L stood there unfinished, and again
  -- when it was finished, although no other line came between.
  pub told_twice :
      (a : ℕ) (l : Bytes) (x : ℕ)
      → 1 < fires r
      → re.match_string r.pattern (a ∷ l) ≡ true
      → OneLine (a ∷ l)
      → is_break x ≡ false
      → length (a ∷ l) < trigger_line_limit
      → (observe_all re write_ok
          (watching username password (new_rule r))
          ((a ∷ l) ∷ (10 ∷ x ∷ []) ∷ [])).effects
        ≡ notifies (event_of re (new_rule r) (a ∷ l))
          ∷ notifies (event_of re (new_rule r) (a ∷ l))
          ∷ []
  unfolding observe_all
  told_twice a l x f m h bx s =
      rw (observe_first a l (omega arith) m h s)
        (observe_next 1 true a l x (notifies (event_of re (new_rule r) (a ∷ l)) ∷ []) f m bx)

  -- A whole line, its terminator and the start of the next, in the first chunk of a session.
  two_lines :
      (a : ℕ) (l : Bytes) (x : ℕ) (k : Bytes)
      → OneLine (a ∷ l)
      → OneLine (x ∷ k)
      → length (a ∷ l) < trigger_line_limit
      → length (x ∷ k) < trigger_line_limit
      → take_lines (watching username password (new_rule r)) ((a ∷ l) ++ 10 ∷ x ∷ k)
        ≡ (shell username password (new_rule r) (x ∷ k) [], (a ∷ l) ∷ [])
  two_lines a l x k h h' s s' =
      let t = watching username password (new_rule r) in
      rw (take_lines-append t (a ∷ l) (10 ∷ x ∷ k), take_lines-piece t (a ∷ l) refl h (omega arith))
        (next h'.0)
    where
      next :
          is_break x ≡ false
          → ◌≡◌ {A = TriggerShell × List Bytes}
              (
                (take_lines
                    (record (watching username password (new_rule r)) {
                      line = a ∷ l;
                      line_ended = false;
                    })
                    (10 ∷ x ∷ k)).0,
                (take_lines
                    (record (watching username password (new_rule r)) {
                      line = a ∷ l;
                      line_ended = false;
                    })
                    (10 ∷ x ∷ k)).1,
              )
              (shell username password (new_rule r) (x ∷ k) [], (a ∷ l) ∷ [])
      next e =
          unfold take_lines take_byte rearm in
          rw e (
            unfold take_lines in
            rw (
              take_lines-piece (shell username password (new_rule r) (x ∷ []) []) k refl h'.1
                (omega arith)))

  -- The first chunk of a session holds the whole line A and the start B of the next. A notify rule
  -- that matches both, and may fire more than once, tells A only.
  pub told_once :
      (a : ℕ) (l : Bytes) (x : ℕ) (k : Bytes)
      → 1 < fires r
      → re.match_string r.pattern (a ∷ l) ≡ true
      → re.match_string r.pattern (x ∷ k) ≡ true
      → OneLine (a ∷ l)
      → OneLine (x ∷ k)
      → length (a ∷ l) < trigger_line_limit
      → length (x ∷ k) < trigger_line_limit
      → (observe re write_ok
          (watching username password (new_rule r))
          ((a ∷ l) ++ 10 ∷ x ∷ k)).effects
        ≡ notifies (event_of re (new_rule r) (a ∷ l)) ∷ []
  unfolding observe match_lines
  told_once a l x k f m m' h h' s s' =
      let c = new_rule r in
      rw
        (
          two_lines a l x k h h' s s',
          match_line-fires re write_ok (shell username password c (x ∷ k) []) c (a ∷ l) refl refl
              is_notify (ready 0 (a ∷ l) (omega arith) m),
        )
        (match_line-marked re write_ok _ (marked c) (x ∷ k) refl refl)
