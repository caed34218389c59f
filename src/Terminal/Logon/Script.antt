-- ===== src/Terminal/Logon/Script.antt =====
-- logon.go: what a login sequence types.
use secure_crt.Base.{
  ℕ, ◌+◌, ◌≡◌, ◌≢◌, refl, sym, ap, ◌∙◌, Bool, true, false, some, List, [], ◌∷◌, ◌++◌, append_assoc,
  arith, ltb, if◌then◌else◌, if-rule, Bytes, length,
}
use mathlib.Core.Path.{subst}
use secure_crt.Sessions.Rules.{is_empty}
use secure_crt.Sessions.Logon.{LogonStep, matches}
use secure_crt.Terminal.Logon.{
  LogonShell, with_logon, typed_by, last_bytes, no_steps, Fired, fire, write_out, carry_out,
  observe, LogonEvent, reads, keystrokes, after_event, after_events,
}

-- All that a sequence of steps would type, one text for each step that types anything.
abbrev pub script : Bytes → Bytes → List LogonStep → List Bytes
script username password [] = []
script username password (s ∷ steps) =
    typed_by username password s ++ script username password steps

some-elim : (P : LogonShell → Type 0) {l l' : LogonShell} → some l ≡ some l' → P l → P l'
some-elim P h p = subst P (some-injective h) p
  where
    some-injective : {l l' : LogonShell} → some l ≡ some l' → l ≡ l'
    some-injective h = cc

true-ne-false : true ≢ false
true-ne-false h = cc

not_failed : (b c : Bool) → (if b then true else c) ≡ false → b ≡ false
not_failed true c h = absurd (cc h)
not_failed false c h = refl

module _ (to_lower : Bytes → Bytes) where
  -- The loop takes steps off the front, and types what they type.
  record Taken (username password : Bytes) (steps : List LogonStep) (f : Fired) : Type 0 where
    typed : f.to_send ++ script username password f.steps ≡ script username password steps
    counted : f.sent + length f.steps ≡ length steps

  fire-Taken :
      (username password : Bytes) (steps : List LogonStep) (window : Bytes)
      → Taken username password steps (fire to_lower username password steps window)
  unfolding fire
  fire-Taken username password [] window = record { typed = refl; counted = refl }
  fire-Taken username password (s ∷ steps) window =
      let rest = fire-Taken username password steps [] in
      if-rule (Taken username password (s ∷ steps)) (matches to_lower s window)
        (λ _. record {
          typed = rw (append_assoc, rest.typed) refl;
          counted = omega (arith, rest.counted);
        })
        (λ _. record { typed = refl; counted = omega arith })

  module _ (write_ok : List Bytes → Bytes → Bool) where
    -- What is written is the front of what was to be sent, and all of it when no write failed.
    record Sent (written outs : List Bytes) (r : List Bytes × Bool) : Type 0 where
      left : List Bytes
      front : r.0 ++ left ≡ written ++ outs
      whole : r.1 ≡ false → left ≡ []

    write_out-Sent :
        (written outs : List Bytes) → Sent written outs (write_out to_lower write_ok written outs)
    unfolding write_out
    write_out-Sent written [] = record { left = []; front = refl; whole = λ _. refl }
    write_out-Sent written (out ∷ outs) =
        let rest = write_out-Sent (written ++ out ∷ []) outs in
        if-rule (Sent written (out ∷ outs)) (write_ok written out)
          (λ _. record {
            left = rest.left;
            front = rest.front ∙ append_assoc written (out ∷ []) outs;
            whole = rest.whole;
          })
          (λ _. record {
            left = outs;
            front = append_assoc written (out ∷ []) outs;
            whole = λ e. cc e;
          })

    -- The state of a sequence that began with these steps.
    record Runs (username password : Bytes) (steps : List LogonStep) (l : LogonShell) : Type 0 where
      user : l.username ≡ username
      secret : l.password ≡ password
      left : List Bytes
      front : l.writes ++ left ≡ script username password steps
      going : l.done ≡ false → left ≡ script username password l.steps
      counted : l.sent + length l.steps ≡ length steps

    carry_out-Runs :
        (username password : Bytes) (steps : List LogonStep) (l : LogonShell) (window : Bytes)
        → l.done ≡ false
        → Runs username password steps l
        → Runs username password steps
            (carry_out to_lower write_ok l (fire to_lower l.username l.password l.steps window))
    carry_out-Runs username password steps l window open_ r =
        let f = fire to_lower l.username l.password l.steps window in
        let t = fire-Taken l.username l.password l.steps window in
        let w = write_out-Sent l.writes f.to_send in
        let rest = script username password f.steps in
        let typed : f.to_send ++ rest ≡ script username password l.steps =
          rw (← r.user, ← r.secret) t.typed in
        let wrote = write_out to_lower write_ok l.writes f.to_send in
        record {
          user = r.user;
          secret = r.secret;
          left = w.left ++ script username password f.steps;
          front =
              sym (append_assoc wrote.0 w.left rest)
              ∙ ap (λ (x : List Bytes). x ++ rest) w.front
              ∙ append_assoc l.writes f.to_send rest
              ∙ ap (◌++◌ l.writes) (typed ∙ sym (r.going open_))
              ∙ r.front;
          going = λ e.
              ap (λ (x : List Bytes). x ++ rest)
                (w.whole (not_failed wrote.1 (no_steps f.steps) e));
          counted = omega (arith, t.counted, r.counted);
        }

    stopped :
        (username password : Bytes) (steps : List LogonStep) (l : LogonShell)
        → Runs username password steps l
        → Runs username password steps (record l { done = true })
    stopped username password steps l r = record {
      user = r.user;
      secret = r.secret;
      left = r.left;
      front = r.front;
      going = λ e. cc e;
      counted = r.counted;
    }

    after_event-Runs :
        (username password : Bytes) (steps : List LogonStep) (l : LogonShell) (e : LogonEvent)
        → Runs username password steps l
        → Runs username password steps (after_event to_lower write_ok l e)
    unfolding after_event observe
    after_event-Runs username password steps l (keystrokes p) r =
        if-rule (Runs username password steps) (is_empty p) (λ _. r)
          (λ _. stopped username password steps l r)
    after_event-Runs username password steps l (reads chunk now) r =
        if-rule (Runs username password steps) (is_empty chunk) (λ _. r)
          (λ _.
            if-rule (Runs username password steps) l.done (λ _. r)
              (λ open_.
                if-rule (Runs username password steps) (ltb l.deadline now)
                  (λ _. stopped username password steps l r)
                  (λ _.
                    carry_out-Runs username password steps l (last_bytes (l.window ++ chunk)) open_
                      r)))

    after_events-Runs :
        (username password : Bytes) (steps : List LogonStep) (l : LogonShell)
        (events : List LogonEvent)
        → Runs username password steps l
        → Runs username password steps (after_events to_lower write_ok l events)
    unfolding after_events
    after_events-Runs username password steps l [] r = r
    after_events-Runs username password steps l (e ∷ events) r =
        after_events-Runs username password steps (after_event to_lower write_ok l e) events
          (after_event-Runs username password steps l e r)

    with_logon-Runs :
        (username password : Bytes) (steps : List LogonStep) (now : ℕ) {l : LogonShell}
        → with_logon steps username password now ≡ some l
        → Runs username password steps l
    unfolding with_logon
    with_logon-Runs username password [] now h = cc
    with_logon-Runs username password (s ∷ steps) now h =
        some-elim (Runs username password (s ∷ steps)) h (record {
          user = refl;
          secret = refl;
          left = script username password (s ∷ steps);
          front = refl;
          going = λ _. refl;
          counted = omega arith;
        })

    -- Whatever the far end prints, in whatever chunks and at whatever instants, whatever the user
    -- types, and however the writes end: what a login sequence has typed is always the front of what
    -- its steps type, in their order and each at most once, and the steps that have been sent and
    -- those that are left are all the steps. While the sequence is not done, nothing has been left
    -- out: what is still to come is what the steps that are left type.
    pub after_events-script :
        (steps : List LogonStep) (username password : Bytes) (now : ℕ) (l : LogonShell)
        (events : List LogonEvent)
        → with_logon steps username password now ≡ some l
        → let l' = after_events to_lower write_ok l events in
          ((left : List Bytes) × (l'.writes ++ left ≡ script username password steps)
            × (l'.done ≡ false → left ≡ script username password l'.steps))
          × (l'.sent + length l'.steps ≡ length steps)
    after_events-script steps username password now l events h =
        let r =
          after_events-Runs username password steps l events
            (with_logon-Runs username password steps now h) in
        ((r.left, r.front, r.going), r.counted)

    done-writes :
        (l : LogonShell) (events : List LogonEvent)
        → l.done ≡ true
        → (after_events to_lower write_ok l events).writes ≡ l.writes
    unfolding after_events after_event observe
    done-writes l [] h = refl
    done-writes l (reads chunk now ∷ events) h =
        if-rule (λ (u : LogonShell). (after_events to_lower write_ok u events).writes ≡ l.writes)
          (is_empty chunk) (λ _. done-writes l events h)
          (λ _.
            if-rule
              (λ (u : LogonShell). (after_events to_lower write_ok u events).writes ≡ l.writes)
              l.done (λ _. done-writes l events h)
              (λ open_. absurd (true-ne-false (sym h ∙ open_))))
    done-writes l (keystrokes p ∷ events) h =
        if-rule (λ (u : LogonShell). (after_events to_lower write_ok u events).writes ≡ l.writes)
          (is_empty p) (λ _. done-writes l events h)
          (λ _. done-writes (record l { done = true }) events refl)

    -- Once the user has typed anything, between two chunks, the sequence types nothing more, whatever
    -- comes after.
    pub keystrokes-writes :
        (l : LogonShell) (c : ℕ) (p : Bytes) (events : List LogonEvent)
        → (after_events to_lower write_ok l (keystrokes (c ∷ p) ∷ events)).writes ≡ l.writes
    keystrokes-writes l c p events =
        unfold after_events after_event in done-writes (record l { done = true }) events refl
