-- ===== src/Terminal/Triggers/Bounded.antt =====
-- triggers.go: what a session's output can make the rules do is bounded.
use secure_crt.Base.{
  ℕ, suc, ◌+◌, ◌≤◌, ◌<◌, ◌≡◌, refl, ◌∙◌, inl, inr, Bool, true, false, not, Option, none, some, List,
  [], ◌∷◌, ◌++◌, arith, leb, if◌then◌else◌, Bool-cases, if-rule, Bytes, length, All,
}
use secure_crt.Sessions.Rules.{Trigger, fires, is_empty, runs_on_the_server}
use mathlib.Core.Path.{subst}
use secure_crt.Terminal.Triggers.{
  Regexp, CompiledTrigger, Effect, notifies, writes, closes, TriggerShell, Pending, rearm,
  take_byte, take_lines, with_partial, compile, wrap, with_triggers, skips, run_rules, perform,
  carried_out, write_fails, match_line, match_lines, observe, observe_all, trigger_line_limit,
  is_break,
}

-- How many times the far end is written to.
abbrev pub count_writes : List Effect → ℕ
count_writes [] = 0
count_writes (notifies e ∷ es) = count_writes es
count_writes (writes s ∷ es) = suc (count_writes es)
count_writes (closes ∷ es) = count_writes es

-- How often the rules may fire in one session, all together.
abbrev pub budget : List CompiledTrigger → ℕ
budget [] = 0
budget (c ∷ cs) = fires c.rule + budget cs

abbrev total_fired : List CompiledTrigger → ℕ
total_fired [] = 0
total_fired (c ∷ cs) = c.fired + total_fired cs

abbrev pub Within : CompiledTrigger → Type 0
Within c = c.fired ≤ fires c.rule

count_writes-append :
    (es fs : List Effect) → count_writes (es ++ fs) ≡ count_writes es + count_writes fs
count_writes-append [] fs = omega arith
count_writes-append (notifies e ∷ es) fs = count_writes-append es fs
count_writes-append (writes s ∷ es) fs = omega (arith, count_writes-append es fs)
count_writes-append (closes ∷ es) fs = count_writes-append es fs

total_fired-le : (cs : List CompiledTrigger) → All Within cs → total_fired cs ≤ budget cs
total_fired-le [] h = omega arith
total_fired-le (c ∷ cs) h = omega (arith, total_fired-le cs h.1)

-- The state of the rules, apart from their marks for this line.
record SameCounts (cs ds : List CompiledTrigger) : Type 0 where
  within : All Within ds
  fired : total_fired ds ≡ total_fired cs
  allowed : budget ds ≡ budget cs

rearm-SameCounts : (cs : List CompiledTrigger) → All Within cs → SameCounts cs (rearm cs)
unfolding rearm
rearm-SameCounts [] h = record { within = tt; fired = refl; allowed = refl }
rearm-SameCounts (c ∷ cs) (p, h) =
    let ih = rearm-SameCounts cs h in
    record {
      within = (p, ih.within);
      fired = omega (arith, ih.fired);
      allowed = omega (arith, ih.allowed);
    }

same : (cs : List CompiledTrigger) → All Within cs → SameCounts cs cs
same cs h = record { within = h; fired = refl; allowed = refl }

if-SameCounts :
    (b : Bool) (cs : List CompiledTrigger)
    → All Within cs
    → SameCounts cs (if b then rearm cs else cs)
if-SameCounts true cs h = rearm-SameCounts cs h
if-SameCounts false cs h = same cs h

trans : {cs ds es : List CompiledTrigger} → SameCounts cs ds → SameCounts ds es → SameCounts cs es
trans p q = record { within = q.within; fired = q.fired ∙ p.fired; allowed = q.allowed ∙ p.allowed }

-- What the loop over a chunk leaves alone.
record Kept (t u : TriggerShell) : Type 0 where
  counts : SameCounts t.triggers u.triggers
  effects : u.effects ≡ t.effects
  short : length u.line < trigger_line_limit

take_byte-Kept :
    (t : TriggerShell) (b : ℕ)
    → All Within t.triggers
    → length t.line < trigger_line_limit
    → Kept t (take_byte t b).0
unfolding take_byte
take_byte-Kept t b h s =
    let armed = if-SameCounts t.line_ended t.triggers h in
    elim (Bool-cases (is_break b)) [
      | inl e ↦ rw e (record { counts = same t.triggers h; effects = refl; short = omega arith })
      | inr e ↦ elim (Bool-cases (leb trigger_line_limit (length (t.line ++ b ∷ [])))) [
        | inl f ↦ rw (e, f) (record { counts = armed; effects = refl; short = omega arith })
        | inr f ↦ rw (e, f) (record { counts = armed; effects = refl; short = ground arith })
      ]
    ]

take_lines-Kept :
    (t : TriggerShell) (chunk : Bytes)
    → All Within t.triggers
    → length t.line < trigger_line_limit
    → Kept t (take_lines t chunk).0
unfolding take_lines
take_lines-Kept t [] h s = record { counts = same t.triggers h; effects = refl; short = s }
take_lines-Kept t (b ∷ chunk) h s =
    let k = take_byte-Kept t b h s in
    let rest = take_lines-Kept (take_byte t b).0 chunk k.counts.within k.short in
    record {
      counts = trans k.counts rest.counts;
      effects = rest.effects ∙ k.effects;
      short = rest.short;
    }

module _ (re : Regexp) where
  -- What a pass over the rules does to their counts.
  record Ran (cs ds : List CompiledTrigger) (ps : List Pending) : Type 0 where
    within : All Within ds
    fired : total_fired ds ≡ total_fired cs + length ps
    allowed : budget ds ≡ budget cs

  room :
      (c : CompiledTrigger) (line : Bytes)
      → Within c
      → skips re c line ≡ false
      → suc c.fired ≤ fires c.rule
  room c line p e = unfold skips in ground arith

  run_rules-Ran :
      (t : TriggerShell) (line : Bytes) (cs : List CompiledTrigger)
      → All Within cs
      → Ran cs (run_rules re t line cs).0 (run_rules re t line cs).1
  unfolding run_rules
  run_rules-Ran t line [] h = record { within = tt; fired = refl; allowed = refl }
  run_rules-Ran t line (c ∷ cs) (p, h) =
      let ih = run_rules-Ran t line cs h in
      elim (Bool-cases (skips re c line)) [
        | inl e ↦ rw e (record {
          within = (p, ih.within);
          fired = omega (arith, ih.fired);
          allowed = omega (arith, ih.allowed);
        })
        | inr e ↦ rw e (record {
          within = (room c line p e, ih.within);
          fired = omega (arith, ih.fired);
          allowed = omega (arith, ih.allowed);
        })
      ]

  module _ (write_ok : List Effect → Bytes → Bool) where
    carried_out-le :
        (s : Bool) (done : List Effect) (p : Pending)
        → count_writes (carried_out re write_ok s done p) ≤ suc (count_writes done)
    carried_out-le s done p =
        let quiet = count_writes-append done (notifies p.event ∷ []) in
        if-rule (λ es. count_writes es ≤ suc (count_writes done)) (is_empty p.send)
          (λ _.
            if-rule (λ es. count_writes es ≤ suc (count_writes done)) s (λ _. omega arith)
              (λ _. omega arith))
          (λ _.
            if-rule (λ es. count_writes (es ++ writes p.send ∷ []) ≤ suc (count_writes done)) s
              (λ _.
                omega
                  (arith, count_writes-append (done ++ notifies p.event ∷ []) (writes p.send ∷ [])))
              (λ _. omega (arith, count_writes-append done (writes p.send ∷ []))))

    perform-le :
        (s : Bool) (done : List Effect) (ps : List Pending)
        → count_writes (perform re write_ok s done ps) ≤ count_writes done + length ps
    unfolding perform
    perform-le s done [] = omega arith
    perform-le s done (p ∷ ps) =
        let spent = carried_out-le s done p in
        let sent = carried_out re write_ok s done p in
        if-rule (λ es. count_writes es ≤ count_writes done + suc (length ps))
          (write_fails re write_ok s done p) (λ _. omega arith)
          (λ _.
            if-rule (λ es. count_writes es ≤ count_writes done + suc (length ps)) p.stop
              (λ _. omega (arith, count_writes-append sent (closes ∷ [])))
              (λ _. omega (arith, perform-le s sent ps)))

    -- The rules are within their limits, and each write to the far end is paid for by one firing.
    pub record IsBounded (limit : ℕ) (t : TriggerShell) : Type 0 where
      pub within : All Within t.triggers
      pub short : length t.line < trigger_line_limit
      pub paid : count_writes t.effects ≤ total_fired t.triggers
      pub allowed : budget t.triggers ≡ limit

    match_line-IsBounded :
        (limit : ℕ) (t : TriggerShell) (line : Bytes)
        → IsBounded limit t
        → IsBounded limit (match_line re write_ok t line)
    unfolding match_line
    match_line-IsBounded limit t line h =
        let ran = run_rules-Ran t line t.triggers h.within in
        record {
          within = ran.within;
          short = h.short;
          paid = omega (
            arith,
            h.paid,
            ran.fired,
            perform-le t.has_sink t.effects (run_rules re t line t.triggers).1,
          );
          allowed = ran.allowed ∙ h.allowed;
        }

    match_lines-IsBounded :
        (limit : ℕ) (t : TriggerShell) (lines : List Bytes)
        → IsBounded limit t
        → IsBounded limit (match_lines re write_ok t lines)
    unfolding match_lines
    match_lines-IsBounded limit t [] h = h
    match_lines-IsBounded limit t (line ∷ lines) h =
        match_lines-IsBounded limit (match_line re write_ok t line) lines
          (match_line-IsBounded limit t line h)

    Kept-IsBounded :
        (limit : ℕ) (t u : TriggerShell) → IsBounded limit t → Kept t u → IsBounded limit u
    Kept-IsBounded limit t u h k = record {
      within = k.counts.within;
      short = k.short;
      paid = rw k.effects (omega (arith, h.paid, k.counts.fired));
      allowed = k.counts.allowed ∙ h.allowed;
    }

    observe-IsBounded :
        (limit : ℕ) (t : TriggerShell) (chunk : Bytes)
        → IsBounded limit t
        → IsBounded limit (observe re write_ok t chunk)
    unfolding observe
    observe-IsBounded limit t chunk h =
        if-rule (IsBounded limit) t.stopped (λ _. h)
          (λ _.
            match_lines-IsBounded limit (take_lines t chunk).0 (with_partial (take_lines t chunk)).1
              (Kept-IsBounded limit t (take_lines t chunk).0 h
                (take_lines-Kept t chunk h.within h.short)))

    pub observe_all-IsBounded :
        (limit : ℕ) (t : TriggerShell) (chunks : List Bytes)
        → IsBounded limit t
        → IsBounded limit (observe_all re write_ok t chunks)
    unfolding observe_all
    observe_all-IsBounded limit t [] h = h
    observe_all-IsBounded limit t ([] ∷ chunks) h = observe_all-IsBounded limit t chunks h
    observe_all-IsBounded limit t ((b ∷ chunk) ∷ chunks) h =
        observe_all-IsBounded limit (observe re write_ok t (b ∷ chunk)) chunks
          (observe-IsBounded limit t (b ∷ chunk) h)

  compile-fresh :
      (rules : List Trigger) → All Within (compile re rules) × (total_fired (compile re rules) ≡ 0)
  unfolding compile
  compile-fresh [] = (tt, refl)
  compile-fresh (rule ∷ rules) =
      let P = λ (cs : List CompiledTrigger). All Within cs × (total_fired cs ≡ 0) in
      let ih = compile-fresh rules in
      if-rule P (not (runs_on_the_server rule.action)) (λ _. ih)
        (λ _.
          if-rule P (not (re.compiles rule.pattern)) (λ _. ih)
            (λ _. ((omega arith, ih.0), omega (arith, ih.1))))

  with_triggers-IsBounded :
      (write_ok : List Effect → Bytes → Bool) (username password : Bytes) (has_sink : Bool)
      (cs : List CompiledTrigger) {t : TriggerShell}
      → All Within cs × (total_fired cs ≡ 0)
      → wrap re username password has_sink cs ≡ some t
      → IsBounded write_ok (budget cs) t × (t.triggers ≡ cs)
  with_triggers-IsBounded write_ok username password has_sink [] h e = cc
  with_triggers-IsBounded write_ok username password has_sink (c ∷ cs) {t} h e =
      subst (λ (o : Option TriggerShell). Opened o) e
        (record { within = h.0; short = omega arith; paid = omega arith; allowed = refl }, refl)
    where
      Opened : Option TriggerShell → Type 0
      Opened none = Unit
      Opened (some u) = IsBounded write_ok (budget (c ∷ cs)) u × (u.triggers ≡ c ∷ cs)

  -- From the moment the rules are put on a session, whatever the device prints, in whatever pieces,
  -- and however the writes end: no rule has fired more often than it may, the far end has been
  -- written to at most as often as the rules together may fire, and the line held back is shorter
  -- than the limit.
  pub observe_all-bounded :
      (write_ok : List Effect → Bytes → Bool) (rules : List Trigger) (username password : Bytes)
      (has_sink : Bool) (t : TriggerShell) (chunks : List Bytes)
      → with_triggers re rules username password has_sink ≡ some t
      → let u = observe_all re write_ok t chunks in
        All Within u.triggers
        × (count_writes u.effects ≤ budget (compile re rules))
        × (length u.line < trigger_line_limit)
  unfolding with_triggers
  observe_all-bounded write_ok rules username password has_sink t chunks e =
      let limit = budget (compile re rules) in
      let start =
        with_triggers-IsBounded write_ok username password has_sink (compile re rules)
          (compile-fresh rules) e in
      let h = observe_all-IsBounded write_ok limit t chunks start.0 in
      (
        h.within,
        omega (
          arith,
          h.paid,
          h.allowed,
          total_fired-le (observe_all re write_ok t chunks).triggers h.within,
        ),
        h.short,
      )
