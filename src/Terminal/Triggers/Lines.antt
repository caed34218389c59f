-- ===== src/Terminal/Triggers/Lines.antt =====
-- triggers.go: when a rule fires again.
use mathlib.Core.Path.{subst}
use secure_crt.Base.{
  ℕ, ◌+◌, ◌≤◌, ◌<◌, ◌≡◌, refl, sym, ap, ◌∙◌, inl, inr, Bool, true, false, List, [], ◌∷◌, ◌++◌,
  append-nil, append_assoc, arith, leb, if◌then◌else◌, Bool-cases, if-rule, Bytes, length,
  length-append, All,
}
use secure_crt.Sessions.Rules.{is_empty}
use secure_crt.Terminal.Triggers.Potential.{
  OnceMore, SamePotential, SamePotential-refl, SamePotential-trans, SamePotential-OnceMore,
  rearm-OnceMore,
}
use secure_crt.Terminal.Triggers.{
  Regexp, CompiledTrigger, Effect, TriggerShell, take_byte, take_lines, skips, run_rules,
  match_line, match_lines, observe, observe_all, trigger_line_limit, is_break, rearm, match_all,
  with_partial,
}

-- A text with no line terminator in it.
abbrev pub OneLine : Bytes → Type 0
OneLine = All (λ b. is_break b ≡ false)

take_byte-piece :
    (t : TriggerShell) (b : ℕ)
    → t.line_ended ≡ false
    → is_break b ≡ false
    → length t.line + 1 < trigger_line_limit
    → take_byte t b ≡ (record t { line = t.line ++ b ∷ []; line_ended = false }, [])
unfolding take_byte
take_byte-piece t b open_line p s =
    let short : leb trigger_line_limit (length (t.line ++ b ∷ [])) ≡ false =
      ground (arith, length-append t.line (b ∷ [])) in
    simp (open_line, p, short)

-- A piece of an unfinished line is only added to it.
pub take_lines-piece :
    (t : TriggerShell) (piece : Bytes)
    → t.line_ended ≡ false
    → OneLine piece
    → length t.line + length piece < trigger_line_limit
    → take_lines t piece ≡ (record t { line = t.line ++ piece; line_ended = false }, [])
unfolding take_lines
take_lines-piece t [] open_line h s = simp (append-nil, ← open_line)
take_lines-piece t (b ∷ piece) open_line (p, h) s = rw (
  take_byte-piece t b open_line p (omega arith),
  take_lines-piece (record t { line = t.line ++ b ∷ []; line_ended = false }) piece refl h
      (omega (arith, length-append t.line (b ∷ []))),
  append_assoc t.line (b ∷ []) piece,
)

-- The shell as it is on the first byte of a line.
abbrev rearmed : TriggerShell → TriggerShell
rearmed t = record t { triggers = rearm t.triggers; line_ended = false }

take_byte-rearmed :
    (t : TriggerShell) (b : ℕ)
    → t.line_ended ≡ true
    → is_break b ≡ false
    → take_byte t b ≡ take_byte (rearmed t) b
unfolding take_byte
take_byte-rearmed t b ended p = rw (ended, p) refl

take_lines-rearmed :
    (t : TriggerShell) (b : ℕ) (piece : Bytes)
    → t.line_ended ≡ true
    → is_break b ≡ false
    → take_lines t (b ∷ piece) ≡ take_lines (rearmed t) (b ∷ piece)
unfolding take_lines
take_lines-rearmed t b piece ended p =
    ap
      (λ (r : TriggerShell × List Bytes).
        ((take_lines r.0 piece).0, r.1 ++ (take_lines r.0 piece).1))
      (take_byte-rearmed t b ended p)

if-left {ℓ} : {A : Type ℓ} (b : Bool) (x y : A) → b ≡ true → (if b then x else y) ≡ x
if-left true x y h = refl
if-left false x y h = cc

if-right {ℓ} : {A : Type ℓ} (b : Bool) (x y : A) → b ≡ false → (if b then x else y) ≡ y
if-right true x y h = cc
if-right false x y h = refl

module _ (re : Regexp) where
  run_rules-SamePotential :
      (t : TriggerShell) (line : Bytes) (cs : List CompiledTrigger)
      → SamePotential cs (run_rules re t line cs).0
  unfolding run_rules skips
  run_rules-SamePotential t line [] = tt
  run_rules-SamePotential t line (c ∷ cs) = elim (Bool-cases (skips re c line)) [
    | inl e ↦ rw e (refl, refl, run_rules-SamePotential t line cs)
    | inr e ↦ rw e (refl, ground arith, run_rules-SamePotential t line cs)
  ]

  module _ (write_ok : List Effect → Bytes → Bool) where
    match_lines-SamePotential :
        (t : TriggerShell) (lines : List Bytes)
        → SamePotential t.triggers (match_lines re write_ok t lines).triggers
    unfolding match_lines match_line
    match_lines-SamePotential t [] = SamePotential-refl t.triggers
    match_lines-SamePotential t (line ∷ lines) =
        SamePotential-trans t.triggers _ _ (run_rules-SamePotential t line t.triggers)
          (match_lines-SamePotential (match_line re write_ok t line) lines)

    match_lines-line :
        (t : TriggerShell) (lines : List Bytes)
        → ((match_lines re write_ok t lines).line ≡ t.line)
          × ((match_lines re write_ok t lines).line_ended ≡ t.line_ended)
    unfolding match_lines match_line
    match_lines-line t [] = (refl, refl)
    match_lines-line t (line ∷ lines) = match_lines-line (match_line re write_ok t line) lines

    abbrev total : List Bytes → ℕ
    total [] = 0
    total (piece ∷ pieces) = length piece + total pieces

    -- What one piece of an unfinished line makes of the shell.
    record Progress (t u : TriggerShell) (n : ℕ) : Type 0 where
      counts : SamePotential t.triggers u.triggers
      unfinished : u.line_ended ≡ false
      grown : length u.line ≤ length t.line + n

    observe-Progress :
        (t : TriggerShell) (piece : Bytes)
        → t.line_ended ≡ false
        → OneLine piece
        → length t.line + length piece < trigger_line_limit
        → Progress t (observe re write_ok t piece) (length piece)
    unfolding observe
    observe-Progress t piece o h s =
        if-rule (λ u. Progress t u (length piece)) t.stopped
          (λ _. record {
            counts = SamePotential-refl t.triggers;
            unfinished = o;
            grown = omega arith;
          })
          (λ _. rw (take_lines-piece t piece o h s) (matched (length-append t.line piece)))
      where
        matched :
            length (t.line ++ piece) ≡ length t.line + length piece
            → Progress t
                (match_lines re write_ok
                  (record t { line = t.line ++ piece; line_ended = false })
                  (if is_empty (t.line ++ piece) then [] else (t.line ++ piece) ∷ []))
                (length piece)
        matched e =
            let v = record t { line = t.line ++ piece; line_ended = false } in
            let ls = if is_empty (t.line ++ piece) then [] else (t.line ++ piece) ∷ [] in
            let m = match_lines-line v ls in
            record {
              counts = match_lines-SamePotential v ls;
              unfinished = m.1;
              grown = rw m.0 (omega (arith, e));
            }

    if-Progress :
        (t : TriggerShell) (piece : Bytes)
        → t.line_ended ≡ false
        → OneLine piece
        → length t.line + length piece < trigger_line_limit
        → Progress t (if is_empty piece then t else observe re write_ok t piece) (length piece)
    if-Progress t [] o h s = record {
      counts = SamePotential-refl t.triggers;
      unfinished = o;
      grown = omega arith;
    }
    if-Progress t (b ∷ piece) o h s = observe-Progress t (b ∷ piece) o h s

    observe_all-SamePotential :
        (t : TriggerShell) (pieces : List Bytes)
        → t.line_ended ≡ false
        → All OneLine pieces
        → length t.line + total pieces < trigger_line_limit
        → SamePotential t.triggers (observe_all re write_ok t pieces).triggers
    unfolding observe_all
    observe_all-SamePotential t [] o h s = SamePotential-refl t.triggers
    observe_all-SamePotential t (piece ∷ pieces) o (p, h) s =
        let u = if is_empty piece then t else observe re write_ok t piece in
        let k = if-Progress t piece o p (omega arith) in
        SamePotential-trans t.triggers u.triggers (observe_all re write_ok u pieces).triggers
          k.counts (observe_all-SamePotential u pieces k.unfinished h (omega (arith, k.grown)))

    observe_all-open :
        (t : TriggerShell) (pieces : List Bytes)
        → t.line_ended ≡ false
        → All OneLine pieces
        → length t.line + total pieces < trigger_line_limit
        → OnceMore t.triggers (observe_all re write_ok t pieces).triggers
    observe_all-open t pieces open_line h s =
        SamePotential-OnceMore t.triggers _ (observe_all-SamePotential t pieces open_line h s)

    observe_all-stopped :
        (t : TriggerShell) (pieces : List Bytes)
        → t.stopped ≡ true
        → observe_all re write_ok t pieces ≡ t
    unfolding observe_all observe
    observe_all-stopped t [] h = refl
    observe_all-stopped t ([] ∷ pieces) h = observe_all-stopped t pieces h
    observe_all-stopped t ((b ∷ piece) ∷ pieces) h =
        ap (λ (u : TriggerShell). observe_all re write_ok u pieces) (if-left t.stopped _ _ h)
        ∙ observe_all-stopped t pieces h

    observe-rearmed :
        (t : TriggerShell) (b : ℕ) (piece : Bytes)
        → t.stopped ≡ false
        → t.line_ended ≡ true
        → is_break b ≡ false
        → observe re write_ok t (b ∷ piece) ≡ observe re write_ok (rearmed t) (b ∷ piece)
    unfolding observe
    observe-rearmed t b piece runs ended p =
        if-right t.stopped _ _ runs
        ∙ ap (λ (r : TriggerShell × List Bytes). match_all re write_ok (with_partial r))
            (take_lines-rearmed t b piece ended p)
        ∙ sym (if-right t.stopped _ _ runs)

    observe_all-ended :
        (t : TriggerShell) (pieces : List Bytes)
        → t.stopped ≡ false
        → t.line_ended ≡ true
        → All OneLine pieces
        → length t.line + total pieces < trigger_line_limit
        → OnceMore t.triggers (observe_all re write_ok t pieces).triggers
    unfolding observe_all
    observe_all-ended t [] runs ended h s =
        SamePotential-OnceMore _ _ (SamePotential-refl t.triggers)
    observe_all-ended t ([] ∷ pieces) runs ended (p, h) s =
        observe_all-ended t pieces runs ended h (omega (arith, s))
    observe_all-ended t ((b ∷ piece) ∷ pieces) runs ended ((p, ps), h) s =
        let same = observe-rearmed t b piece runs ended p in
        subst
          (λ (u : TriggerShell). OnceMore t.triggers (observe_all re write_ok u pieces).triggers)
          (sym same)
          (rearm-OnceMore t.triggers _
            (observe_all-open (rearmed t) ((b ∷ piece) ∷ pieces) refl ((p, ps), h) s))

    -- While one line arrives in pieces, from its first byte after a terminator on or from anywhere in it, with no
    -- terminator in them and all together shorter than the limit, each rule fires at most once more, whatever the
    -- pieces are.
    pub observe_all-OnceMore :
        (t : TriggerShell) (pieces : List Bytes)
        → All OneLine pieces
        → length t.line + total pieces < trigger_line_limit
        → OnceMore t.triggers (observe_all re write_ok t pieces).triggers
    observe_all-OnceMore t pieces h s = elim (Bool-cases t.line_ended) [
      | inr open_line ↦ observe_all-open t pieces open_line h s
      | inl ended ↦ elim (Bool-cases t.stopped) [
        | inl over ↦
            rw (observe_all-stopped t pieces over)
              (SamePotential-OnceMore _ _ (SamePotential-refl t.triggers))
        | inr runs ↦ observe_all-ended t pieces runs ended h s
      ]
    ]
