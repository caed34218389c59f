-- ===== src/Terminal/Triggers/Potential.antt =====
-- triggers.go: how often the rules have fired, and may still fire on a line.
use secure_crt.Base.{ℕ, ◌+◌, ◌≤◌, ◌≡◌, refl, ◌∙◌, List, [], ◌∷◌, arith, if◌then◌else◌}
use secure_crt.Terminal.Triggers.{CompiledTrigger, rearm}

-- How often a rule has fired, and once more if it may still fire on this line.
abbrev pub potential : CompiledTrigger → ℕ
potential c = c.fired + (if c.fired_this_line then 0 else 1)

-- The same rules, each fired at most once more.
abbrev pub OnceMore : List CompiledTrigger → List CompiledTrigger → Type 0
OnceMore [] [] = Unit
OnceMore [] (d ∷ ds) = ⊥
OnceMore (c ∷ cs) [] = ⊥
OnceMore (c ∷ cs) (d ∷ ds) = (d.rule ≡ c.rule) × (d.fired ≤ c.fired + 1) × OnceMore cs ds

abbrev pub SamePotential : List CompiledTrigger → List CompiledTrigger → Type 0
SamePotential [] [] = Unit
SamePotential [] (d ∷ ds) = ⊥
SamePotential (c ∷ cs) [] = ⊥
SamePotential (c ∷ cs) (d ∷ ds) =
    (d.rule ≡ c.rule) × (potential d ≡ potential c) × SamePotential cs ds

pub SamePotential-refl : (cs : List CompiledTrigger) → SamePotential cs cs
SamePotential-refl [] = tt
SamePotential-refl (c ∷ cs) = (refl, refl, SamePotential-refl cs)

pub SamePotential-trans :
    (cs ds es : List CompiledTrigger)
    → SamePotential cs ds
    → SamePotential ds es
    → SamePotential cs es
SamePotential-trans [] [] [] p q = tt
SamePotential-trans [] [] (e ∷ es) p q = q
SamePotential-trans [] (d ∷ ds) es p q = absurd p
SamePotential-trans (c ∷ cs) [] es p q = absurd p
SamePotential-trans (c ∷ cs) (d ∷ ds) [] p q = q
SamePotential-trans (c ∷ cs) (d ∷ ds) (e ∷ es) (r, p, ps) (s, q, qs) =
    (s ∙ r, q ∙ p, SamePotential-trans cs ds es ps qs)

pub SamePotential-OnceMore : (cs ds : List CompiledTrigger) → SamePotential cs ds → OnceMore cs ds
SamePotential-OnceMore [] [] p = tt
SamePotential-OnceMore [] (d ∷ ds) p = p
SamePotential-OnceMore (c ∷ cs) [] p = p
SamePotential-OnceMore (c ∷ cs) (d ∷ ds) (r, p, ps) =
    (r, ground (arith, p), SamePotential-OnceMore cs ds ps)

pub rearm-OnceMore : (cs ds : List CompiledTrigger) → OnceMore (rearm cs) ds → OnceMore cs ds
unfolding rearm
rearm-OnceMore [] [] h = h
rearm-OnceMore [] (d ∷ ds) h = h
rearm-OnceMore (c ∷ cs) [] h = h
rearm-OnceMore (c ∷ cs) (d ∷ ds) (r, l, h) = (r, l, rearm-OnceMore cs ds h)
