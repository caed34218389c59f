-- ===== src/Files/Copy/Within.antt =====
-- internal/files/transfer.go: what `within` finds beneath a path.
use secure_crt.Base.{
  ◌≡◌, ◌⊎◌, ◌↔◌, inl, inr, refl, sym, ap, ◌∙◌, Bool, true, false, ◌&&◌, [], ◌∷◌, ◌++◌, ltb, lt→ltb,
  if-rule, Bool-cases, Bytes, bytes_eq, bytes_eq_sound, bytes_eq_refl, length, take, drop,
  take-append-drop, length-append, arith,
}
use secure_crt.Files.Copy.{within, starts_below}

-- At the path itself, or beneath it after a slash.
abbrev pub AtOrBeneath : Bytes → Bytes → Type 0
AtOrBeneath inner outer = (inner ≡ outer) ⊎ ((rest : Bytes) × (inner ≡ outer ++ 0x2F ∷ rest))

take-append : (xs ys : Bytes) → take (length xs) (xs ++ ys) ≡ xs
take-append [] ys = refl
take-append (x ∷ xs) ys = ap (◌∷◌ x) (take-append xs ys)

drop-append : (xs ys : Bytes) → drop (length xs) (xs ++ ys) ≡ ys
drop-append [] ys = refl
drop-append (x ∷ xs) ys = drop-append xs ys

starts_below-true : (s : Bytes) → starts_below s ≡ true → (rest : Bytes) × (s ≡ 0x2F ∷ rest)
starts_below-true [] h = cc
starts_below-true (c ∷ s) h = (s, ap (λ x. x ∷ s) (ground (arith, h)))

and-true : (b c : Bool) → (b && c) ≡ true → (b ≡ true) × (c ≡ true)
and-true true c h = (refl, h)
and-true false c h = cc

module _ (clean : Bytes → Bytes) (inner outer : Bytes) where
  within-beneath : within clean inner outer ≡ true → AtOrBeneath (clean inner) (clean outer)
  unfolding within
  within-beneath h = elim (Bool-cases (bytes_eq (clean inner) (clean outer))) [
    | inl e ↦ inl (bytes_eq_sound (clean inner) (clean outer) e)
    | inr e ↦
        let (_, both) =
          and-true (ltb (length (clean outer)) (length (clean inner))) _ (rw e at h) in
        let (front, slash) =
          and-true (bytes_eq (take (length (clean outer)) (clean inner)) (clean outer)) _ both in
        let (rest, back) = starts_below-true (drop (length (clean outer)) (clean inner)) slash in
        let front =
          bytes_eq_sound (take (length (clean outer)) (clean inner)) (clean outer) front in
        inr (
          rest,
          sym (take-append-drop (length (clean outer)) (clean inner)) ∙ rw (front, back) refl,
        )
  ]

  beneath-within : AtOrBeneath (clean inner) (clean outer) → within clean inner outer ≡ true
  unfolding within
  beneath-within (inl same) = rw (same, bytes_eq_refl (clean outer)) refl
  beneath-within (inr (rest, e)) =
      let outer = clean outer in
      let below = 0x2F ∷ rest in
      let longer : ltb (length outer) (length (outer ++ below)) ≡ true =
        lt→ltb (length outer) (length (outer ++ below))
          (omega (arith, length-append outer below)) in
      rw e (
        if-rule (λ (r : Bool). r ≡ true) (bytes_eq (outer ++ below) outer) (λ _. refl)
          (λ _.
            rw (longer, take-append outer below, drop-append outer below, bytes_eq_refl outer)
              refl))

  -- Of two paths, as they are cleaned, the first is within the second exactly if it is the same or is the
  -- second, a slash and more.
  pub within_iff : (within clean inner outer ≡ true) ↔ AtOrBeneath (clean inner) (clean outer)
  within_iff = (within-beneath, beneath-within)
