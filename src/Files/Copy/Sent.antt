-- ===== src/Files/Copy/Sent.antt =====
-- internal/files/transfer.go: what the copy of one file that ends well has done.
use secure_crt.Base.{
  suc, ◌≡◌, ◌⊎◌, inl, inr, refl, ap, Bool, true, false, not, ◌&&◌, Option, none, some, List,
  Bool-cases, arith,
}
use secure_crt.Base.Outcome.{Outcome, failed, returned}
use secure_crt.Files.Copy.{
  CopyError, Route, Turn, stream, Progress, Hosts, or_done, Ran, and_then, streamed, copy_opened,
  copy_file, with_target,
}
use secure_crt.Files.Copy.Stream.{read, stream-Whole}

abbrev pub done : Progress → Ran
done j = (j, some (returned tt))

pub failed-undone : {j k : Progress} {e : CopyError} → (j, some (failed e)) ≡ done k → ⊥
failed-undone h = cc

pub running-undone : {j k : Progress} → (j, none) ≡ done k → ⊥
running-undone h = cc

pub and_then-done :
    (r : Ran) (rest : Progress → Ran) {after : Progress}
    → and_then r rest ≡ done after
    → (j : Progress) × (r ≡ done j) × (rest j ≡ done after)
and_then-done (j, none) rest h = absurd (running-undone h)
and_then-done (j, some (failed e)) rest h = absurd (failed-undone h)
and_then-done (j, some (returned _)) rest h = (j, refl, h)

pub with_target-done :
    (j : Progress) (target : Option Route) (rest : Route → Ran) {after : Progress}
    → with_target j target rest ≡ done after
    → (to : Route) × (target ≡ some to) × (rest to ≡ done after)
with_target-done j none rest h = absurd (running-undone h)
with_target-done j (some to) rest h = (to, refl, h)

pub or_done-none :
    {j k : Progress} (o : Option CopyError) → (j, some (or_done o)) ≡ done k → o ≡ none
or_done-none none h = refl
or_done-none (some e) h = absurd (failed-undone h)

module _ (hosts : Hosts) where
  -- A file that was sent whole to a writer that was opened and closed without an error, and that replaced none
  -- unless that is allowed.
  pub record Sent (overwrite : Bool) (from to : Route) : Type 0 where
    pub replaced : (overwrite ≡ true) ⊎ (hosts.exists to ≡ false)
    pub turns : List Turn
    pub opened : hosts.reader from ≡ returned turns
    pub created : hosts.writer to ≡ none
    pub whole : (stream turns).sent ≡ read turns
    pub closed : hosts.close to ≡ none

  -- One more file, of as many.
  abbrev pub OneMore : Progress → Progress → Type 0
  OneMore j after =
      (after.done_files ≡ suc j.done_files)
      × (after.total_files ≡ j.total_files)
      × (after.total_bytes ≡ j.total_bytes)

  abbrev Read : Route → Outcome CopyError (List Turn) → Type 0
  Read to reader =
      (turns : List Turn) × (reader ≡ returned turns)
      × ((stream turns).sent ≡ read turns)
      × (hosts.writer to ≡ none)
      × (hosts.close to ≡ none)

  copy_opened-done :
      (j : Progress) (to : Route) (reader : Outcome CopyError (List Turn)) (after : Progress)
      → copy_opened hosts j to reader ≡ done after
      → Read to reader × OneMore j after
  unfolding copy_opened
  copy_opened-done j to (failed e) after h = absurd (failed-undone h)
  copy_opened-done j to (returned turns) after h =
      let (j1, written, h) = and_then-done (j, some (or_done (hosts.writer to))) _ h in
      let (j2, sent, h) = and_then-done (streamed hosts j1 turns) _ h in
      let (j3, closed, h) = and_then-done (j2, some (or_done (hosts.close to))) _ h in
      let (whole, _) = stream-Whole turns (ap (λ r. r.1) sent) in
      (
        (
          turns,
          refl,
          whole,
          or_done-none (hosts.writer to) written,
          or_done-none (hosts.close to) closed,
        ),
        (
          omega (
            arith,
            ap (λ r. r.0.done_files) written,
            ap (λ r. r.0.done_files) sent,
            ap (λ r. r.0.done_files) closed,
            ap (λ r. r.0.done_files) h,
          ),
          omega (
            arith,
            ap (λ r. r.0.total_files) written,
            ap (λ r. r.0.total_files) sent,
            ap (λ r. r.0.total_files) closed,
            ap (λ r. r.0.total_files) h,
          ),
          omega (
            arith,
            ap (λ r. r.0.total_bytes) written,
            ap (λ r. r.0.total_bytes) sent,
            ap (λ r. r.0.total_bytes) closed,
            ap (λ r. r.0.total_bytes) h,
          ),
        ),
      )

  pub copy_file-done :
      (j : Progress) (from to : Route) (overwrite : Bool) (after : Progress)
      → copy_file hosts j from to overwrite ≡ done after
      → Sent overwrite from to × OneMore j after
  unfolding copy_file
  copy_file-done j from to overwrite after h =
      elim (Bool-cases (not overwrite && hosts.exists to)) [
        | inl e ↦ absurd (failed-undone (rw e at h))
        | inr e ↦
            let ((turns, opened, whole, created, closed), more) =
              copy_opened-done (record j { current = from }) to (hosts.reader from) after
                (rw e at h) in
            (
              record {
                replaced = allowed overwrite e;
                turns = turns;
                opened = opened;
                created = created;
                whole = whole;
                closed = closed;
              },
              more,
            )
      ]
    where
      allowed :
          (overwrite : Bool) {there : Bool}
          → (not overwrite && there) ≡ false
          → (overwrite ≡ true) ⊎ (there ≡ false)
      allowed true e = inl refl
      allowed false e = inr e
