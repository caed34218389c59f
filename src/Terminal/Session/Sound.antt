-- ===== src/Terminal/Session/Sound.antt =====
-- session.go: the invariant of a terminal, and what closing its attached channel does to it.
use secure_crt.Base.{
  ℕ, suc, ◌+◌, ◌≤◌, ◌<◌, ◌≡◌, ◌≢◌, inl, inr, ◌∙◌, Bool-cases, ap, refl, sym, true, false, Option,
  none, some, arith, ◌==◌, ==_iff, if-rule, length,
}
use secure_crt.Terminal.Session.{
  Channel, fresh_channel, set_channel, channel_size, Terminal, OpenParams, open_terminal,
  close_attached, close_channel, taken_over, attach, AttachResult, detach,
}

pub record IsSound (t : Terminal) : Type 0 where
  pub calm : t.panicked ≡ false
  pub only : (i : ℕ) → i < t.next_channel → (t.channels i).open_ ≡ true → t.attached ≡ some i
  pub held : (i : ℕ) → t.attached ≡ some i → (i < t.next_channel) × ((t.channels i).open_ ≡ true)
  pub in_bounds : (i : ℕ) → length (t.channels i).sent ≤ (t.channels i).taken + channel_size
  pub not_before : t.closed ≡ false → (t.shell_closes ≡ 0) × (t.releases ≡ 0)
  pub ended : t.closed ≡ true → (t.shell_closes ≡ 1) × (t.releases ≡ 1) × (t.attached ≡ none)

-- What becomes of the channels when the attached one is closed.
pub record Shut (t u : Terminal) : Type 0 where
  pub channels : ℕ → Channel
  pub same : u ≡ record t { channels = channels }
  pub all_closed : (i : ℕ) → i < t.next_channel → (channels i).open_ ≡ false
  pub still_bounded : (i : ℕ) → length (channels i).sent ≤ (channels i).taken + channel_size

pub none-ne-some : {i : ℕ} → none ≢ some i
none-ne-some h = cc

pub true-ne-false : true ≢ false
true-ne-false h = cc

pub some-injective : {i j : ℕ} → some i ≡ some j → i ≡ j
some-injective h = cc

pub apart : (i j : ℕ) → (i == j) ≡ false → i ≢ j
apart i j h = ground arith

pub close_channel-Shut :
    (t : Terminal) (i : ℕ) → t.attached ≡ some i → IsSound t → Shut t (close_channel t i)
unfolding close_channel
close_channel-Shut t i e s =
    let c = t.channels i in
    record {
      channels = set_channel t.channels i (record c { open_ = false });
      same = let o : c.open_ ≡ true = (s.held i e).1 in ground arith;
      all_closed = λ j l.
          let o = s.only j l in
          if-rule (λ (d : Channel). d.open_ ≡ false) (j == i) (λ h. refl)
            (λ h. elim (Bool-cases (t.channels j).open_) [
              | inl opened ↦ absurd (apart j i h (some-injective (sym (o opened) ∙ e)))
              | inr shut ↦ shut
            ]);
      still_bounded = λ j.
          let b = s.in_bounds in
          if-rule (λ (d : Channel). length d.sent ≤ d.taken + channel_size) (j == i) (λ h. b i)
            (λ h. b j);
    }

pub close_attached-Shut :
    (t : Terminal) (a : Option ℕ) → t.attached ≡ a → IsSound t → Shut t (close_attached t a)
close_attached-Shut t none e s = record {
  channels = t.channels;
  same = refl;
  all_closed = λ i l. elim (Bool-cases (t.channels i).open_) [
    | inl o ↦ absurd (none-ne-some (sym e ∙ s.only i l o))
    | inr o ↦ o
  ];
  still_bounded = s.in_bounds;
}
close_attached-Shut t (some i) e s = close_channel-Shut t i e s

pub open_terminal-IsSound : (p : OpenParams) → IsSound (open_terminal p)
unfolding open_terminal
open_terminal-IsSound p = grind arith

pub detach-IsSound : (t : Terminal) (now : ℕ) → IsSound t → IsSound (detach t now)
unfolding detach
detach-IsSound t now s =
    let h = close_attached-Shut t t.attached refl s in
    let same = h.same in
    let all_closed = h.all_closed in let still_bounded = h.still_bounded in rw same grind arith

pub taken_over-IsSound :
    (t : Terminal) (channels : ℕ → Channel)
    → t.closed ≡ false
    → ((i : ℕ) → i < t.next_channel → (channels i).open_ ≡ false)
    → ((i : ℕ) → length (channels i).sent ≤ (channels i).taken + channel_size)
    → IsSound t
    → IsSound (taken_over (record t { channels = channels }))
taken_over-IsSound t channels c shut b s = record {
  calm = s.calm;
  only = λ i l o. elim (Bool-cases (i == t.next_channel)) [
    | inl new ↦ ap some (sym ((==_iff i t.next_channel).0 new))
    | inr old ↦
        let k : set_channel channels t.next_channel fresh_channel i ≡ channels i = rw old refl in
        absurd (true-ne-false (sym o ∙ ap (λ (d : Channel). d.open_) k ∙ shut i (ground arith)))
  ];
  held = λ i e.
      let at : i ≡ t.next_channel = sym (some-injective e) in
      (omega (arith, at), rw at ground arith);
  in_bounds = λ i.
      if-rule (λ (d : Channel). length d.sent ≤ d.taken + channel_size) (i == t.next_channel)
        (λ h. omega arith) (λ h. b i);
  not_before = s.not_before;
  ended = λ e. absurd (true-ne-false (sym e ∙ c));
}

-- What an attach leaves of a live terminal.
-- A detach keeps how many channels there were, and leaves none of them open.
pub detach_shuts :
    (t : Terminal) (now i : ℕ)
    → i < t.next_channel
    → IsSound t
    → ((detach t now).channels i).open_ ≡ false
unfolding detach
detach_shuts t now i l s =
    let h = close_attached-Shut t t.attached refl s in
    let same = h.same in rw same (h.all_closed i l)

pub attach_live :
    (t : Terminal)
    → t.closed ≡ false
    → IsSound t
    → ((attach t).0.closed ≡ false) × ((attach t).0.next_channel ≡ suc t.next_channel)
unfolding attach
attach_live t c s =
    let same = (close_attached-Shut t t.attached refl s).same in
    if-rule
      (λ (r : Terminal × AttachResult).
        (r.0.closed ≡ false) × (r.0.next_channel ≡ suc t.next_channel))
      t.closed (λ e. absurd (true-ne-false (sym e ∙ c))) (λ e. rw same (c, refl))
