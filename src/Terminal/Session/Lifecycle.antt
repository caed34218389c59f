-- ===== src/Terminal/Session/Lifecycle.antt =====
-- session.go: no order of calls makes a terminal panic, leak its shell or hold a dead browser's channel.
use secure_crt.Base.{
  ℕ, suc, ◌+◌, ◌-◌, ◌≤◌, ◌≡◌, inl, inr, ◌∙◌, Bool-cases, refl, sym, Bool, true, false, not, Option,
  none, some, List, [], ◌∷◌, ◌++◌, arith, ltb, ◌==◌, ==_iff, if-rule, Bytes, length, length-append,
}
use secure_crt.Terminal.Session.{
  Channel, set_channel, channel_size, Terminal, OpenParams, open_terminal, attach, AttachResult,
  send, pump, close, pump_ends, Waited, exit_of, RecordError, deliberate, resize, start_recording,
  stop_recording, install, take_out, recording_of, take_frame, Cause, Call, call_attach,
  call_detach, call_pump, call_pump_ends, call_close, call_resize, call_start_recording,
  call_stop_recording, call_take_frame, after_call, after_calls,
}
use secure_crt.Terminal.Session.Sound.{
  IsSound, close_attached-Shut, open_terminal-IsSound, detach-IsSound, taken_over-IsSound,
}

pub attach-IsSound : (t : Terminal) → IsSound t → IsSound (attach t).0
unfolding attach
attach-IsSound t s =
    if-rule (λ (r : Terminal × AttachResult). IsSound r.0) t.closed (λ c. s)
      (λ c.
        let h = close_attached-Shut t t.attached refl s in
        let same = h.same in
        rw (same) (taken_over-IsSound t h.channels c h.all_closed h.still_bounded s))

pub close-IsSound : (t : Terminal) (cause : Cause) → IsSound t → IsSound (close t cause)
unfolding close
close-IsSound t cause s =
    if-rule IsSound t.closed (λ c. s)
      (λ c.
        let h = close_attached-Shut t t.attached refl s in
        let same = h.same in
        let all_closed = h.all_closed in let still_bounded = h.still_bounded in rw same grind arith)

-- One channel is filled or read.
one_channel-IsSound :
    (t : Terminal) (i : ℕ) (c : Channel)
    → c.open_ ≡ (t.channels i).open_
    → length c.sent ≤ c.taken + channel_size
    → IsSound t
    → IsSound (record t { channels = set_channel t.channels i c })
one_channel-IsSound t i c same b s =
    let open_of : (j : ℕ) → (set_channel t.channels i c j).open_ ≡ (t.channels j).open_ = λ j.
      elim (Bool-cases (j == i)) [
        | inl at ↦ let k : j ≡ i = (==_iff j i).0 at in rw k ground arith
        | inr differs ↦ rw differs refl
      ] in
    record {
      calm = s.calm;
      only = λ j l o. s.only j l (sym (open_of j) ∙ o);
      held = λ j e. ((s.held j e).0, open_of j ∙ (s.held j e).1);
      in_bounds = λ j.
          if-rule (λ (d : Channel). length d.sent ≤ d.taken + channel_size) (j == i) (λ h. b)
            (λ h. s.in_bounds j);
      not_before = s.not_before;
      ended = s.ended;
    }

send-IsSound :
    (t : Terminal) (chunk : Bytes) (a : Option ℕ)
    → t.attached ≡ a
    → IsSound t
    → IsSound (send t chunk a)
unfolding send
send-IsSound t chunk none e s = s
send-IsSound t chunk (some i) e s =
    let c = t.channels i in
    let o : c.open_ ≡ true = (s.held i e).1 in
    if-rule IsSound (not c.open_) (λ h. absurd (ground arith))
      (λ h.
        if-rule IsSound (ltb (length c.sent - c.taken) channel_size)
          (λ room.
            let n = length-append c.sent (chunk ∷ []) in
            one_channel-IsSound t i (record c { sent = c.sent ++ chunk ∷ [] }) refl
              (ground (arith, n)) s)
          (λ full. s))

pump-IsSound : (t : Terminal) (chunk : Bytes) → IsSound t → IsSound (pump t chunk)
unfolding pump
pump-IsSound t chunk s = let r = send-IsSound t chunk t.attached refl s in grind arith

take_frame-IsSound : (t : Terminal) (i : ℕ) → IsSound t → IsSound (take_frame t i)
unfolding take_frame
take_frame-IsSound t i s =
    let c = t.channels i in
    if-rule IsSound (ltb c.taken (length c.sent))
      (λ h.
        let b = s.in_bounds i in
        one_channel-IsSound t i (record c { taken = suc c.taken }) refl (omega arith) s)
      (λ h. s)

pump_ends-IsSound :
    (t : Terminal) (is_eof : Bool) (waited : Waited)
    → IsSound t
    → IsSound (pump_ends t is_eof waited)
unfolding pump_ends
pump_ends-IsSound t is_eof waited s =
    close-IsSound (record t { exit_code = exit_of t.protocol waited }) _ (grind arith)

recorded-IsSound :
    (t : Terminal) (recording : Option ℕ) (recorded : Bool) (transcripts : List ℕ)
    → IsSound t
    → IsSound
        (record t { recording = recording; recorded = recorded; transcripts_closed = transcripts })
recorded-IsSound t recording recorded transcripts s = grind arith

install-IsSound :
    (t : Terminal) (transcript : ℕ) (r : Option ℕ) → IsSound t → IsSound (install t transcript r).0
unfolding install
install-IsSound t transcript (some r) s = s
install-IsSound t transcript none s =
    recorded-IsSound t (some transcript) true t.transcripts_closed s

take_out-IsSound : (t : Terminal) (r : Option ℕ) → IsSound t → IsSound (take_out t r).0
unfolding take_out
take_out-IsSound t none s = s
take_out-IsSound t (some r) s = recorded-IsSound t none false (t.transcripts_closed ++ r ∷ []) s

start_recording-IsSound :
    (t : Terminal) (transcript : ℕ) → IsSound t → IsSound (start_recording t transcript).0
unfolding start_recording
start_recording-IsSound t transcript s =
    let P = λ (r : Terminal × Option RecordError). IsSound r.0 in
    if-rule P t.closed (λ c. s)
      (λ c. if-rule P (not t.has_holder) (λ h. s) (λ h. install-IsSound t transcript t.recording s))

stop_recording-IsSound : (t : Terminal) → IsSound t → IsSound (stop_recording t).0
unfolding stop_recording
stop_recording-IsSound t s =
    let P = λ (r : Terminal × Option RecordError). IsSound r.0 in
    if-rule P t.record_forced (λ c. s)
      (λ c. take_out-IsSound t (recording_of t.has_holder t.recording) s)

resize-IsSound : (t : Terminal) (cols rows : ℕ) → IsSound t → IsSound (resize t cols rows).0
unfolding resize
resize-IsSound t cols rows s =
    if-rule (λ (r : Terminal × Bool). IsSound r.0) t.closed (λ c. s) (λ c. grind arith)

pub after_call-IsSound : (t : Terminal) (call : Call) → IsSound t → IsSound (after_call t call)
unfolding after_call
after_call-IsSound t call_attach s = attach-IsSound t s
after_call-IsSound t (call_detach now) s = detach-IsSound t now s
after_call-IsSound t (call_pump chunk) s = pump-IsSound t chunk s
after_call-IsSound t (call_pump_ends is_eof waited) s = pump_ends-IsSound t is_eof waited s
after_call-IsSound t (call_close why) s = close-IsSound t (deliberate why) s
after_call-IsSound t (call_resize cols rows) s = resize-IsSound t cols rows s
after_call-IsSound t (call_start_recording transcript) s = start_recording-IsSound t transcript s
after_call-IsSound t call_stop_recording s = stop_recording-IsSound t s
after_call-IsSound t (call_take_frame i) s = take_frame-IsSound t i s

pub calls-IsSound : (t : Terminal) (calls : List Call) → IsSound t → IsSound (after_calls t calls)
unfolding after_calls
calls-IsSound t [] s = s
calls-IsSound t (call ∷ calls) s =
    calls-IsSound (after_call t call) calls (after_call-IsSound t call s)

-- In every order of attaching, detaching, output, the end of the shell, closing, resizing, recording and
-- reading by the browsers, from `Open` on: no closed channel is sent to or closed again; of the channels
-- handed out, exactly the attached one is open; no channel holds more than 256 frames that were not taken;
-- and the shell is closed and its resource given back once when the terminal is closed, and not before.
pub after_calls-IsSound :
    (p : OpenParams) (calls : List Call) → IsSound (after_calls (open_terminal p) calls)
after_calls-IsSound p calls = calls-IsSound (open_terminal p) calls (open_terminal-IsSound p)
