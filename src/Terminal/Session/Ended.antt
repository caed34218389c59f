-- ===== src/Terminal/Session/Ended.antt =====
-- session.go: `close` ends a terminal, and no call brings it back.
use secure_crt.Base.{
  ℕ, ◌-◌, ◌≡◌, refl, ◌∙◌, Bool, true, not, Option, none, some, ltb, if-rule, Bytes, length,
}
use secure_crt.Terminal.Session.{
  channel_size, Terminal, close_channel, close_attached, attach, AttachResult, detach, send, pump,
  close, pump_ends, exit_of, resize, RecordError, install, take_out, start_recording,
  stop_recording, recording_of, take_frame, Cause, deliberate, Call, call_attach, call_detach,
  call_pump, call_pump_ends, call_close, call_resize, call_start_recording, call_stop_recording,
  call_take_frame, after_call,
}

close_channel-closed : (t : Terminal) (i : ℕ) → (close_channel t i).closed ≡ t.closed
unfolding close_channel
close_channel-closed t i =
    if-rule (λ (u : Terminal). u.closed ≡ t.closed) (t.channels i).open_ (λ h. refl) (λ h. refl)

close_attached-closed : (t : Terminal) (a : Option ℕ) → (close_attached t a).closed ≡ t.closed
close_attached-closed t none = refl
close_attached-closed t (some i) = close_channel-closed t i

pub close-closed : (t : Terminal) (cause : Cause) → (close t cause).closed ≡ true
unfolding close
close-closed t cause = if-rule (λ (u : Terminal). u.closed ≡ true) t.closed (λ h. h) (λ h. refl)

send-closed : (t : Terminal) (chunk : Bytes) (a : Option ℕ) → (send t chunk a).closed ≡ t.closed
unfolding send
send-closed t chunk none = refl
send-closed t chunk (some i) =
    let P = λ (u : Terminal). u.closed ≡ t.closed in
    let c = t.channels i in
    if-rule P (not c.open_) (λ h. refl)
      (λ h. if-rule P (ltb (length c.sent - c.taken) channel_size) (λ h. refl) (λ h. refl))

install-closed :
    (t : Terminal) (transcript : ℕ) (r : Option ℕ) → (install t transcript r).0.closed ≡ t.closed
unfolding install
install-closed t transcript none = refl
install-closed t transcript (some r) = refl

take_out-closed : (t : Terminal) (r : Option ℕ) → (take_out t r).0.closed ≡ t.closed
unfolding take_out
take_out-closed t none = refl
take_out-closed t (some r) = refl

-- No call brings a terminal back that has ended.
pub after_call-closed :
    (t : Terminal) (call : Call) → t.closed ≡ true → (after_call t call).closed ≡ true
unfolding after_call attach detach pump pump_ends resize start_recording stop_recording take_frame
after_call-closed t call_attach e =
    if-rule (λ (r : Terminal × AttachResult). r.0.closed ≡ true) t.closed (λ h. e)
      (λ h. close_attached-closed t t.attached ∙ e)
after_call-closed t (call_detach now) e = close_attached-closed t t.attached ∙ e
after_call-closed t (call_pump chunk) e = send-closed t chunk t.attached ∙ e
after_call-closed t (call_pump_ends is_eof waited) e =
    close-closed (record t { exit_code = exit_of t.protocol waited }) _
after_call-closed t (call_close why) e = close-closed t (deliberate why)
after_call-closed t (call_resize cols rows) e =
    if-rule (λ (r : Terminal × Bool). r.0.closed ≡ true) t.closed (λ h. e) (λ h. e)
after_call-closed t (call_start_recording transcript) e =
    let P = λ (r : Terminal × Option RecordError). r.0.closed ≡ true in
    if-rule P t.closed (λ h. e)
      (λ h.
        if-rule P (not t.has_holder) (λ h. e) (λ h. install-closed t transcript t.recording ∙ e))
after_call-closed t call_stop_recording e =
    if-rule (λ (r : Terminal × Option RecordError). r.0.closed ≡ true) t.record_forced (λ h. e)
      (λ h. take_out-closed t (recording_of t.has_holder t.recording) ∙ e)
after_call-closed t (call_take_frame i) e =
    if-rule (λ (u : Terminal). u.closed ≡ true)
      (ltb (t.channels i).taken (length (t.channels i).sent)) (λ h. e) (λ h. e)
