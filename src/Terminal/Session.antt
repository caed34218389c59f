-- ===== src/Terminal/Session.antt =====
-- internal/terminal/session.go: one live terminal. Each function is what one of its methods does under
-- the lock. A browser's channel is a number, and what the runtime would panic on (a send on a closed
-- channel, a second close) is kept in the state, as is how often the shell was closed and its
-- resource given back.
pub mod Sound
pub mod Lifecycle
pub mod Displaced
pub mod Ended
use secure_crt.Base.{
  ℕ, suc, ◌-◌, ◌*◌, Bool, true, false, not, ◌||◌, Option, none, some, List, [], ◌∷◌, ◌++◌, ltb,
  ◌==◌, if◌then◌else◌, Bytes, length,
}
use secure_crt.Base.Int.{ℤ, positive?}
use secure_crt.Sessions.Jump.{Protocol, is_ssh}
use secure_crt.Terminal.RingBuffer.{RingBuffer, new_ring_buffer, write, bytes}

abbrev pub replay_bytes : ℕ
replay_bytes = 256 * 1024

-- The frames that a channel holds before it drops one.
abbrev pub channel_size : ℕ
channel_size = 256

-- Frames that have been put in, and how many of them the browser has taken out.
pub record Channel : Type 0 where
  pub open_ : Bool
  pub sent : List Bytes
  pub taken : ℕ

abbrev pub fresh_channel : Channel
fresh_channel = record { open_ = true; sent = []; taken = 0 }

-- Why a terminal ended: on purpose, by the end of the stream, or by a failure.
pub data Cause : Type 0 where
  deliberate : Bytes → Cause
  end_of_stream : Cause
  connection_failed : Cause

pub record Terminal : Type 0 where
  pub user_id : Bytes
  pub protocol : Protocol
  pub closed : Bool
  pub close_cause : Option Cause
  pub attached : Option ℕ
  pub channels : ℕ → Channel
  pub next_channel : ℕ
  pub attachments : ℕ
  pub replay : RingBuffer
  pub cols : ℕ
  pub rows : ℕ
  pub exit_code : Option ℤ
  pub detached_at : Option ℕ
  pub panicked : Bool
  pub shell_closes : ℕ
  pub releases : ℕ
  pub has_holder : Bool
  pub recording : Option ℕ
  pub recorded : Bool
  pub record_forced : Bool
  pub transcripts_closed : List ℕ

abbrev pub or_default : Option ℕ → ℕ → ℕ
or_default none d = d
or_default (some n) d = n

-- What `Open` reads of its parameters and its shell here.
pub record OpenParams : Type 0 where
  pub user_id : Bytes
  pub protocol : Protocol
  pub cols : ℤ
  pub rows : ℤ
  pub has_holder : Bool
  pub recording : Option ℕ
  pub recorded : Bool
  pub record_forced : Bool

-- `Open`, as far as the terminal's own state goes.
unfoldable pub open_terminal : OpenParams → Terminal
open_terminal p = record {
  user_id = p.user_id;
  protocol = p.protocol;
  closed = false;
  close_cause = none;
  attached = none;
  channels = λ i. fresh_channel;
  next_channel = 0;
  attachments = 0;
  replay = new_ring_buffer replay_bytes;
  cols = or_default (positive? p.cols) 80;
  rows = or_default (positive? p.rows) 24;
  exit_code = none;
  detached_at = none;
  panicked = false;
  shell_closes = 0;
  releases = 0;
  has_holder = p.has_holder;
  recording = p.recording;
  recorded = p.recorded;
  record_forced = p.record_forced;
  transcripts_closed = [];
}

abbrev pub set_channel : (ℕ → Channel) → ℕ → Channel → ℕ → Channel
set_channel channels i c j = if j == i then c else channels j

-- close(ch)
unfoldable pub close_channel : Terminal → ℕ → Terminal
close_channel t i =
    let c = t.channels i in
    if c.open_
    then record t { channels = set_channel t.channels i (record c { open_ = false }) }
    else record t { panicked = true }

abbrev pub close_attached : Terminal → Option ℕ → Terminal
close_attached t none = t
close_attached t (some i) = close_channel t i

pub data AttachResult : Type 0 where
  terminal_closed : AttachResult
  attachment : Bytes → ℕ → Bool → AttachResult

abbrev pub taken_over : Terminal → Terminal
taken_over t = record t {
  attached = some t.next_channel;
  channels = set_channel t.channels t.next_channel fresh_channel;
  next_channel = suc t.next_channel;
  detached_at = none;
  attachments = suc t.attachments;
}

-- `Attach`: the replay, the channel, and whether this is a return.
unfoldable pub attach : Terminal → Terminal × AttachResult
attach t = if t.closed then (t, terminal_closed) else (
  taken_over (close_attached t t.attached),
  attachment (bytes t.replay) t.next_channel (ltb 1 (suc t.attachments)),
)

unfoldable pub detach : Terminal → ℕ → Terminal
detach t now = record (close_attached t t.attached) { attached = none; detached_at = some now }

-- The send of `pump`, which drops the frame when the channel is full.
unfoldable pub send : Terminal → Bytes → Option ℕ → Terminal
send t chunk none = t
send t chunk (some i) =
    let c = t.channels i in
    if not c.open_
    then record t { panicked = true }
    else if ltb (length c.sent - c.taken) channel_size
    then record t { channels = set_channel t.channels i (record c { sent = c.sent ++ chunk ∷ [] }) }
    else t

-- `pump`, for one read of the shell that brought something.
unfoldable pub pump : Terminal → Bytes → Terminal
pump t chunk = record (send t chunk t.attached) { replay = write t.replay chunk }

unfoldable pub close : Terminal → Cause → Terminal
close t cause = if t.closed then t else record (close_attached t t.attached) {
  closed = true;
  close_cause = some cause;
  attached = none;
  shell_closes = suc t.shell_closes;
  releases = suc t.releases;
}

-- What `Wait` of the shell returns: nothing wrong, an exit status, or another error.
pub data Waited : Type 0 where
  clean : Waited
  exit_status : ℤ → Waited
  no_status : Waited

abbrev pub exit_of : Protocol → Waited → Option ℤ
exit_of protocol (exit_status code) = some code
exit_of protocol no_status = none
exit_of protocol clean = if is_ssh protocol then some (ℤ.pos 0) else none

-- `pump`, for a read that ended in an error.
unfoldable pub pump_ends : Terminal → Bool → Waited → Terminal
pump_ends t is_eof waited =
    close (record t { exit_code = exit_of t.protocol waited })
      (if is_eof then end_of_stream else connection_failed)

abbrev pub is_deliberate : Option Cause → Bool
is_deliberate (some (deliberate why)) = true
is_deliberate _ = false

abbrev pub has_exit : Option ℤ → Bool
has_exit none = false
has_exit (some code) = true

unfoldable pub ended_deliberately : Terminal → Bool
ended_deliberately t = has_exit t.exit_code || is_deliberate t.close_cause

-- `Write` and `Resize`: whether the shell is called.
unfoldable pub accepts_input : Terminal → Bool
accepts_input t = not t.closed

unfoldable pub resize : Terminal → ℕ → ℕ → Terminal × Bool
resize t cols rows = if t.closed then (t, false) else (record t { cols = cols; rows = rows }, true)

pub data RecordError : Type 0 where
  session_ended not_recordable already_recorded recording_required : RecordError

abbrev pub recording_of : Bool → Option ℕ → Option ℕ
recording_of false r = none
recording_of true r = r

unfoldable pub install : Terminal → ℕ → Option ℕ → Terminal × Option RecordError
install t transcript (some r) = (t, some already_recorded)
install t transcript none = (record t { recording = some transcript; recorded = true }, none)

unfoldable pub take_out : Terminal → Option ℕ → Terminal × Option RecordError
take_out t none = (t, none)
take_out t (some r) = (
  record t {
    recording = none;
    recorded = false;
    transcripts_closed = t.transcripts_closed ++ r ∷ [];
  },
  none,
)

unfoldable pub start_recording : Terminal → ℕ → Terminal × Option RecordError
start_recording t transcript =
    if t.closed
    then (t, some session_ended)
    else if not t.has_holder
    then (t, some not_recordable)
    else install t transcript t.recording

unfoldable pub stop_recording : Terminal → Terminal × Option RecordError
stop_recording t =
    if t.record_forced
    then (t, some recording_required)
    else take_out t (recording_of t.has_holder t.recording)

-- A browser takes a frame out of its channel.
unfoldable pub take_frame : Terminal → ℕ → Terminal
take_frame t i =
    let c = t.channels i in
    if ltb c.taken (length c.sent)
    then record t { channels = set_channel t.channels i (record c { taken = suc c.taken }) }
    else t

-- The calls of a terminal's methods, and the browsers' reads, in any order.
pub data Call : Type 0 where
  call_attach : Call
  call_detach : ℕ → Call
  call_pump : Bytes → Call
  call_pump_ends : Bool → Waited → Call
  call_close : Bytes → Call
  call_resize : ℕ → ℕ → Call
  call_start_recording : ℕ → Call
  call_stop_recording : Call
  call_take_frame : ℕ → Call

unfoldable pub after_call : Terminal → Call → Terminal
after_call t call_attach = (attach t).0
after_call t (call_detach now) = detach t now
after_call t (call_pump chunk) = pump t chunk
after_call t (call_pump_ends is_eof waited) = pump_ends t is_eof waited
after_call t (call_close why) = close t (deliberate why)
after_call t (call_resize cols rows) = (resize t cols rows).0
after_call t (call_start_recording transcript) = (start_recording t transcript).0
after_call t call_stop_recording = (stop_recording t).0
after_call t (call_take_frame i) = take_frame t i

unfoldable pub after_calls : Terminal → List Call → Terminal
after_calls t [] = t
after_calls t (call ∷ calls) = after_calls (after_call t call) calls
