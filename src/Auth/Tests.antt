-- ===== src/Auth/Tests.antt =====
-- Runs of the throttle and of the one-time codes at concrete inputs. Instants are written as two
-- bytes, and a keyed hash is six bytes, which
-- `truncate` reads as the last byte of the counter.
use secure_crt.Base.{
  ℕ, ◌+◌, ◌*◌, ◌/◌, ◌%◌, ◌≤◌, ◌<◌, ◌≡◌, refl, true, Option, none, some, List, [], ◌∷◌, arith, ltb,
  Bytes, codes, bytes_eq,
}
use secure_crt.Base.Int.{ℤ}
use secure_crt.Base.Text.{trim_space}
use secure_crt.Auth.Throttle.{attempt_account, Throttle, allowed, check, record_failure}
use secure_crt.Auth.Throttle.Config.{Limits}
use secure_crt.Auth.Throttle.Restart.{restart_forgets}
use secure_crt.Base.Outcome.{returned}
use secure_crt.Auth.Totp.{
  Crypto, byte_at, decode_totp_secret, strip, drop_padding, verify_steps, try_step, decimal,
  truncate, put_uint64, modulus, sha1, totp_digits, totp_counter, totp_code_at, verify_totp,
  without_spaces,
}
use secure_crt.Auth.Totp.Replay.{verify_totp_sound}
use secure_crt.Base.{◌≢◌, false, bytes_eq_apart}
use secure_crt.Auth.Session.{
  Row, Session, SessionConfig, CreateSessionParams, auth_method_local, SessionCall, creates,
  looks_up, passes_mfa, lookup, revoke, after_session_call, after_session_calls, create, insert,
  first_row, update_where, active, refreshed, looked_up, Faults, set_mfa_satisfied,
}
use secure_crt.Auth.Session.Revoked.{lookup-revoke_ne}

abbrev to_text : ℕ → Bytes
to_text at = at / 256 ∷ at % 256 ∷ []

abbrev from_bytes : Bytes → Option ℕ
from_bytes (a ∷ b ∷ []) = some (a * 256 + b)
from_bytes _ = none

abbrev limits : Limits
limits = record { max_per_account = 2; max_per_address = 5; window = 100; lockout_duration = 50 }

abbrev alice : Bytes
alice = codes "alice"

abbrev cached : List ℕ → Throttle
cached times = record { cfg = limits; recent = λ key. some times; rows = [] }

abbrev empty : Throttle
empty = record { cfg = limits; recent = λ key. none; rows = [] }

restart_forgets_example :
    check to_text from_bytes
      (record_failure to_text from_bytes empty true attempt_account alice 1000).0
      true
      attempt_account
      alice
      1001
    ≡ allowed
restart_forgets_example =
    restart_forgets to_text from_bytes empty true true attempt_account 97 (codes "lice") 1000 1001
      refl (omega arith) (omega arith) (omega arith)

abbrev crypto : Crypto
crypto = record {
  to_upper = λ s. s;
  decode_base32 = λ s. some s;
  hmac = λ alg key message. 0 ∷ 0 ∷ 0 ∷ 0 ∷ byte_at message 7 ∷ 1 ∷ [];
}

verify_totp_sound_example :
    (4 < 5)
    × (totp_code_at crypto (codes "ABCDEFGHIJKLMNOP") 5 sha1 totp_digits
        ≡ returned (trim_space (without_spaces (codes "000 005"))))
    × (5 ≤ totp_counter (ℤ.pos 150) + 1)
    × (totp_counter (ℤ.pos 150) ≤ 5 + 1)
unfolding verify_totp trim_space without_spaces decode_totp_secret strip drop_padding verify_steps
    totp_counter try_step totp_code_at bytes_eq decimal truncate put_uint64 modulus
verify_totp_sound_example =
    verify_totp_sound crypto (codes "ABCDEFGHIJKLMNOP") (codes "000 005") (ℤ.pos 150) 4 5 refl

abbrev hours : SessionConfig
hours = record { idle_ttl = 8; absolute_ttl = 100 }

abbrev of_alice : CreateSessionParams
of_alice = record {
  user_id = alice;
  auth_method = auth_method_local;
  mfa_satisfied = false;
  user_agent = [];
  ip_address = [];
}

abbrev works : Faults
works = record { reading = false; deleting = false; writing = false }

-- A token is its own digest here, and instants are in order as numbers.
abbrev signed_in : List Row
signed_in =
    after_session_calls (λ t. t) ltb hours [] (creates false 0 (1 ∷ []) (11 ∷ []) of_alice ∷ [])

abbrev afterwards : List SessionCall
afterwards =
    looks_up works 2 (11 ∷ [])
    ∷ passes_mfa (1 ∷ [])
    ∷ creates false 3 (2 ∷ []) (12 ∷ []) of_alice
    ∷ []

abbrev second : Session
second = record {
  id = 2 ∷ [];
  user_id = alice;
  auth_method = auth_method_local;
  mfa_satisfied = false;
  vault_unlocked = false;
  user_agent = [];
  ip_address = [];
  created_at = 3;
  idle_expires_at = 12;
  expires_at = 103;
  revoked_at = none;
}

apart_from_first : ◌≢◌ {A = Bytes} (2 ∷ []) (1 ∷ [])
unfolding bytes_eq
apart_from_first = bytes_eq_apart (2 ∷ []) (1 ∷ []) refl

lookup-revoke_ne_example : second.id ≢ 1 ∷ []
unfolding lookup after_session_calls after_session_call revoke create insert first_row update_where
    active refreshed looked_up set_mfa_satisfied bytes_eq
lookup-revoke_ne_example =
    lookup-revoke_ne (λ t. t) ltb hours (1 ∷ []) signed_in 1 afterwards works 4 (12 ∷ []) second
      (tt, (tt, (apart_from_first, tt))) refl
