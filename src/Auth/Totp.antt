-- ===== src/Auth/Totp.antt =====
-- internal/auth/totp.go: one-time codes. The keyed hash and base32 are parameters (Go's `crypto`
-- and `encoding`); a text is a list of bytes.
pub mod Replay
use secure_crt.Base.{
  ℕ, zero, suc, ◌+◌, ◌-◌, ◌*◌, ◌/◌, ◌%◌, ◌^◌, ◌≤◌, ◌<◌, min, ◌≡◌, refl, sym, ap, ◌∙◌, ◌≢◌, ◌↔◌, ◌⊎◌,
  inl, inr, Bool, true, false, not, ◌&&◌, ◌||◌, Option, none, some, List, [], ◌∷◌, ◌++◌, map,
  append-nil, append_assoc, arith, ltb, leb, ◌==◌, if◌then◌else◌, ltb→lt, lt→ltb, ==_iff,
  Bool-cases, Option-cases, if-rule, Bytes, codes, bytes_eq, bytes_eq_refl, bytes_eq_sound,
  bytes_eq_ne, length, get_elem?, take, drop, length-append, take-append-drop, length-take,
  length-drop, All, All-append,
}
use secure_crt.Base.Int.{ℤ}
use secure_crt.Base.Outcome.{Outcome, failed, returned, ◌>>=◌}
use secure_crt.Base.Text.{trim_space}

abbrev pub totp_digits : ℕ
totp_digits = 6

-- Seconds.
abbrev pub totp_period : ℕ
totp_period = 30

pub data TotpAlgorithm : Type 0 where
  sha1 sha256 sha512 : TotpAlgorithm
  unsupported : Bytes → TotpAlgorithm

pub data TotpError : Type 0 where
  totp_invalid totp_replayed bad_secret bad_algorithm bad_digits : TotpError

-- Unix seconds are negative before 1970.
unfoldable pub totp_counter : ℤ → ℕ
totp_counter (ℤ.pos seconds) = seconds / totp_period
totp_counter (ℤ.negsuc n) = 0

-- Spaces and dashes out.
unfoldable pub strip : Bytes → Bytes
strip [] = []
strip (c ∷ s) = let rest = strip s in if c == 32 || c == b'-' then rest else c ∷ rest

-- `=` off the end.
unfoldable pub drop_padding : Bytes → Bytes
drop_padding [] = []
drop_padding (c ∷ s) =
    let rest = drop_padding s in
    elim rest [ [] ↦ if c == b'=' then [] else c ∷ [] | d ∷ r ↦ c ∷ d ∷ r ]

unfoldable pub without_spaces : Bytes → Bytes
without_spaces [] = []
without_spaces (c ∷ s) = let rest = without_spaces s in if c == 32 then rest else c ∷ rest

-- Big-endian bytes of a 64-bit counter.
unfoldable pub put_uint64 : ℕ → Bytes
put_uint64 n =
    (n / 2 ^ 56) % 256
    ∷ (n / 2 ^ 48) % 256
    ∷ (n / 2 ^ 40) % 256
    ∷ (n / 2 ^ 32) % 256
    ∷ (n / 2 ^ 24) % 256
    ∷ (n / 2 ^ 16) % 256
    ∷ (n / 2 ^ 8) % 256
    ∷ n % 256
    ∷ []

abbrev pub byte_at : Bytes → ℕ → ℕ
byte_at [] i = 0
byte_at (b ∷ bs) zero = b
byte_at (b ∷ bs) (suc i) = byte_at bs i

-- RFC 4226's truncation of the hash to 31 bits.
unfoldable pub truncate : Bytes → ℕ
truncate sum =
    let offset = byte_at sum (length sum - 1) % 16 in
    (byte_at sum offset * 2 ^ 24
      + byte_at sum (offset + 1) * 2 ^ 16
      + byte_at sum (offset + 2) * 2 ^ 8
      + byte_at sum (offset + 3))
    % 2 ^ 31

-- The loop `mod *= 10` in 32 bits.
unfoldable pub modulus : ℕ → ℕ
modulus zero = 1
modulus (suc n) = (modulus n * 10) % 2 ^ 32

-- `%0*d`: at least this many digits, from the left.
unfoldable pub decimal : ℕ → ℕ → Bytes → Bytes
decimal zero n out = out
decimal (suc width) n out = decimal width (n / 10) ((b'0' + n % 10) ∷ out)

-- ConstantTimeCompare
abbrev pub same_code : Bytes → Bytes → Bool
same_code a b = bytes_eq a b

-- What the loop over the window has found.
pub record Found : Type 0 where
  pub matched : Option ℕ
  pub replayed : Bool

-- Upper case, base32, and the three keyed hashes.
pub record Crypto : Type 0 where
  pub to_upper : Bytes → Bytes
  pub decode_base32 : Bytes → Option Bytes
  pub hmac : TotpAlgorithm → Bytes → Bytes → Bytes

module _ (crypto : Crypto) where
  abbrev long_enough : Option Bytes → Outcome TotpError Bytes
  long_enough none = failed bad_secret
  long_enough (some raw) = if ltb (length raw) 10 then failed bad_secret else returned raw

  abbrev decoded : Bytes → Outcome TotpError Bytes
  decoded [] = failed bad_secret
  decoded (c ∷ cleaned) = long_enough (crypto.decode_base32 (drop_padding (c ∷ cleaned)))

  unfoldable pub decode_totp_secret : Bytes → Outcome TotpError Bytes
  decode_totp_secret secret = decoded (crypto.to_upper (strip secret))

  abbrev pub supported : TotpAlgorithm → Outcome TotpError (Unit {0})
  supported (unsupported a) = failed bad_algorithm
  supported _ = returned tt

  abbrev pub code_of : ℕ → ℕ → Outcome TotpError Bytes
  code_of value digits =
      if ltb digits 6 || ltb 10 digits
      then failed bad_digits
      else returned (decimal digits (value % modulus digits) [])

  unfoldable pub totp_code_at : Bytes → ℕ → TotpAlgorithm → ℕ → Outcome TotpError Bytes
  totp_code_at secret counter alg digits = decode_totp_secret secret >>= λ raw.
      supported alg >>= λ _. code_of (truncate (crypto.hmac alg raw (put_uint64 counter))) digits

  unfoldable pub totp_code : Bytes → ℤ → Outcome TotpError Bytes
  totp_code secret at = totp_code_at secret (totp_counter at) sha1 totp_digits

  -- A candidate of the given step, compared.
  abbrev pub compared : Bytes → ℕ → ℕ → Found → Bytes → Found
  compared code last step found candidate =
      if same_code candidate code
      then (if ltb last step
          then record found { matched = some step }
          else record found { replayed = true })
      else found

  unfoldable pub try_step : Bytes → Bytes → ℕ → Found → ℕ → Outcome TotpError Found
  try_step secret code last found step = totp_code_at secret step sha1 totp_digits >>= λ candidate.
      returned (compared code last step found candidate)

  abbrev pub nothing : Found
  nothing = record { matched = none; replayed = false }

  -- The three rounds: the step before, the current one and the next.
  unfoldable pub verify_steps : Bytes → Bytes → ℕ → ℕ → Outcome TotpError Found
  verify_steps secret code last zero = do
    here ← try_step secret code last nothing 0
    try_step secret code last here 1
  verify_steps secret code last (suc current) = do
    before ← try_step secret code last nothing current
    here ← try_step secret code last before (suc current)
    try_step secret code last here (suc (suc current))

  abbrev pub verdict : Found → Outcome TotpError ℕ
  verdict found = elim found.matched [
    | some step ↦ returned step
    | none ↦ if found.replayed then failed totp_replayed else failed totp_invalid
  ]

  -- The result is the step that was matched.
  unfoldable pub verify_totp : Bytes → Bytes → ℤ → ℕ → Outcome TotpError ℕ
  verify_totp secret code at last =
      let cleaned = trim_space (without_spaces code) in
      if not (length cleaned == totp_digits)
      then failed totp_invalid
      else (decode_totp_secret secret >>= λ raw.
          verify_steps secret cleaned last (totp_counter at) >>= verdict)
