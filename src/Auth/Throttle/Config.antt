-- ===== src/Auth/Throttle/Config.antt =====
-- ratelimit.go: the configuration of the throttle.
use secure_crt.Base.{
  ℕ, zero, suc, ◌*◌, ◌≡◌, refl, Bool, true, false, not, ◌&&◌, Option, none, some, List, [], ◌∷◌,
  ◌++◌, arith, ltb, leb, if◌then◌else◌,
}
use secure_crt.Base.Int.{ℤ}

pub record ThrottleConfig : Type 0 where
  pub max_per_account : ℤ
  pub max_per_address : ℤ
  pub window : ℤ
  pub lockout_duration : ℤ

-- A configuration that has been validated: all four are positive.
pub record Limits : Type 0 where
  pub max_per_account : ℕ
  pub max_per_address : ℕ
  pub window : ℕ
  pub lockout_duration : ℕ

-- Nanoseconds.
abbrev pub minute : ℕ
minute = 60 * 1_000_000_000

pub default_throttle_config : ThrottleConfig
default_throttle_config = record {
  max_per_account = ℤ.pos 5;
  max_per_address = ℤ.pos 30;
  window = ℤ.pos (15 * minute);
  lockout_duration = ℤ.pos (15 * minute);
}

pub data ConfigError : Type 0 where
  account_limit address_limit bad_window bad_lockout : ConfigError

abbrev is_positive : ℤ → Bool
is_positive (ℤ.pos zero) = false
is_positive (ℤ.pos (suc n)) = true
is_positive (ℤ.negsuc n) = false

abbrev pub int_lt : ℤ → ℤ → Bool
int_lt (ℤ.pos a) (ℤ.pos b) = ltb a b
int_lt (ℤ.pos a) (ℤ.negsuc b) = false
int_lt (ℤ.negsuc a) (ℤ.pos b) = true
int_lt (ℤ.negsuc a) (ℤ.negsuc b) = ltb b a

abbrev when : Bool → ConfigError → List ConfigError
when true e = e ∷ []
when false e = []

-- All the errors, joined.
unfoldable pub validate : ThrottleConfig → List ConfigError
validate c =
    when (not (is_positive c.max_per_account)) account_limit
    ++ (when (int_lt c.max_per_address c.max_per_account) address_limit
        ++ (when (not (is_positive c.window)) bad_window
            ++ when (not (is_positive c.lockout_duration)) bad_lockout))

abbrev pub to_ℕ : ℤ → ℕ
to_ℕ (ℤ.pos n) = n
to_ℕ (ℤ.negsuc n) = 0

abbrev accept : ThrottleConfig → List ConfigError → Option Limits
accept c [] = some (record {
  max_per_account = to_ℕ c.max_per_account;
  max_per_address = to_ℕ c.max_per_address;
  window = to_ℕ c.window;
  lockout_duration = to_ℕ c.lockout_duration;
})
accept c (e ∷ es) = none

-- The configuration that `NewThrottle` takes, if it takes it.
unfoldable pub new_limits : ThrottleConfig → Option Limits
unfolding validate
new_limits c = accept c (validate c)

-- A throttle is built exactly from a configuration whose window and lockout are positive and whose
-- limits satisfy 1 ≤ per account ≤ per address; it then works with those numbers.
pub new_limits_lem :
    (account address window lockout : ℕ)
    → new_limits (record {
      max_per_account = ℤ.pos account;
      max_per_address = ℤ.pos address;
      window = ℤ.pos window;
      lockout_duration = ℤ.pos lockout;
    })
      ≡ (if (leb 1 account && leb account address) && (leb 1 window && leb 1 lockout)
          then some (record {
            max_per_account = account;
            max_per_address = address;
            window = window;
            lockout_duration = lockout;
          })
          else none)
unfolding new_limits
new_limits_lem zero address zero zero = refl
new_limits_lem account address window lockout = ground arith
