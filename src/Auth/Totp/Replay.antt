-- ===== src/Auth/Totp/Replay.antt =====
-- totp.go: a code is taken once.
use secure_crt.Base.{
  ℕ, zero, suc, ◌+◌, ◌-◌, ◌≤◌, ◌<◌, ◌≡◌, ap, ◌∙◌, inl, inr, some, arith, ltb, ◌==◌, ltb→lt,
  Bool-cases, if-rule, Bytes, bytes_eq, bytes_eq_sound, length,
}
use mathlib.Core.Path.{subst}
use secure_crt.Base.Int.{ℤ}
use secure_crt.Base.Text.{trim_space}
use secure_crt.Base.Outcome.{Outcome, failed, returned, >>=-returned}
use secure_crt.Auth.Totp.{
  TotpError, compared, nothing, Crypto, totp_invalid, Found, totp_code_at, totp_counter, try_step,
  verify_steps, verdict, verify_totp, decode_totp_secret, without_spaces, sha1, totp_digits,
}

module _ (crypto : Crypto) (secret code : Bytes) (last lo hi : ℕ) where
  -- A step that has been matched is new, is in the window, and has this code.
  record IsSound (found : Found) : Type 0 where
    at :
        (s : ℕ)
        → found.matched ≡ some s
        → (last < s)
          × (totp_code_at crypto secret s sha1 totp_digits ≡ returned code)
          × (lo ≤ s)
          × (s ≤ hi)

  compared-IsSound :
      (found : Found) (step : ℕ) (candidate : Bytes)
      → IsSound found
      → totp_code_at crypto secret step sha1 totp_digits ≡ returned candidate
      → lo ≤ step
      → step ≤ hi
      → IsSound (compared crypto code last step found candidate)
  compared-IsSound found step candidate h e l r =
      if-rule IsSound (bytes_eq candidate code)
        (λ same.
          if-rule IsSound (ltb last step)
            (λ fresh. record {
              at = λ s m.
                  let q : step ≡ s = cc in
                  rw (← q) (
                    ltb→lt last step fresh,
                    e ∙ ap returned (bytes_eq_sound candidate code same),
                    l,
                    r,
                  );
            })
            (λ _. record { at = h.at }))
        (λ _. h)

  try_step-IsSound :
      (found : Found) (step : ℕ) {next : Found}
      → IsSound found
      → lo ≤ step
      → step ≤ hi
      → try_step crypto secret code last found step ≡ returned next
      → IsSound next
  unfolding try_step
  try_step-IsSound found step {next} h l r e =
      let (candidate, p, q) = >>=-returned (totp_code_at crypto secret step sha1 totp_digits) _ e in
      let same : compared crypto code last step found candidate ≡ next = cc q in
      subst IsSound same (compared-IsSound found step candidate h p l r)

nothing-IsSound :
    (crypto : Crypto) (secret code : Bytes) (last lo hi : ℕ)
    → IsSound crypto secret code last lo hi (nothing crypto)
nothing-IsSound crypto secret code last lo hi = record { at = λ s m. cc }

module _ (crypto : Crypto) (secret code : Bytes) (last : ℕ) where
  verify_steps-IsSound :
      (current : ℕ) {found : Found}
      → verify_steps crypto secret code last current ≡ returned found
      → IsSound crypto secret code last (current - 1) (current + 1) found
  unfolding verify_steps
  verify_steps-IsSound zero e =
      let start = nothing-IsSound crypto secret code last 0 1 in
      let (here, p, q) = >>=-returned (try_step crypto secret code last (nothing crypto) 0) _ e in
      let h =
        try_step-IsSound crypto secret code last 0 1 (nothing crypto) 0 start (omega arith)
          (omega arith) p in
      try_step-IsSound crypto secret code last 0 1 here 1 h (omega arith) (omega arith) q
  verify_steps-IsSound (suc n) e =
      let lo = suc n - 1 in
      let hi = suc n + 1 in
      let start = nothing-IsSound crypto secret code last lo hi in
      let (before, p, q) = >>=-returned (try_step crypto secret code last (nothing crypto) n) _ e in
      let (here, p', q') = >>=-returned (try_step crypto secret code last before (suc n)) _ q in
      let b =
        try_step-IsSound crypto secret code last lo hi (nothing crypto) n start (omega arith)
          (omega arith) p in
      let h =
        try_step-IsSound crypto secret code last lo hi before (suc n) b (omega arith) (omega arith)
          p' in
      try_step-IsSound crypto secret code last lo hi here (suc (suc n)) h (omega arith)
        (omega arith) q'

verdict-returned :
    (crypto : Crypto) (found : Found) {step : ℕ}
    → verdict crypto found ≡ returned step
    → found.matched ≡ some step
verdict-returned crypto found e = ground arith

-- A code that is accepted is the code of the step that is reported; that step is the current one or
-- a neighbour of it, and is later than the last step that the caller has given.
pub verify_totp_sound :
    (crypto : Crypto) (secret code : Bytes) (at : ℤ) (last step : ℕ)
    → verify_totp crypto secret code at last ≡ returned step
    → (last < step)
      × (totp_code_at crypto secret step sha1 totp_digits
          ≡ returned (trim_space (without_spaces code)))
      × (step ≤ totp_counter at + 1)
      × (totp_counter at ≤ step + 1)
unfolding verify_totp
verify_totp_sound crypto secret code at last step e =
    elim (Bool-cases (length (trim_space (without_spaces code)) == totp_digits)) [
      | inr wrong ↦ absurd (failed-ne-returned (rw wrong at e))
      | inl right ↦
          let (raw, p, q) = >>=-returned (decode_totp_secret crypto secret) _ (rw right at e) in
          let (found, steps, last_one) =
            >>=-returned
              (verify_steps crypto secret (trim_space (without_spaces code)) last (totp_counter at))
              _ q in
          let sound =
            verify_steps-IsSound crypto secret (trim_space (without_spaces code)) last
              (totp_counter at) steps in
          let (new, same, lo, hi) = sound.at step (verdict-returned crypto found last_one) in
          (new, same, hi, omega (arith, lo))
    ]
  where
    failed-ne-returned : ◌≡◌ {A = Outcome TotpError ℕ} (failed totp_invalid) (returned step) → ⊥
    failed-ne-returned h = cc
