-- ===== src/Vault/Tests.antt =====
-- Runs of the key cache at concrete inputs.
use secure_crt.Base.{
  ◌+◌, ◌≡◌, refl, none, some, List, [], ◌∷◌, ◌++◌, ◌⊎◌, Bytes, arith, codes, bytes_eq,
}
use secure_crt.Base.Outcome.{returned}
use secure_crt.Vault.Key.{validate, is_zero, random}
use secure_crt.Vault.Envelope.{
  Envelope, credential_aad, seal, open_, append_parts, aad_bytes, validate_aad,
}
use secure_crt.Vault.Envelope.Clear.{ones, clear_gcm}
use secure_crt.Vault.Envelope.Binding.{Forgery, open_-bound}
use secure_crt.Vault.Cache.{
  new_cache, get, Call, call_put, call_get, call_forget, call_evict, after_calls, lookup,
  after_call, evict_expired, sweep, put, delete, refresh,
}
use secure_crt.Vault.Cache.Ownership.{held, count, given, held-zeroed}
use secure_crt.Vault.Cache.Expiry.{get-idle}

abbrev calls : List Call
calls =
    call_put (codes "a") 7 100
    ∷ call_put (codes "b") 8 105
    ∷ call_get (codes "a") 108
    ∷ call_evict 116
    ∷ []

held-zeroed_example :
    let c = after_calls (new_cache 10) (calls ++ call_forget (codes "a") ∷ []) in
    held 7 c.entries + count 7 c.zeroed ≡ given 7 (calls ++ call_forget (codes "a") ∷ [])
held-zeroed_example = held-zeroed 10 7 (calls ++ call_forget (codes "a") ∷ [])

get-idle_example : (get (after_calls (new_cache 10) calls) (codes "a") 119).1 ≡ none
get-idle_example =
    get-idle 10 108 119 (codes "a") calls
      ((λ e. omega arith), ((λ e. omega arith), ((λ e. omega arith), (tt, tt)))) (omega arith)

-- Inside the time to live the key is there.
get_in_time : (get (after_calls (new_cache 10) calls) (codes "a") 118).1 ≡ some 7
unfolding get after_calls lookup after_call evict_expired sweep put bytes_eq delete new_cache
    refresh
get_in_time = refl

abbrev secret : Bytes
secret = codes "pw"

abbrev sealed : Envelope
sealed = record {
  version = 1;
  nonce = ones 12;
  ciphertext =
      1 ∷ 0 ∷ 0 ∷ 0 ∷ 10 ∷ codes "credential"
      ++ (0 ∷ 0 ∷ 0 ∷ 1 ∷ codes "u"
          ++ (0 ∷ 0 ∷ 0 ∷ 2 ∷ codes "c1" ++ (0 ∷ 0 ∷ 0 ∷ 1 ∷ codes "p" ++ secret)));
}

sealed_lem :
    seal clear_gcm (ones 32) (credential_aad (codes "u") (codes "c1") (codes "p")) (ones 20) secret
    ≡ returned sealed
unfolding seal append_parts aad_bytes validate_aad validate is_zero random
sealed_lem = refl

open_lem :
    open_ clear_gcm (ones 32) (credential_aad (codes "u") (codes "c1") (codes "p")) sealed
    ≡ returned secret
unfolding open_ append_parts aad_bytes validate_aad validate is_zero
open_lem = refl

open_-bound_example :
    let aad = credential_aad (codes "u") (codes "c1") (codes "p") in
    ((aad ≡ aad) × (secret ≡ secret)) ⊎ Forgery clear_gcm (ones 32)
open_-bound_example =
    let aad = credential_aad (codes "u") (codes "c1") (codes "p") in
    open_-bound clear_gcm (ones 32) aad aad (ones 20) secret secret sealed sealed_lem open_lem
