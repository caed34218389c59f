-- ===== src/Vault/Envelope/Clear.antt =====
-- A cipher that hides nothing and checks the additional data, and a derivation of keys, for runs.
use secure_crt.Base.{
  ℕ, zero, suc, ◌≡◌, refl, ◌==◌, Option, none, some, [], ◌∷◌, ◌++◌, if◌then◌else◌, Bytes, take,
  Bool-cases, inl, inr, arith,
}
use secure_crt.Vault.Key.{Kdf}
use secure_crt.Vault.Envelope.{Gcm}

abbrev pub ones : ℕ → Bytes
ones zero = []
ones (suc n) = 1 ∷ ones n

abbrev pub strip : Bytes → Bytes → Option Bytes
strip [] c = some c
strip (x ∷ extra) [] = none
strip (x ∷ extra) (y ∷ c) = let rest = strip extra c in if x == y then rest else none

pub strip-append : (extra plaintext : Bytes) → strip extra (extra ++ plaintext) ≡ some plaintext
strip-append [] plaintext = refl
strip-append (x ∷ extra) plaintext = ground (arith, strip-append extra plaintext)

pub strip-some :
    (extra c : Bytes) {plaintext : Bytes} → strip extra c ≡ some plaintext → c ≡ extra ++ plaintext
strip-some [] c h = cc
strip-some (x ∷ extra) [] h = cc
strip-some (x ∷ extra) (y ∷ c) h = elim (Bool-cases (x == y)) [
  | inl e ↦ let same : y ≡ x = ground (arith, e) in let rest = strip-some extra c (rw e at h) in cc
  | inr e ↦ absurd (none-ne-some (rw e at h))
]
  where
    none-ne-some : {p : Bytes} → none ≡ some p → ⊥
    none-ne-some h = cc

abbrev pub clear_gcm : Gcm
clear_gcm = record {
  nonce_size = 12;
  seal = λ key nonce plaintext extra. extra ++ plaintext;
  open_ = λ key nonce ciphertext extra. strip extra ciphertext;
  open_-seal = λ key nonce plaintext extra. strip-append extra plaintext;
  seal-open_ = λ key nonce ciphertext extra plaintext h. strip-some extra ciphertext h;
}

abbrev pub clear_kdf : Kdf
clear_kdf passphrase p n = take n (passphrase ++ ones 32)
