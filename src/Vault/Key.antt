-- ===== src/Vault/Key.antt =====
-- internal/vault/key.go: keys, and their derivation from a passphrase. The derivation functions of the
-- libraries and the random bytes are parameters; a random source that gives too little is an error.
use secure_crt.Base.{
  ℕ, ◌*◌, Bool, true, not, ◌&&◌, [], ◌∷◌, ltb, leb, ◌==◌, if◌then◌else◌, Bytes, bytes_eq, length,
  take,
}
use secure_crt.Base.Outcome.{Outcome, failed, returned, ◌>>=◌}
use secure_crt.Sessions.Rules.{is_empty}

abbrev pub key_len : ℕ
key_len = 32

abbrev pub salt_len : ℕ
salt_len = 16

abbrev pub Key : Type 0
Key = Bytes

pub data VaultError : Type 0 where
  wrong_passphrase tampered bad_key_length zero_key no_entropy : VaultError
  kdf_time kdf_memory kdf_threads kdf_salt empty_passphrase empty_info : VaultError
  empty_scope empty_owner aad_too_long bad_version panics : VaultError

unfoldable pub zero : Key → Key
zero [] = []
zero (b ∷ k) = 0 ∷ zero k

unfoldable pub is_zero : Key → Bool
is_zero [] = true
is_zero (b ∷ k) = b == 0 && is_zero k

unfoldable pub equal : Key → Key → Bool
equal k other = bytes_eq k other

unfoldable pub validate : Key → Outcome VaultError (Unit {0})
validate k =
    if not (length k == key_len)
    then failed bad_key_length
    else if is_zero k
    then failed zero_key
    else returned tt

-- io.ReadFull of the random source.
unfoldable pub random : ℕ → Bytes → Outcome VaultError Bytes
random n entropy = if leb n (length entropy) then returned (take n entropy) else failed no_entropy

unfoldable pub new_key : Bytes → Outcome VaultError Key
new_key entropy = random key_len entropy

unfoldable pub new_salt : Bytes → Outcome VaultError Bytes
new_salt entropy = random salt_len entropy

pub record KdfParams : Type 0 where
  pub time : ℕ
  pub memory_kb : ℕ
  pub threads : ℕ
  pub salt : Bytes

abbrev pub max_kdf_time : ℕ
max_kdf_time = 16

abbrev pub max_kdf_memory_kb : ℕ
max_kdf_memory_kb = 1024 * 1024

abbrev pub max_kdf_threads : ℕ
max_kdf_threads = 16

unfoldable pub validate_kdf : KdfParams → Outcome VaultError (Unit {0})
validate_kdf p =
    if ltb p.time 1
    then failed kdf_time
    else if ltb max_kdf_time p.time
    then failed kdf_time
    else if ltb p.memory_kb (16 * 1024)
    then failed kdf_memory
    else if ltb max_kdf_memory_kb p.memory_kb
    then failed kdf_memory
    else if ltb p.threads 1
    then failed kdf_threads
    else if ltb max_kdf_threads p.threads
    then failed kdf_threads
    else if ltb (length p.salt) salt_len
    then failed kdf_salt
    else returned tt

unfoldable pub new_kdf_params : ℕ → ℕ → ℕ → Bytes → Outcome VaultError KdfParams
new_kdf_params time memory_kb threads entropy = new_salt entropy >>= λ salt.
    let p : KdfParams = record {
      time = time;
      memory_kb = memory_kb;
      threads = threads;
      salt = salt;
    } in
    validate_kdf p >>= λ _. returned p

-- argon2.IDKey, of a passphrase, the parameters and the length of the key.
abbrev pub Kdf : Type 0
Kdf = Bytes → KdfParams → ℕ → Bytes

unfoldable pub derive_kek : Kdf → Bytes → KdfParams → Outcome VaultError Key
derive_kek id_key passphrase p =
    if is_empty passphrase
    then failed empty_passphrase
    else validate_kdf p >>= λ _. returned (id_key passphrase p key_len)

-- HKDF over SHA-256, of a key and a purpose, as a source of bytes.
unfoldable pub derive_subkey : (Key → Bytes → Bytes) → Key → Bytes → Outcome VaultError Key
derive_subkey hkdf master info = validate master >>= λ _.
    if is_empty info then failed empty_info else random key_len (hkdf master info)
