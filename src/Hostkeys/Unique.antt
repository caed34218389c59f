-- ===== src/Hostkeys/Unique.antt =====
-- internal/hostkeys/hostkeys.go: there is at most one row for an owner, a host, a port and a type of key.
use secure_crt.Base.{
  ℕ, ◌≤◌, ◌≡◌, refl, Bool, true, false, ◌&&◌, List, [], Bytes, bytes_eq, bytes_eq_sound, arith,
}
use secure_crt.Base.Int.{ℤ, int_eq, int_eq_sound}
use secure_crt.Base.Outcome.{Outcome}
use secure_crt.Hostkeys.{Entry, is_for, delete_where}

and-true : (b c : Bool) → (b && c) ≡ true → (b ≡ true) × (c ≡ true)
and-true true c h = (refl, h)
and-true false c h = cc

-- A row is for one owner, host, port and type only.
pub is_for_same :
    (user_id host : Bytes) (port : ℤ) (key_type : Bytes) (e : Entry)
    → is_for user_id host port key_type e ≡ true
    → is_for user_id host port key_type ≡ is_for e.user_id e.hostname e.port e.key_type
is_for_same user_id host port key_type e h =
    let (owner, h) = and-true (bytes_eq e.user_id user_id) _ h in
    let (name, h) = and-true (bytes_eq e.hostname host) _ h in
    let (number, kind) = and-true (int_eq e.port port) _ h in
    let owner = bytes_eq_sound e.user_id user_id owner in
    let name = bytes_eq_sound e.hostname host name in
    let number = int_eq_sound e.port port number in
    let kind = bytes_eq_sound e.key_type key_type kind in rw (owner, name, number, kind) refl

abbrev count : (Entry → Bool) → List Entry → ℕ
count test rows = (delete_where test rows).1

abbrev pub IsUnique : List Entry → Type 0
IsUnique rows =
    (user_id host : Bytes) (port : ℤ) (key_type : Bytes)
    → count (is_for user_id host port key_type) rows ≤ 1

pub empty-IsUnique : IsUnique []
unfolding delete_where
empty-IsUnique user_id host port key_type = omega arith
