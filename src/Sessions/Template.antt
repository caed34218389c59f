-- ===== src/Sessions/Template.antt =====
-- internal/sessions/logon.go: what a send template types. The index of the loop is a count of bytes
-- still to be skipped.
pub mod SinglePass
use secure_crt.Base.{
  ℕ, zero, suc, ◌+◌, ◌-◌, ◌*◌, ◌/◌, ◌%◌, ◌^◌, ◌≤◌, ◌<◌, min, ◌≡◌, refl, sym, ap, ◌∙◌, ◌≢◌, ◌↔◌, ◌⊎◌,
  inl, inr, Bool, true, false, not, ◌&&◌, ◌||◌, Option, none, some, List, [], ◌∷◌, ◌++◌, map,
  append-nil, append_assoc, arith, ltb, leb, ◌==◌, if◌then◌else◌, ltb→lt, lt→ltb, ==_iff,
  Bool-cases, Option-cases, Bytes, codes, bytes_eq, bytes_eq_refl, bytes_eq_sound, length,
  get_elem?, take, drop, length-append, take-append-drop, length-take, length-drop, All, All-append,
}
use secure_crt.Base.Text.{has_prefix}

abbrev pub placeholder_username : Bytes
placeholder_username = codes "%USERNAME%"

abbrev pub placeholder_password : Bytes
placeholder_password = codes "%PASSWORD%"

abbrev pub capture : List Bytes → ℕ → Bytes
capture [] n = []
capture (c ∷ cs) zero = c
capture (c ∷ cs) (suc n) = capture cs n

-- What a backslash and the byte behind it stand for.
abbrev pub escape_of : ℕ → Bytes
escape_of c =
    if c == b'r'
    then 13 ∷ []
    else if c == b'n'
    then 10 ∷ []
    else if c == b't'
    then 9 ∷ []
    else if c == b'\\'
    then b'\\' ∷ []
    else b'\\' ∷ c ∷ []

abbrev pub is_reference : ℕ → Bool
is_reference c = leb b'1' c && leb c b'9'

module _ (username password : Bytes) (captures : List Bytes) where
  unfoldable pub expand_loop : ℕ → Bytes → Bytes
  expand_loop skip [] = []
  expand_loop (suc skip) (c ∷ send) = expand_loop skip send
  expand_loop zero (c ∷ []) = c ∷ []
  expand_loop zero (c ∷ d ∷ send) =
      let one = expand_loop 0 (d ∷ send) in
      let two = expand_loop 1 (d ∷ send) in
      let ten = expand_loop 9 (d ∷ send) in
      if c == b'\\'
      then escape_of d ++ two
      else if has_prefix (c ∷ d ∷ send) placeholder_username
      then username ++ ten
      else if has_prefix (c ∷ d ∷ send) placeholder_password
      then password ++ ten
      else if c == b'$' && is_reference d
      then capture captures (d - b'0') ++ two
      else c ∷ one

-- `Expand`
unfoldable pub expand : Bytes → Bytes → Bytes → List Bytes → Bytes
unfolding expand_loop
expand send username password captures = expand_loop username password captures 0 send

-- `ExpandSend`
unfoldable pub expand_send : Bytes → Bytes → Bytes → Bytes
unfolding expand
expand_send send username password = expand send username password []
