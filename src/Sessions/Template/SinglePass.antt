-- ===== src/Sessions/Template/SinglePass.antt =====
-- logon.go: `Expand` looks at the template once, and at nothing that it inserts.
use secure_crt.Base.{
  ℕ, zero, suc, ◌-◌, ◌≡◌, refl, ◌&&◌, List, [], ◌∷◌, ◌++◌, arith, ◌==◌, if◌then◌else◌, Bytes,
}
use secure_crt.Base.Text.{has_prefix}
use secure_crt.Sessions.Template.{
  expand, expand_loop, capture, escape_of, is_reference, placeholder_username, placeholder_password,
}

-- A template, read: bytes to be typed, and the places of the three kinds of value.
pub data Piece : Type 0 where
  typed : Bytes → Piece
  username_here password_here : Piece
  capture_here : ℕ → Piece

unfoldable pub pieces : ℕ → Bytes → List Piece
pieces skip [] = []
pieces (suc skip) (c ∷ send) = pieces skip send
pieces zero (c ∷ []) = typed (c ∷ []) ∷ []
pieces zero (c ∷ d ∷ send) =
    let one = pieces 0 (d ∷ send) in
    let two = pieces 1 (d ∷ send) in
    let ten = pieces 9 (d ∷ send) in
    if c == b'\\'
    then typed (escape_of d) ∷ two
    else if has_prefix (c ∷ d ∷ send) placeholder_username
    then username_here ∷ ten
    else if has_prefix (c ∷ d ∷ send) placeholder_password
    then password_here ∷ ten
    else if c == b'$' && is_reference d
    then capture_here (d - b'0') ∷ two
    else typed (c ∷ []) ∷ one

module _ (username password : Bytes) (captures : List Bytes) where
  abbrev pub value : Piece → Bytes
  value (typed bs) = bs
  value username_here = username
  value password_here = password
  value (capture_here n) = capture captures n

  abbrev pub fill : List Piece → Bytes
  fill [] = []
  fill (p ∷ ps) = value p ++ fill ps

  fill-pieces :
      (skip : ℕ) (send : Bytes)
      → expand_loop username password captures skip send ≡ fill (pieces skip send)
  unfolding expand_loop pieces
  fill-pieces skip [] = refl
  fill-pieces (suc skip) (c ∷ send) = fill-pieces skip send
  fill-pieces zero (c ∷ []) = refl
  fill-pieces zero (c ∷ d ∷ send) =
      ground (arith, fill-pieces 0 (d ∷ send), fill-pieces 1 (d ∷ send), fill-pieces 9 (d ∷ send))

-- The expansion is the template's own pieces with the values put in: where the username, the
-- password and the captures go, and what is typed between them, is read off the template alone,
-- and each value stands in the result as it was given, whatever bytes it holds.
pub expand-fill :
    (send username password : Bytes) (captures : List Bytes)
    → expand send username password captures ≡ fill username password captures (pieces 0 send)
unfolding expand
expand-fill send username password captures = fill-pieces username password captures 0 send
