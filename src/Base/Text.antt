-- ===== src/Base/Text.antt =====
-- What the source uses of Go's `strings` on the bytes of a text.
use Prim.Native.Nat.{ℕ, zero, suc}
use mathlib.Core.Bool.{Bool, true, false, ◌&&◌, ◌||◌}
use mathlib.Core.List.{[], ◌∷◌, reverse}
use secure_crt.Base.Tests.{◌==◌, leb, if◌then◌else◌}
use secure_crt.Base.Lists.{Bytes}

-- strings.HasPrefix
unfoldable pub has_prefix : Bytes → Bytes → Bool
has_prefix s [] = true
has_prefix [] (p ∷ ps) = false
has_prefix (x ∷ s) (p ∷ ps) = x == p && has_prefix s ps

-- strings.Contains
unfoldable pub contains : Bytes → Bytes → Bool
unfolding has_prefix
contains [] p = has_prefix [] p
contains (x ∷ s) p = has_prefix (x ∷ s) p || contains s p

abbrev is_ascii_space : ℕ → Bool
is_ascii_space c = (leb 9 c && leb c 13) || c == 32

-- The second byte of a space of two bytes, and the last two of a space of three.
abbrev is_wide2 : ℕ → ℕ → Bool
is_wide2 a b = a == 0xC2 && (b == 0x85 || b == 0xA0)

abbrev is_wide3 : ℕ → ℕ → ℕ → Bool
is_wide3 a b c =
    (a == 0xE1 && (b == 0x9A && c == 0x80))
    || ((a == 0xE2
          && ((b == 0x80 && ((leb 0x80 c && leb c 0x8A) || (c == 0xA8 || (c == 0xA9 || c == 0xAF))))
              || (b == 0x81 && c == 0x9F)))
        || (a == 0xE3 && (b == 0x80 && c == 0x80)))

-- Leading white space is dropped; the first argument counts bytes of a space already read.
trim_left : ℕ → Bytes → Bytes
trim_left n [] = []
trim_left (suc n) (x ∷ s) = trim_left n s
trim_left zero (x ∷ []) = if is_ascii_space x then [] else x ∷ []
trim_left zero (x ∷ y ∷ []) =
    let one = trim_left 0 (y ∷ []) in
    if is_ascii_space x then one else if is_wide2 x y then [] else x ∷ y ∷ []
trim_left zero (x ∷ y ∷ z ∷ s) =
    let one = trim_left 0 (y ∷ z ∷ s) in
    let two = trim_left 1 (y ∷ z ∷ s) in
    let three = trim_left 2 (y ∷ z ∷ s) in
    if is_ascii_space x
    then one
    else if is_wide2 x y
    then two
    else if is_wide3 x y z
    then three
    else x ∷ y ∷ z ∷ s

-- The same from the end: the text is given backwards.
trim_back : ℕ → Bytes → Bytes
trim_back n [] = []
trim_back (suc n) (x ∷ s) = trim_back n s
trim_back zero (x ∷ []) = if is_ascii_space x then [] else x ∷ []
trim_back zero (x ∷ y ∷ []) =
    let one = trim_back 0 (y ∷ []) in
    if is_ascii_space x then one else if is_wide2 y x then [] else x ∷ y ∷ []
trim_back zero (x ∷ y ∷ z ∷ s) =
    let one = trim_back 0 (y ∷ z ∷ s) in
    let two = trim_back 1 (y ∷ z ∷ s) in
    let three = trim_back 2 (y ∷ z ∷ s) in
    if is_ascii_space x
    then one
    else if is_wide2 y x
    then two
    else if is_wide3 z y x
    then three
    else x ∷ y ∷ z ∷ s

-- strings.TrimSpace
unfoldable pub trim_space : Bytes → Bytes
unfolding trim_left trim_back
trim_space s = reverse (trim_back 0 (reverse (trim_left 0 s)))
