-- ===== src/Sessions/Resolve/Nearest.antt =====
-- connections.go: what `resolveWith` gives, setting by setting.
use secure_crt.Base.{
  ℕ, zero, suc, ◌≤◌, ◌<◌, ◌≡◌, ◌⊎◌, inl, inr, leb, Bool-cases, refl, sym, ap, ◌∙◌, false, Option,
  none, some, List, [], ◌∷◌, map, arith, Bytes,
}
use secure_crt.Base.Outcome.{failed, returned}
use secure_crt.Base.Int.{ℤ}
use secure_crt.Sessions.Jump.{Protocol}
use secure_crt.Sessions.Rules.{is_empty}
use secure_crt.Sessions.Settings.{Settings, merge, or_parent, default_port}
use secure_crt.Sessions.Folders.{Folder, too_deep}
use secure_crt.Sessions.Resolve.{
  Session, Resolved, or_inherited, or_inherited_port, or_default_port, resolved, resolve_walk,
  resolve_with,
}

-- The first value that is given, the nearest first.
abbrev pub first {ℓ} : {A : Type ℓ} → Option A → List (Option A) → Option A
first (some a) ys = some a
first none [] = none
first none (y ∷ ys) = first y ys

first-or {ℓ} :
    {A : Type ℓ} (x y : Option A) (ys : List (Option A))
    → first (or_parent x y) ys ≡ first x (y ∷ ys)
first-or none y ys = refl
first-or (some a) y ys = refl

first_nothing {ℓ} : {A : Type ℓ} (x : Option A) → first x [] ≡ x
first_nothing none = refl
first_nothing (some a) = refl

-- Every setting of its own, but the keys that are forwarded.
unfoldable pub nearest : Settings → List Settings → Settings
nearest s ds = record s {
  username = first s.username (map (λ (d : Settings). d.username) ds);
  port = first s.port (map (λ (d : Settings). d.port) ds);
  credential_id = first s.credential_id (map (λ (d : Settings). d.credential_id) ds);
  colour_scheme = first s.colour_scheme (map (λ (d : Settings). d.colour_scheme) ds);
  font_size = first s.font_size (map (λ (d : Settings). d.font_size) ds);
  scrollback = first s.scrollback (map (λ (d : Settings). d.scrollback) ds);
  keep_alive_seconds = first s.keep_alive_seconds (map (λ (d : Settings). d.keep_alive_seconds) ds);
  log_session = first s.log_session (map (λ (d : Settings). d.log_session) ds);
  logon_steps = first s.logon_steps (map (λ (d : Settings). d.logon_steps) ds);
  serial_baud = first s.serial_baud (map (λ (d : Settings). d.serial_baud) ds);
  serial_data_bits = first s.serial_data_bits (map (λ (d : Settings). d.serial_data_bits) ds);
  serial_stop_bits = first s.serial_stop_bits (map (λ (d : Settings). d.serial_stop_bits) ds);
  serial_parity = first s.serial_parity (map (λ (d : Settings). d.serial_parity) ds);
  serial_flow = first s.serial_flow (map (λ (d : Settings). d.serial_flow) ds);
  triggers = first s.triggers (map (λ (d : Settings). d.triggers) ds);
}

nearest_nothing : (s : Settings) → nearest s [] ≡ s
unfolding nearest
nearest_nothing s =
    rw
      (
        first_nothing s.username,
        first_nothing s.port,
        first_nothing s.credential_id,
        first_nothing s.colour_scheme,
        first_nothing s.font_size,
        first_nothing s.scrollback,
        first_nothing s.keep_alive_seconds,
        first_nothing s.log_session,
        first_nothing s.logon_steps,
        first_nothing s.serial_baud,
        first_nothing s.serial_data_bits,
        first_nothing s.serial_stop_bits,
        first_nothing s.serial_parity,
        first_nothing s.serial_flow,
        first_nothing s.triggers,
      )
      refl

nearest-merge : (s d : Settings) (ds : List Settings) → nearest (merge s d) ds ≡ nearest s (d ∷ ds)
unfolding nearest merge
nearest-merge s d ds =
    rw
      (
        first-or s.username d.username (map (λ (r : Settings). r.username) ds),
        first-or s.port d.port (map (λ (r : Settings). r.port) ds),
        first-or s.credential_id d.credential_id (map (λ (r : Settings). r.credential_id) ds),
        first-or s.colour_scheme d.colour_scheme (map (λ (r : Settings). r.colour_scheme) ds),
        first-or s.font_size d.font_size (map (λ (r : Settings). r.font_size) ds),
        first-or s.scrollback d.scrollback (map (λ (r : Settings). r.scrollback) ds),
        first-or s.keep_alive_seconds d.keep_alive_seconds
            (map (λ (r : Settings). r.keep_alive_seconds) ds),
        first-or s.log_session d.log_session (map (λ (r : Settings). r.log_session) ds),
        first-or s.logon_steps d.logon_steps (map (λ (r : Settings). r.logon_steps) ds),
        first-or s.serial_baud d.serial_baud (map (λ (r : Settings). r.serial_baud) ds),
        first-or s.serial_data_bits d.serial_data_bits
            (map (λ (r : Settings). r.serial_data_bits) ds),
        first-or s.serial_stop_bits d.serial_stop_bits
            (map (λ (r : Settings). r.serial_stop_bits) ds),
        first-or s.serial_parity d.serial_parity (map (λ (r : Settings). r.serial_parity) ds),
        first-or s.serial_flow d.serial_flow (map (λ (r : Settings). r.serial_flow) ds),
        first-or s.triggers d.triggers (map (λ (r : Settings). r.triggers) ds),
      )
      refl

-- The folders above a connection, the nearest first, and how many tests of the loop they take: a folder
-- that is not there ends the way up, and takes one.
pub data Above (lookup : Bytes → Option Folder) : Bytes → List Folder → ℕ → Type 0 where
  top : Above lookup [] [] 0
  gone : {c : Bytes} → is_empty c ≡ false → lookup c ≡ none → Above lookup c [] 1
  under :
      {c : Bytes} {fs : List Folder} {n : ℕ} (f : Folder)
      → is_empty c ≡ false
      → lookup c ≡ some f
      → Above lookup f.parent_id fs n
      → Above lookup c (f ∷ fs) (suc n)

abbrev pub defaults_of : List Folder → List Settings
defaults_of fs = map (λ (f : Folder). f.defaults) fs

-- The names of the folders, the outermost first, before some.
unfoldable pub names_onto : List Folder → List Bytes → List Bytes
names_onto [] names = names
names_onto (f ∷ fs) names = names_onto fs (f.name ∷ names)

-- A text or a port of the connection, where it is empty or zero that of the settings, and for a port the
-- protocol's where this is none either.
abbrev pub chosen_text : Bytes → Option Bytes → Bytes
chosen_text [] none = []
chosen_text [] (some x) = x
chosen_text (b ∷ own) inherited = b ∷ own

abbrev pub chosen_port : ℤ → Option ℤ → Protocol → ℤ
chosen_port (ℤ.pos (suc n)) inherited protocol = ℤ.pos (suc n)
chosen_port (ℤ.negsuc n) inherited protocol = ℤ.negsuc n
chosen_port (ℤ.pos zero) (some (ℤ.pos (suc n))) protocol = ℤ.pos (suc n)
chosen_port (ℤ.pos zero) (some (ℤ.negsuc n)) protocol = ℤ.negsuc n
chosen_port (ℤ.pos zero) (some (ℤ.pos zero)) protocol = ℤ.pos (default_port protocol)
chosen_port (ℤ.pos zero) none protocol = ℤ.pos (default_port protocol)

-- What a connection is resolved to, with the settings that hold for it and the names of its folders.
abbrev pub expected : Session → Settings → List Bytes → Resolved
expected s settings names = record {
  session = record s { settings = settings };
  effective_username = chosen_text s.username settings.username;
  effective_port = chosen_port s.port settings.port s.protocol;
  effective_credential_id = chosen_text s.credential_id settings.credential_id;
  inherited_from = names;
}

or_inherited-chosen_text :
    (own : Bytes) (inherited : Option Bytes)
    → or_inherited own inherited ≡ chosen_text own inherited
or_inherited-chosen_text [] none = refl
or_inherited-chosen_text [] (some x) = refl
or_inherited-chosen_text (b ∷ own) inherited = refl

or_default_port-chosen_port :
    (own : ℤ) (inherited : Option ℤ) (protocol : Protocol)
    → or_default_port (or_inherited_port own inherited) protocol
      ≡ chosen_port own inherited protocol
or_default_port-chosen_port (ℤ.pos (suc n)) inherited protocol = refl
or_default_port-chosen_port (ℤ.negsuc n) inherited protocol = refl
or_default_port-chosen_port (ℤ.pos zero) (some (ℤ.pos (suc n))) protocol = refl
or_default_port-chosen_port (ℤ.pos zero) (some (ℤ.negsuc n)) protocol = refl
or_default_port-chosen_port (ℤ.pos zero) (some (ℤ.pos zero)) protocol = refl
or_default_port-chosen_port (ℤ.pos zero) none protocol = refl

resolved-expected :
    (s : Session) (settings : Settings) (names : List Bytes)
    → resolved s settings names ≡ expected s settings names
unfolding resolved
resolved-expected s settings names =
    rw
      (
        or_inherited-chosen_text s.username settings.username,
        or_inherited-chosen_text s.credential_id settings.credential_id,
        or_default_port-chosen_port s.port settings.port s.protocol,
      )
      refl

module _ (lookup : Bytes → Option Folder) (s : Session) where
  resolve_walk-Above :
      (rounds n : ℕ) (current : Bytes) (fs : List Folder) (effective : Settings)
      (names : List Bytes)
      → Above lookup current fs n
      → n ≤ rounds
      → resolve_walk lookup s rounds current effective names
        ≡ returned (resolved s (nearest effective (defaults_of fs)) (names_onto fs names))
  unfolding resolve_walk names_onto
  resolve_walk-Above zero n current fs effective names top l =
      ap (λ (x : Settings). returned (resolved s x names)) (sym (nearest_nothing effective))
  resolve_walk-Above (suc rounds) n current fs effective names top l =
      ap (λ (x : Settings). returned (resolved s x names)) (sym (nearest_nothing effective))
  resolve_walk-Above zero n current fs effective names (gone e o) l = absurd (omega (arith, l))
  resolve_walk-Above (suc rounds) n current fs effective names (gone e o) l =
      rw (e, o)
        (ap (λ (x : Settings). returned (resolved s x names)) (sym (nearest_nothing effective)))
  resolve_walk-Above zero n current fs effective names (under f e o r) l = absurd (omega (arith, l))
  resolve_walk-Above (suc rounds) n current fs effective names (under {fs = gs} {n = m} f e o r) l =
      rw (e, o)
        (resolve_walk-Above rounds m f.parent_id gs (merge effective f.defaults) (f.name ∷ names) r
            (omega (arith, l))
          ∙ ap (λ (x : Settings). returned (resolved s x (names_onto gs (f.name ∷ names))))
              (nearest-merge effective f.defaults (defaults_of gs)))

  resolve_walk_deep :
      (rounds n : ℕ) (current : Bytes) (fs : List Folder) (effective : Settings)
      (names : List Bytes)
      → Above lookup current fs n
      → rounds < n
      → resolve_walk lookup s rounds current effective names ≡ failed too_deep
  unfolding resolve_walk
  resolve_walk_deep rounds n current fs effective names top l = absurd (omega (arith, l))
  resolve_walk_deep zero n current fs effective names (gone e o) l = rw e refl
  resolve_walk_deep (suc rounds) n current fs effective names (gone e o) l =
      absurd (omega (arith, l))
  resolve_walk_deep zero n current fs effective names (under f e o r) l = rw e refl
  resolve_walk_deep (suc rounds) n current fs effective names (under {fs = gs} {n = m} f e o r) l =
      rw (e, o)
        (resolve_walk_deep rounds m f.parent_id gs (merge effective f.defaults) (f.name ∷ names) r
          (omega (arith, l)))

  -- A saved connection is returned with each setting from the nearest of itself and the folders above it that
  -- gives one, except the keys that it forwards, which are its own, and is otherwise as it was saved; its own
  -- name, credential and port, where it has them, come before those settings, and the protocol's port after
  -- them; and the names of all these folders are given, the outermost first. More than 33 tests of the way up
  -- are refused as too deep.
  pub resolve_with_lem :
      (fs : List Folder) (n : ℕ)
      → Above lookup s.folder_id fs n
      → ((n ≤ 33)
          × (resolve_with lookup s
              ≡ returned (expected s (nearest s.settings (defaults_of fs)) (names_onto fs []))))
        ⊎ ((33 < n) × (resolve_with lookup s ≡ failed too_deep))
  unfolding resolve_with
  resolve_with_lem fs n above = elim (Bool-cases (leb n 33)) [
    | inl small ↦
        let l : n ≤ 33 = ground arith in
        let settings = nearest s.settings (defaults_of fs) in
        inl (
          l,
          resolve_walk-Above 33 n s.folder_id fs s.settings [] above l
              ∙ ap returned (resolved-expected s settings (names_onto fs [])),
        )
    | inr large ↦
        let l : 33 < n = ground arith in
        inr (l, resolve_walk_deep 33 n s.folder_id fs s.settings [] above l)
  ]
