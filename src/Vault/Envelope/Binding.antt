-- ===== src/Vault/Envelope/Binding.antt =====
-- internal/vault/envelope.go: what a sealed value is bound to.
use secure_crt.Base.{
  ℕ, ◌/◌, ◌%◌, ◌≤◌, ◌≡◌, ◌≢◌, ◌⊎◌, inl, inr, refl, sym, ap, ◌∙◌, Bool, true, false, not, ◌||◌,
  Option, none, some, List, [], ◌∷◌, ◌++◌, leb, ◌==◌, if-rule, Bytes, ltb→lt, length, length-take,
  All, append_assoc, append-nil, arith, Bool-cases, bytes_eq, bytes_eq_sound, bytes_eq_apart,
}
use mathlib.Core.Path.{subst}
use secure_crt.Base.Outcome.{
  returned, >>=-returned, failed-ne-returned, guard-returned, returned-injective,
}
use secure_crt.Sessions.Rules.{is_empty}
use secure_crt.Vault.Key.{Key, validate, random}
use secure_crt.Vault.Envelope.{
  Gcm, Envelope, Aad, max_aad_component, is_long, put_uint32, append_parts, aad_bytes, validate_aad,
  seal, open_, or_panic, or_tampered, envelope_version,
}

abbrev IsShort : Bytes → Type 0
IsShort part = length part ≤ max_aad_component

-- What the components add to the version byte.
abbrev encoded : List Bytes → Bytes
encoded [] = []
encoded (part ∷ parts) = put_uint32 (length part) ++ (part ++ encoded parts)

append_parts-encoded :
    (buf : Bytes) (parts : List Bytes)
    → All IsShort parts
    → append_parts buf parts ≡ some (buf ++ encoded parts)
unfolding append_parts
append_parts-encoded buf [] _ = ap some (sym (append-nil buf))
append_parts-encoded buf (part ∷ parts) (h, hs) =
    if-rule (λ (r : Option Bytes). r ≡ some (buf ++ encoded (part ∷ parts))) (is_long part)
      (λ e. absurd (omega (arith, ltb→lt max_aad_component (length part) e, h)))
      (λ e.
        append_parts-encoded (buf ++ (put_uint32 (length part) ++ part)) parts hs
        ∙ ap some (append_assoc buf (put_uint32 (length part) ++ part) (encoded parts)))

append-apart : (p q r s : Bytes) → length p ≡ length q → (p ++ r) ≡ (q ++ s) → (p ≡ q) × (r ≡ s)
append-apart [] [] r s e h = (refl, h)
append-apart [] (y ∷ q) r s e h = absurd (omega (arith, e))
append-apart (x ∷ p) [] r s e h = absurd (omega (arith, e))
append-apart (x ∷ p) (y ∷ q) r s e h =
    let (same, rest) = append-apart p q r s (omega (arith, e)) cc in (cc, rest)

put_uint32-injective :
    (m n : ℕ) {r s : Bytes}
    → m ≤ max_aad_component
    → n ≤ max_aad_component
    → (put_uint32 m ++ r) ≡ (put_uint32 n ++ s)
    → (m ≡ n) × (r ≡ s)
put_uint32-injective m n hm hn h =
    let hi : m / 256 % 256 ≡ n / 256 % 256 = cc in
    let lo : m % 256 ≡ n % 256 = cc in (omega (arith, hi, lo, hm, hn), cc)

encoded-injective :
    (parts others : List Bytes)
    → length parts ≡ length others
    → All IsShort parts
    → All IsShort others
    → encoded parts ≡ encoded others
    → parts ≡ others
encoded-injective [] [] e _ _ h = refl
encoded-injective [] (q ∷ others) e _ _ h = absurd (omega (arith, e))
encoded-injective (p ∷ parts) [] e _ _ h = absurd (omega (arith, e))
encoded-injective (p ∷ parts) (q ∷ others) e (hp, hps) (hq, hqs) h =
    let (same_length, rest) = put_uint32-injective (length p) (length q) hp hq h in
    let (same, tails) = append-apart p q (encoded parts) (encoded others) same_length rest in
    let same_parts = encoded-injective parts others (omega (arith, e)) hps hqs tails in cc

abbrev components : Aad → List Bytes
components a = a.scope ∷ a.owner_id ∷ a.record_id ∷ a.field_name ∷ []

short : (part : Bytes) → is_long part ≡ false → IsShort part
short part e = ground (arith, e)

or-false : (b : Bool) {c : Bool} → (b || c) ≡ false → (b ≡ false) × (c ≡ false)
or-false true h = cc
or-false false h = (refl, h)

validate_aad-IsShort : (a : Aad) → validate_aad a ≡ returned tt → All IsShort (components a)
unfolding validate_aad
validate_aad-IsShort a h =
    let (_, h) = guard-returned (is_empty a.scope) _ _ h in
    let (_, h) = guard-returned (is_empty a.owner_id) _ _ h in
    let (none_long, _) =
      guard-returned
        ((is_long a.scope || is_long a.owner_id) || (is_long a.record_id || is_long a.field_name)) _
        _ h in
    let (front, back) = or-false (is_long a.scope || is_long a.owner_id) none_long in
    let (scope, owner_id) = or-false (is_long a.scope) front in
    let (record_id, field_name) = or-false (is_long a.record_id) back in
    (
      short a.scope scope,
      (
        short a.owner_id owner_id,
        (short a.record_id record_id, (short a.field_name field_name, tt)),
      ),
    )

-- The panic is not reached.
aad_bytes-encoded :
    (a : Aad)
    → validate_aad a ≡ returned tt
    → aad_bytes a ≡ some ((envelope_version ∷ []) ++ encoded (components a))
unfolding aad_bytes
aad_bytes-encoded a h =
    append_parts-encoded (envelope_version ∷ []) (components a) (validate_aad-IsShort a h)

some-injective : {x y : Bytes} → some x ≡ some y → x ≡ y
some-injective h = cc

tail_same : {b : ℕ} {x y : Bytes} → (b ∷ x) ≡ (b ∷ y) → x ≡ y
tail_same h = cc

from_components : (a other : Aad) → components a ≡ components other → a ≡ other
from_components a other h =
    let scope : a.scope ≡ other.scope = cc in
    let owner_id : a.owner_id ≡ other.owner_id = cc in
    let record_id : a.record_id ≡ other.record_id = cc in
    let field_name : a.field_name ≡ other.field_name = cc in cc

pub aad_bytes-injective :
    (a other : Aad)
    → validate_aad a ≡ returned tt
    → validate_aad other ≡ returned tt
    → aad_bytes a ≡ aad_bytes other
    → a ≡ other
aad_bytes-injective a other h k e =
    let same : encoded (components a) ≡ encoded (components other) =
      tail_same (some-injective (sym (aad_bytes-encoded a h) ∙ e ∙ aad_bytes-encoded other k)) in
    let parts =
      encoded-injective (components a) (components other) refl (validate_aad-IsShort a h)
        (validate_aad-IsShort other k) same in
    from_components a other parts

or_panic-returned :
    (bytes : Option Bytes) {b : Bytes} → or_panic bytes ≡ returned b → bytes ≡ some b
or_panic-returned none h = absurd (failed-ne-returned h)
or_panic-returned (some b) h = cc

or_tampered-returned :
    (bytes : Option Bytes) {b : Bytes} → or_tampered bytes ≡ returned b → bytes ≡ some b
or_tampered-returned none h = absurd (failed-ne-returned h)
or_tampered-returned (some b) h = cc

pub random-length :
    (n : ℕ) (entropy : Bytes) {b : Bytes} → random n entropy ≡ returned b → length b ≡ n
unfolding random
random-length n entropy h = elim (Bool-cases (leb n (length entropy))) [
  | inl e ↦
      subst (λ (b : Bytes). length b ≡ n) (returned-injective (rw e at h))
        (ground (arith, length-take n entropy, e))
  | inr e ↦ absurd (failed-ne-returned (rw e at h))
]

-- What has been checked and done when a value is sealed under an identity.
pub record Sealed (gcm : Gcm) (key : Key) (aad : Aad) (plaintext : Bytes) (env : Envelope)
    : Type 0 where
  pub identified : validate_aad aad ≡ returned tt
  pub keyed : validate key ≡ returned tt
  pub versioned : env.version ≡ envelope_version
  pub fresh : length env.nonce ≡ gcm.nonce_size
  pub extra : Bytes
  pub bound : aad_bytes aad ≡ some extra
  pub authentic : env.ciphertext ≡ gcm.seal key env.nonce plaintext extra

-- Two plaintexts with one ciphertext, under one nonce and different additional data.
pub record Forgery (gcm : Gcm) (key : Key) : Type 0 where
  pub forged_nonce : Bytes
  pub first_text : Bytes
  pub second_text : Bytes
  pub first_extra : Bytes
  pub second_extra : Bytes
  pub different : first_extra ≢ second_extra
  pub same_ciphertext :
      gcm.seal key forged_nonce first_text first_extra
      ≡ gcm.seal key forged_nonce second_text second_extra

module _ (gcm : Gcm) (key : Key) where
  pub seal-Sealed :
      (aad : Aad) (entropy plaintext : Bytes) {env : Envelope}
      → seal gcm key aad entropy plaintext ≡ returned env
      → Sealed gcm key aad plaintext env
  unfolding seal
  seal-Sealed aad entropy plaintext h =
      let (_, identified, h) = >>=-returned (validate_aad aad) _ h in
      let (_, keyed, h) = >>=-returned (validate key) _ h in
      let (nonce, drawn, h) = >>=-returned (random gcm.nonce_size entropy) _ h in
      let (extra, bound, h) = >>=-returned (or_panic (aad_bytes aad)) _ h in
      subst (λ (env : Envelope). Sealed gcm key aad plaintext env) (returned-injective h)
        (record {
          identified = identified;
          keyed = keyed;
          versioned = refl;
          fresh = random-length gcm.nonce_size entropy drawn;
          extra = extra;
          bound = or_panic-returned (aad_bytes aad) bound;
          authentic = refl;
        })

  open_-Sealed :
      (aad : Aad) (env : Envelope) {plaintext : Bytes}
      → open_ gcm key aad env ≡ returned plaintext
      → Sealed gcm key aad plaintext env
  unfolding open_
  open_-Sealed aad env h =
      let (_, identified, h) = >>=-returned (validate_aad aad) _ h in
      let (versioned, h) = guard-returned (not (env.version == envelope_version)) _ _ h in
      let (_, keyed, h) = >>=-returned (validate key) _ h in
      let (fresh, h) = guard-returned (not (length env.nonce == gcm.nonce_size)) _ _ h in
      let (extra, bound, h) = >>=-returned (or_panic (aad_bytes aad)) _ h in
      let opened = or_tampered-returned (gcm.open_ key env.nonce env.ciphertext extra) h in
      record {
        identified = identified;
        keyed = keyed;
        versioned = ground (arith, versioned);
        fresh = ground (arith, fresh);
        extra = extra;
        bound = or_panic-returned (aad_bytes aad) bound;
        authentic = gcm.seal-open_ key env.nonce env.ciphertext extra _ opened;
      }

  -- What an identity opens is what that identity has sealed, and the other way round.
  pub Sealed-open_ :
      (aad : Aad) (env : Envelope) (plaintext : Bytes)
      → Sealed gcm key aad plaintext env
      → open_ gcm key aad env ≡ returned plaintext
  unfolding open_
  Sealed-open_ aad env plaintext s =
      let versioned : (env.version == envelope_version) ≡ true = ground (arith, s.versioned) in
      let fresh : (length env.nonce == gcm.nonce_size) ≡ true = ground (arith, s.fresh) in
      rw (s.identified, versioned, s.keyed, fresh, s.bound, s.authentic)
        (ap or_tampered (gcm.open_-seal key env.nonce plaintext s.extra))

  same_plaintext :
      (nonce p q : Bytes) {x y : Bytes}
      → gcm.seal key nonce p x ≡ gcm.seal key nonce q y
      → x ≡ y
      → q ≡ p
  same_plaintext nonce p q {x} {y} e same = some-injective (
      sym (gcm.open_-seal key nonce q y)
      ∙ ap (λ c. gcm.open_ key nonce c y) (sym e)
      ∙ rw (sym same) (gcm.open_-seal key nonce p x))

  -- A value sealed for one identity is opened under another only if a ciphertext is the seal of two
  -- plaintexts under different additional data: the identities are encoded without a collision. Under the
  -- same identity what is opened is what was sealed.
  pub open_-bound :
      (aad other : Aad) (entropy plaintext opened : Bytes) (env : Envelope)
      → seal gcm key aad entropy plaintext ≡ returned env
      → open_ gcm key other env ≡ returned opened
      → ((aad ≡ other) × (opened ≡ plaintext)) ⊎ Forgery gcm key
  open_-bound aad other entropy plaintext opened env h k =
      let s = seal-Sealed aad entropy plaintext h in
      let t = open_-Sealed other env k in
      elim (Bool-cases (bytes_eq s.extra t.extra)) [
        | inl e ↦ inl (
            let same_extra = bytes_eq_sound s.extra t.extra e in
            (
              aad_bytes-injective aad other s.identified t.identified
                  (s.bound ∙ ap some same_extra ∙ sym t.bound),
              same_plaintext env.nonce plaintext opened (sym s.authentic ∙ t.authentic) same_extra,
            ))
        | inr e ↦ inr (record {
          forged_nonce = env.nonce;
          first_text = plaintext;
          second_text = opened;
          first_extra = s.extra;
          second_extra = t.extra;
          different = bytes_eq_apart s.extra t.extra e;
          same_ciphertext = sym s.authentic ∙ t.authentic;
        })
      ]
