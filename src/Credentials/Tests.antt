-- ===== src/Credentials/Tests.antt =====
-- Runs of the credential store at concrete inputs.
use secure_crt.Base.{◌≡◌, refl, false, none, some, List, [], ◌∷◌, ◌++◌, codes, bytes_eq}
use secure_crt.Base.Outcome.{returned}
use secure_crt.Base.Text.{trim_space}
use secure_crt.Vault.Key.{validate, is_zero, random}
use secure_crt.Vault.Envelope.{Envelope, append_parts, aad_bytes, validate_aad, seal}
use secure_crt.Vault.Envelope.Clear.{ones, clear_gcm}
use secure_crt.Credentials.{
  kind_password, Credential, Row, CreateParams, Call, find, inserted, seal_field, create, reveal,
  Secret, Write, updating, deleting, using, after_writes,
}
use secure_crt.Credentials.Reveal.{create-reveal}

abbrev params : CreateParams
params = record {
  owner_id = codes "u";
  is_team = false;
  name = codes "core";
  kind = kind_password;
  username = codes "admin";
  secret = codes "pw";
  extra = [];
  public_key = [];
  fingerprint = [];
  key_type = [];
}

abbrev call : Call
call = record {
  new_id = codes "c1";
  secret_entropy = ones 12;
  extra_entropy = ones 12;
  database_fails = false;
  now = 4;
}

abbrev stored : Credential
stored = record {
  id = codes "c1";
  owner_id = codes "u";
  is_team = false;
  name = codes "core";
  kind = kind_password;
  username = codes "admin";
  public_key = [];
  fingerprint = [];
  key_type = [];
  server_unlockable = false;
  created_at = 4;
  updated_at = 4;
  last_used_at = none;
}

abbrev sealed : Envelope
sealed = record {
  version = 1;
  nonce = ones 12;
  ciphertext =
      1 ∷ 0 ∷ 0 ∷ 0 ∷ 10 ∷ codes "credential"
      ++ (0 ∷ 0 ∷ 0 ∷ 1 ∷ codes "u"
          ++ (0 ∷ 0 ∷ 0 ∷ 2 ∷ codes "c1" ++ (0 ∷ 0 ∷ 0 ∷ 6 ∷ codes "secret" ++ codes "pw")));
}

abbrev rows : List Row
rows = record { credential = stored; secret_enc = some sealed; secret_extra_enc = none } ∷ []

created : create clear_gcm [] (ones 32) params call ≡ returned (rows, stored)
unfolding create secure_crt.Credentials.validate seal_field find inserted trim_space seal
    append_parts aad_bytes validate_aad validate is_zero random
created = refl

abbrev writes : List Write
writes =
    updating (codes "u") (codes "c1") (some (codes "edge")) none call
    ∷ using (codes "c1") call
    ∷ deleting (codes "u") (codes "c2") call
    ∷ []

create-reveal_example :
    reveal clear_gcm (after_writes clear_gcm rows writes) (ones 32) (codes "u") (codes "c1")
    ≡ returned (record { value = codes "pw"; extra = [] })
unfolding bytes_eq
create-reveal_example =
    create-reveal clear_gcm (ones 32) [] params call rows stored writes created refl
      (refl, (refl, (refl, tt)))
