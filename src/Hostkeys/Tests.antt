-- ===== src/Hostkeys/Tests.antt =====
-- Runs of the host key store at concrete inputs.
use secure_crt.Base.{◌≡◌, ◌≢◌, refl, some, false, [], ◌∷◌, Bytes, codes, bytes_eq}
use secure_crt.Base.Int.{pos}
use secure_crt.Base.Outcome.{returned}
use secure_crt.Base.Text.{trim_space}
use secure_crt.Hostkeys.{
  Entry, Presented, Call, verdict_unknown, verdict_changed, Check, normalize_host, select, lookup,
  verify, insert, check_key, insert_row, trust, trust_seen, trust_org_wide,
}
use secure_crt.Hostkeys.Unchanged.{Accept, after_accepts, accepts-verify}

abbrev call : Call
call = record {
  reading_fails = false;
  reading_own_fails = false;
  writing_fails = false;
  new_id = codes "i";
  now = 3;
}

abbrev presented : Bytes → Bytes → Presented
presented key_type fingerprint = record {
  key_type = key_type;
  public_key = codes "k";
  fingerprint = fingerprint;
}

abbrev to_lower : Bytes → Bytes
to_lower s = s

abbrev recorded : Entry
recorded = record {
  id = codes "i";
  user_id = codes "u";
  hostname = codes "h";
  port = pos 22;
  key_type = codes "rsa";
  public_key = codes "k";
  fingerprint = codes "f";
  created_at = 3;
}

abbrev accept : Accept
accept = record {
  looked_in = [];
  user_id = codes "u";
  hostname = codes " h.";
  port = pos 22;
  presented = presented (codes "rsa") (codes "g");
  call = call;
}

trusted_then :
    (trust to_lower []
      (codes "u")
      (codes " h. ")
      (pos 22)
      (presented (codes "rsa") (codes "f"))
      call)
    ≡ (recorded ∷ [], returned recorded)
unfolding trust_seen insert check_key insert_row normalize_host lookup select trim_space
trusted_then = refl

-- Two calls of `TrustOrgWide` of which each has looked before the other has written: two rows with other keys.
overlapping_org_wide :
    (insert to_lower []
      (trust_org_wide to_lower [] (codes "h") (pos 22) (presented (codes "rsa") (codes "f")) call).0
      []
      (codes "h")
      (pos 22)
      (presented (codes "rsa") (codes "g"))
      call).0
    ≡ record recorded { user_id = []; fingerprint = codes "g" }
      ∷ record recorded { user_id = []; fingerprint = codes "f" }
      ∷ []
unfolding trust_org_wide insert check_key insert_row normalize_host lookup select trim_space
overlapping_org_wide = refl

abbrev refused : Check
refused = record {
  verdict = verdict_changed;
  presented = presented (codes "rsa") (codes "g");
  existing = some recorded;
}

refused_lem :
    verify to_lower
      (recorded ∷ [])
      (codes "u")
      (codes "h")
      (pos 22)
      (presented (codes "rsa") (codes "g"))
      call
    ≡ returned refused
unfolding verify normalize_host lookup select trim_space bytes_eq
refused_lem = refl

accepts-verify_example :
    verify to_lower
      (after_accepts to_lower (recorded ∷ []) (accept ∷ []))
      (codes "u")
      (codes "h")
      (pos 22)
      (presented (codes "rsa") (codes "g"))
      call
    ≡ returned refused
accepts-verify_example =
    accepts-verify to_lower (recorded ∷ []) (accept ∷ []) (codes "u") (codes "h") (pos 22)
      (presented (codes "rsa") (codes "g")) call refused refused_lem (λ h. verdicts_differ h)
  where
    verdicts_differ : verdict_changed ≢ verdict_unknown
    verdicts_differ h = cc
