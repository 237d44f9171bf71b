-- ===== src/Tests/BlindRuns.antt =====
-- Blind boxes and grant requests over a toy HPKE.
use avault.Prelude.{ℕ, ◌≡◌, refl, ◌≢◌, true, none, some, [], ◌∷◌, ◌++◌, arith, take}
use avault.Prelude.Bytes.{Bytes, codes, eq_bytes, eq_bytes_iff}
use avault.Prelude.Result.{ok, err}
use avault.Tests.ToyCrypto.{frame, unframe, checked_by}
use avault.BlindBox.{
  blind_box_scheme, blind_box_aad_domain, BlindBox, BlindBoxContext, new, with_grant_id,
  with_signing, with_approval, with_operation_hash, agent_deliver, agent_sign, aad_fields, Hpke,
  HpkeLaws, open_blind_box, aad_bytes, push_fields, push_aad_field, operation_hash, be_bytes,
}
use avault.BlindBox.Encoding.{encoded}
use avault.BlindBox.Contexts.{deliver_context, sign_context, open_blind_box-sign_context}
use avault.Agent.Grants
use avault.Prelude.Maps.{lookup}
use avault.Agent.Grants.{GrantKey, AgentState, publish_grant, purge}
use avault.Agent.GrantRequest.{
  AgentDekInput, Readings, AgentGrantRequest, Hex, nanos, parse_purpose, grant_key_from_id,
  parse_approval_context, validate_approval_not_expired, approval_expiry_instant, context_and_key,
  agent_deliver_operation_hash, zeroizing_vec_to_key32, ttl_not_positive,
}
use avault.Agent.GrantRequest.Collect.{add_dek, add_deks}
use avault.Agent.GrantRequest.Handle.{prepare_grant, handle_grant}
use avault.Agent.GrantRequest.Granted.{handle_grant-Granted, Granted}

abbrev pub toy_hpke : Hpke
toy_hpke = record {
  single_shot_open = λ private_key enc info ct aad. checked_by aad (unframe ct);
  is_encapped_key = λ enc. true;
  sha256 = λ bytes. bytes;
  base64_decode = some;
}

toy_hpke_authentic :
    (ct aad other : Bytes) {plaintext : Bytes}
    → checked_by aad (unframe ct) ≡ some plaintext
    → aad ≢ other
    → checked_by other (unframe ct) ≡ none
toy_hpke_authentic [] aad other e ne = refl
toy_hpke_authentic (n ∷ rest) aad other e ne =
    ground (arith, eq_bytes_iff (take n rest) aad, eq_bytes_iff (take n rest) other)

toy_hpke_laws : HpkeLaws toy_hpke
toy_hpke_laws = record {
  authentic = λ private_key enc info ct aad other e ne. toy_hpke_authentic ct aad other e ne;
}

abbrev dek : Bytes
dek = codes "0123456789abcdef0123456789abcdef"

abbrev boxed : BlindBoxContext → BlindBox
boxed context = record {
  scheme = blind_box_scheme;
  enc = codes "enc";
  ct = frame (blind_box_aad_domain ++ encoded (aad_fields context)) dek;
}

abbrev sign_one : BlindBoxContext
sign_one =
    sign_context (codes "g") (codes "KEY") (codes "ed25519") (codes "d") (codes "n") 7 (codes "h")

abbrev deliver_one : BlindBoxContext
deliver_one = deliver_context (codes "g") (codes "KEY") (codes "n") 7 (codes "h")

opens_sign : open_blind_box toy_hpke (codes "sk") (boxed sign_one) sign_one ≡ ok dek
unfolding open_blind_box aad_bytes push_fields push_aad_field new with_grant_id with_signing
    with_approval with_operation_hash agent_sign eq_bytes
opens_sign = refl

opens_deliver : open_blind_box toy_hpke (codes "sk") (boxed deliver_one) deliver_one ≡ ok dek
unfolding open_blind_box aad_bytes push_fields push_aad_field new with_grant_id with_signing
    with_approval with_operation_hash agent_deliver eq_bytes
opens_deliver = refl

open_blind_box-sign_context_example :
    (codes "g" ≡ codes "g")
    × (codes "KEY" ≡ codes "KEY")
    × (codes "ed25519" ≡ codes "ed25519")
    × (codes "d" ≡ codes "d")
    × (codes "n" ≡ codes "n")
    × (◌≡◌ {A = ℕ} 7 7)
    × (codes "h" ≡ codes "h")
open_blind_box-sign_context_example =
    open_blind_box-sign_context toy_hpke toy_hpke_laws (codes "sk") (boxed sign_one) (codes "g")
      (codes "KEY") (codes "ed25519") (codes "d") (codes "n") (codes "h") (codes "g") (codes "KEY")
      (codes "ed25519") (codes "d") (codes "n") (codes "h") 7 7 (omega arith) (omega arith)
      opens_sign opens_sign

abbrev toy_hex : Hex
toy_hex = record { decode = some; encode = λ raw. raw }

abbrev scope : GrantKey
scope = record { grant_id = codes "run-1" }

abbrev nonce : Bytes
nonce = codes "nonce-0123456789"

abbrev deliver_hash : Bytes
deliver_hash = encoded (codes "agent-deliver" ∷ codes "KEY" ∷ be_bytes 8 60 ∷ [])

abbrev input : AgentDekInput
input = record {
  name = codes "KEY";
  dek_blindbox = boxed (deliver_context (codes "run-1") (codes "KEY") nonce 1000 deliver_hash);
  approval = record { nonce = nonce; expires_at_unix = 1000 };
  scheme = none;
  digest = none;
}

abbrev clock : Readings
clock = record { validated_at = nanos 900; instant = nanos 5; system = nanos 900 }

abbrev request : AgentGrantRequest
request = record {
  grant_id = codes "run-1";
  purpose = none;
  ttl_secs = some 60;
  deks = (clock, input) ∷ [];
}

abbrev start : AgentState
start = Grants.new 0 (nanos 900)

grants_request :
    (handle_grant toy_hpke toy_hex (codes "sk") (nanos 5) (nanos 6) (nanos 6) start request).1
    ≡ ok (1, 60)
unfolding handle_grant prepare_grant parse_purpose grant_key_from_id add_deks add_dek
    parse_approval_context validate_approval_not_expired approval_expiry_instant context_and_key
    agent_deliver_operation_hash operation_hash open_blind_box aad_bytes push_fields push_aad_field
    new with_grant_id with_signing with_approval with_operation_hash agent_deliver eq_bytes
    zeroizing_vec_to_key32 publish_grant purge Grants.new lookup
grants_request = refl

handle_grant-Granted_example :
    Granted toy_hpke toy_hex
      (codes "sk")
      (nanos 5)
      (nanos 6)
      (nanos 6)
      start
      request
      (handle_grant toy_hpke toy_hex (codes "sk") (nanos 5) (nanos 6) (nanos 6) start request).0
      1
      60
handle_grant-Granted_example =
    handle_grant-Granted toy_hpke toy_hex (codes "sk") (nanos 5) (nanos 6) (nanos 6) start request
      grants_request

abbrev refused_request : AgentGrantRequest
refused_request = record request { ttl_secs = some 0 }

refuses_request :
    (handle_grant toy_hpke toy_hex
      (codes "sk")
      (nanos 5)
      (nanos 6)
      (nanos 6)
      start
      refused_request).1
    ≡ err ttl_not_positive
unfolding handle_grant prepare_grant grant_key_from_id
refuses_request = refl
