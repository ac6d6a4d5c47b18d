-- ===== src/Ingress/Serve/Tests.antt =====
-- Tests and examples of ingress/ingress.go, signature.go and identity.go.
use gronin.Prelude.{
  ℕ, zero, suc, true, [], ◌∷◌, ◌++◌, none, some, str_eq, ◌≡◌, refl, arith, ◌⊎◌, select, map, find,
  exists_row, update, if◌then◌else◌,
}
use gronin.Prelude.Int.{pos}
use gronin.Prelude.Bytes.{Bytes, codes, same}
use gronin.Record.Types.{Delivery, DeliveryState, HandOffState}
use gronin.Record.Db.{Db}
use gronin.Record.Deliveries.{handoffs_of, set_delivery_state}
use gronin.Record.Accept.{
  accept, existing_delivery, identity_of, record_new, to_hand, insert_handoffs, recorded, repoint,
  new_delivery,
}
use gronin.Playbook.Pointer.{
  Json, at_pointer, single_value, split, push_byte, walk_segments, step_into, unescape,
  replace_pair, member_of, field, end,
}
use gronin.Ingress.HandOff.{hand_off, decide_each, finish_delivery, finish_state}
use gronin.Ingress.Signature.{
  cut_prefix, hex_digit, hex_byte, decode_hex, of_mac_size, decoded_rest, offered_signature,
  verify_signature,
}
use gronin.Ingress.Signature.Exact.{digit_of, encode_hex, verify_signature-encode_hex}
use gronin.Ingress.Serve.{
  Source, Request, Handler, Answer, after_prefix, has_slash, no_slash, source_name, single_or_not,
  identified, identity_in, bound_playbook_names, accepted_as, params_of, accept_request,
  with_identity, with_body, with_secret, with_source, with_name, serve_http,
}
use gronin.Ingress.Serve.Signed.{Authentic, IsTurnedAway, serve_http-Authentic}

abbrev bytes_of : ℕ → ℕ → Bytes
bytes_of c zero = []
bytes_of c (suc n) = c ∷ bytes_of c n

-- A MAC that is the same for all bodies.
abbrev marks : Bytes → Bytes → Bytes
marks secret body = bytes_of 0xA7 32

abbrev source : Source
source = record {
  signature_header = "X-Signature";
  signature_prefix = codes "sha256=";
  identity = codes "/id";
  replay_window = pos 600;
}

abbrev handler : Handler
handler = record {
  source_of = λ name. if str_eq name "forge" then some source else none;
  secret_of = λ name. some (codes "secret");
  mac = marks;
  document_of = λ body. Json.object (field (codes "id") (Json.text body) end);
  text_of = λ s. "event";
  loaded = [];
  instance_id = "i1";
  now = 100;
  refusal_id = "x1";
  outside = record {
    redact = λ s. s;
    digest = λ body. "digest";
    delivery_id = "d1";
    body_ref = "blob";
    refusal_id = λ playbook. playbook;
    alive = none;
  };
  reach = λ delivery. record {
    passes = λ book. true;
    redact = λ s. s;
    dispatch = λ book db. (HandOffState.handed_off, db);
    refusal_id = λ name. name;
    now = λ name. 100;
  };
  in_time = true;
}

abbrev empty : Db
empty = record {
  deliveries = [];
  identities = [];
  handoffs = [];
  runs = [];
  refusals = [];
  delivery_refusals = [];
  waiting_triggers = [];
}

abbrev signed_with : Bytes → Request
signed_with value = record {
  path = "/hooks/forge";
  is_post = true;
  headers = λ header. value ∷ [];
  body = some (codes "b");
  peer = "p";
}

abbrev signature : Bytes
signature = codes "sha256=" ++ encode_hex (bytes_of 0xA7 32)

serve_signed :
    ((serve_http handler (signed_with signature) empty).0 ≡ Answer.accepted)
    × (map
          (λ (d : Delivery). d.state)
          (serve_http handler (signed_with signature) empty).1.deliveries
        ≡ DeliveryState.unbound ∷ [])
unfolding serve_http with_name with_source with_secret with_body with_identity identity_in
    identified single_or_not accept_request accepted_as params_of bound_playbook_names source_name
    no_slash after_prefix has_slash verify_signature offered_signature decoded_rest of_mac_size
    decode_hex hex_byte hex_digit cut_prefix encode_hex digit_of same accept existing_delivery
    identity_of record_new to_hand insert_handoffs recorded repoint new_delivery hand_off
    decide_each finish_delivery finish_state handoffs_of set_delivery_state at_pointer split
    push_byte walk_segments step_into unescape replace_pair member_of single_value find exists_row
    select update
serve_signed = (refl, refl)

serve_unsigned :
    serve_http handler (signed_with (codes "sha256=00")) empty ≡ (Answer.refused, empty)
unfolding serve_http with_name with_source with_secret with_body source_name no_slash after_prefix
    has_slash verify_signature offered_signature decoded_rest of_mac_size decode_hex hex_byte
    hex_digit cut_prefix same
serve_unsigned = refl

serve_http-Authentic_example :
    Authentic handler (signed_with (codes "sha256=00"))
    ⊎ IsTurnedAway empty (serve_http handler (signed_with (codes "sha256=00")) empty)
unfolding same
serve_http-Authentic_example =
    serve_http-Authentic handler (signed_with (codes "sha256=00")) empty (λ secret body. refl)

verify_signature-encode_hex_example :
    verify_signature marks (codes "sha256=") (signature ∷ []) (codes "secret") (codes "b") ≡ true
verify_signature-encode_hex_example =
    verify_signature-encode_hex marks (codes "sha256=") (codes "secret") (codes "b") refl
      (omega arith)
