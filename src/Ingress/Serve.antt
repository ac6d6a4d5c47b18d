-- ===== src/Ingress/Serve.antt =====
-- ingress/ingress.go and identity.go: `ServeHTTP`, from a request to its answer, over the record.
pub mod Signed
pub mod Tests
use Prim.Native.String
use Prim.Native.Char.{code}
use gronin.Prelude.{
  ℕ, Bool, true, false, ◌&&◌, ◌||◌, not, List, [], ◌∷◌, map, Option, none, some, String, str_eq,
  ◌==◌, if◌then◌else◌, Result, ok, err, select,
}
use gronin.Prelude.Int.{ℤ}
use gronin.Prelude.Bytes.{Bytes, same}
use gronin.Record.Types.{Time, Delivery, IdentityKind, DeliveryRefusalRow}
use gronin.Record.Db.{Db, StoreError}
use gronin.Record.Deliveries.{add_delivery_refusal}
use gronin.Record.Accept.{AcceptParams, Outside, accept}
use gronin.Playbook.Pointer.{
  Json, null, text, number, boolean, array, object, at_pointer, single_value,
}
use gronin.Ingress.HandOff.{Book, Reach, hand_off}
use gronin.Ingress.Signature.{verify_signature}

pub record Source : Type 0 where
  pub signature_header : String
  pub signature_prefix : Bytes
  pub identity : Bytes
  pub replay_window : ℤ

-- A request, with the values of each header; `none` is a body that cannot be read.
pub record Request : Type 0 where
  pub path : String
  pub is_post : Bool
  pub headers : String → List Bytes
  pub body : Option Bytes
  pub peer : String

pub data Answer : Type 0 where
  not_found refused bad_request accepted not_accepted : Answer

-- What an identity is found to be.
pub data Identified : Type 0 where
  missing not_single : Identified
  found_declared : Bytes → Identified
  found_digest : Identified

-- The handler's parts: the catalogue, the secrets, the MAC and the decoding of JSON (`null` of a
-- body that is none), the text of a single value, the loaded playbooks, what an acceptance and the
-- hand-off of a delivery take from outside, and whether the acceptance completes within its bound.
pub record Handler : Type 0 where
  pub source_of : String → Option Source
  pub secret_of : String → Option Bytes
  pub mac : Bytes → Bytes → Bytes
  pub document_of : Bytes → Json
  pub text_of : Bytes → String
  pub loaded : List Book
  pub instance_id : String
  pub now : Time
  pub refusal_id : String
  pub outside : Outside
  pub reach : Delivery → Reach
  pub in_time : Bool

unfoldable pub after_prefix : String → String → Option String
after_prefix String.[] s = some s
after_prefix (String.◌∷◌ c p) String.[] = none
after_prefix (String.◌∷◌ c p) (String.◌∷◌ d s) =
    let rest = after_prefix p s in if code c == code d then rest else none

unfoldable pub has_slash : String → Bool
has_slash String.[] = false
has_slash (String.◌∷◌ c s) = code c == b'/' || has_slash s

unfoldable pub no_slash : Option String → Option String
no_slash none = none
no_slash (some name) = if str_eq name "" || has_slash name then none else some name

-- The name of the source in a path, `/hooks/` and a segment.
unfoldable pub source_name : String → Option String
source_name path = no_slash (after_prefix "/hooks/" path)

unfoldable pub single_or_not : Option Bytes → Identified
single_or_not none = Identified.not_single
single_or_not (some s) = Identified.found_declared s

unfoldable pub identified : Json → Identified
identified null = Identified.missing
identified (text s) = single_or_not (single_value (text s))
identified (number s) = single_or_not (single_value (number s))
identified (boolean b) = single_or_not (single_value (boolean b))
identified (array items) = single_or_not (single_value (array items))
identified (object fields) = single_or_not (single_value (object fields))

-- `Identity`
unfoldable pub identity_in : (Bytes → Json) → Source → Bytes → Identified
identity_in document_of source body =
    if same source.identity []
    then Identified.found_digest
    else identified (at_pointer (document_of body) source.identity)

unfoldable pub bound_playbook_names : List Book → String → List String
bound_playbook_names loaded source =
    map (λ (b : Book). b.name)
      (select (λ (b : Book). b.is_webhook && str_eq b.source source) loaded)

-- An acceptance that is new is handed off, whatever was answered.
unfoldable pub accepted_as : Handler → Db → Result StoreError (Delivery × Bool × Db) → Answer × Db
accepted_as h db (err why) = (Answer.not_accepted, db)
accepted_as h db (ok (delivery, is_new, db')) = (
  if h.in_time then Answer.accepted else Answer.not_accepted,
  if is_new then (hand_off (h.reach delivery) h.loaded delivery db').1.db else db',
)

unfoldable pub params_of :
    Handler → Request → String → Source → Bytes → String → Option IdentityKind → AcceptParams
params_of h r name source body identity kind = record {
  source = name;
  identity = identity;
  identity_kind = kind;
  body = body;
  peer = r.peer;
  received_at = h.now;
  instance_id = h.instance_id;
  replay_window = source.replay_window;
  playbooks = bound_playbook_names h.loaded name;
}

unfoldable pub accept_request :
    Handler → Request → String → Source → Bytes → String → Option IdentityKind → Db → Answer × Db
accept_request h r name source body identity kind db =
    accepted_as h db (accept h.outside (params_of h r name source body identity kind) db)

unfoldable pub refused_as : Db → Result StoreError Db → Answer × Db
refused_as db (err why) = (Answer.not_accepted, db)
refused_as db (ok db') = (Answer.bad_request, db')

unfoldable pub refuse_identity : Handler → Db → Answer × Db
refuse_identity h db = refused_as db (
    add_delivery_refusal h.outside.redact
      (record { id = h.refusal_id; playbook_name = ""; delivery_id = ""; received_at = h.now }) db)

unfoldable pub with_identity :
    Handler → Request → String → Source → Bytes → Identified → Db → Answer × Db
with_identity h r name source body Identified.missing db = refuse_identity h db
with_identity h r name source body Identified.not_single db = refuse_identity h db
with_identity h r name source body (Identified.found_declared s) db =
    accept_request h r name source body (h.text_of s) (some IdentityKind.declared) db
with_identity h r name source body Identified.found_digest db =
    accept_request h r name source body (h.outside.digest body) (some IdentityKind.digest) db

unfoldable pub with_body :
    Handler → Request → String → Source → Bytes → Option Bytes → Db → Answer × Db
with_body h r name source secret none db = (Answer.refused, db)
with_body h r name source secret (some body) db =
    if not (
      verify_signature h.mac source.signature_prefix (r.headers source.signature_header) secret
        body)
    then (Answer.refused, db)
    else with_identity h r name source body (identity_in h.document_of source body) db

unfoldable pub with_secret : Handler → Request → String → Source → Option Bytes → Db → Answer × Db
with_secret h r name source none db = (Answer.refused, db)
with_secret h r name source (some secret) db = with_body h r name source secret r.body db

unfoldable pub with_source : Handler → Request → String → Option Source → Db → Answer × Db
with_source h r name none db = (Answer.refused, db)
with_source h r name (some source) db = with_secret h r name source (h.secret_of name) db

unfoldable pub with_name : Handler → Request → Option String → Db → Answer × Db
with_name h r none db = (Answer.not_found, db)
with_name h r (some name) db =
    if not r.is_post then (Answer.not_found, db) else with_source h r name (h.source_of name) db

-- `ServeHTTP`
unfoldable pub serve_http : Handler → Request → Db → Answer × Db
serve_http h r db = with_name h r (source_name r.path) db
