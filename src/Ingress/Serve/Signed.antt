-- ===== src/Ingress/Serve/Signed.antt =====
-- ingress/ingress.go: what a request that is not signed can do.
use gronin.Prelude.{
  Bool, true, false, not, [], Option, none, some, String, ◌≡◌, refl, if◌then◌else◌, ◌⊎◌, inl, inr,
}
use gronin.Prelude.Bytes.{Bytes, same}
use gronin.Record.Db.{Db}
use gronin.Playbook.Pointer.{Json, null, at_pointer}
use gronin.Ingress.Signature.{zeros, verify_signature}
use gronin.Ingress.Signature.Exact.{IsSigned, verify_signature-IsSigned}
use gronin.Ingress.Serve.{
  Source, Request, Handler, Answer, Identified, source_name, identified, identity_in, with_body,
  with_secret, with_source, with_name, serve_http,
}

-- A request to a configured source, with its signature over its body.
pub record Authentic (h : Handler) (r : Request) : Type 0 where
  pub name : String
  pub source : Source
  pub secret : Bytes
  pub body : Bytes
  pub named : source_name r.path ≡ some name
  pub configured : h.source_of name ≡ some source
  pub known : h.secret_of name ≡ some secret
  pub read : r.body ≡ some body
  pub signed :
      IsSigned h.mac source.signature_prefix (r.headers source.signature_header) secret body

abbrev pub IsTurnedAway : Db → Answer × Db → Type 0
IsTurnedAway db (answer, db') =
    (db' ≡ db) × ((answer ≡ Answer.not_found) ⊎ (answer ≡ Answer.refused))

-- Where no MAC is all zeros: a request is to a configured source and carries the MAC of its body
-- under that source's secret, or it is answered `not found` or `refused` and leaves the record
-- as it was.
pub serve_http-Authentic :
    (h : Handler) (r : Request) (db : Db)
    → ((secret body : Bytes) → same (h.mac secret body) (zeros 32) ≡ false)
    → Authentic h r ⊎ IsTurnedAway db (serve_http h r db)
unfolding serve_http with_name with_source with_secret with_body
serve_http-Authentic h r db no_zeros = by_name (source_name r.path) refl
  where
    by_signature :
        (name : String) (source : Source) (secret body : Bytes) (b : Bool)
        → source_name r.path ≡ some name
        → h.source_of name ≡ some source
        → h.secret_of name ≡ some secret
        → r.body ≡ some body
        → verify_signature h.mac source.signature_prefix
            (r.headers source.signature_header)
            secret
            body
          ≡ b
        → Authentic h r ⊎ IsTurnedAway db (with_body h r name source secret (some body) db)
    by_signature name source secret body true p q k e v = inl (record {
      name = name;
      source = source;
      secret = secret;
      body = body;
      named = p;
      configured = q;
      known = k;
      read = e;
      signed =
          verify_signature-IsSigned h.mac source.signature_prefix secret body (no_zeros secret body)
            (r.headers source.signature_header) v;
    })
    by_signature name source secret body false p q k e v = inr (rw v (refl, inr refl))

    by_body :
        (name : String) (source : Source) (secret : Bytes) (o : Option Bytes)
        → source_name r.path ≡ some name
        → h.source_of name ≡ some source
        → h.secret_of name ≡ some secret
        → r.body ≡ o
        → Authentic h r ⊎ IsTurnedAway db (with_body h r name source secret o db)
    by_body name source secret none p q k e = inr (refl, inr refl)
    by_body name source secret (some body) p q k e =
        by_signature name source secret body _ p q k e refl

    by_secret :
        (name : String) (source : Source) (o : Option Bytes)
        → source_name r.path ≡ some name
        → h.source_of name ≡ some source
        → h.secret_of name ≡ o
        → Authentic h r ⊎ IsTurnedAway db (with_secret h r name source o db)
    by_secret name source none p q k = inr (refl, inr refl)
    by_secret name source (some secret) p q k = by_body name source secret r.body p q k refl

    by_source :
        (name : String) (o : Option Source)
        → source_name r.path ≡ some name
        → h.source_of name ≡ o
        → Authentic h r ⊎ IsTurnedAway db (with_source h r name o db)
    by_source name none p q = inr (refl, inr refl)
    by_source name (some source) p q = by_secret name source (h.secret_of name) p q refl

    by_method :
        (name : String) (b : Bool)
        → source_name r.path ≡ some name
        → Authentic h r
          ⊎ IsTurnedAway db
              (if not b then (Answer.not_found, db) else with_source h r name (h.source_of name) db)
    by_method name false p = inr (refl, inl refl)
    by_method name true p = by_source name (h.source_of name) p refl

    by_name :
        (o : Option String)
        → source_name r.path ≡ o
        → Authentic h r ⊎ IsTurnedAway db (with_name h r o db)
    by_name none p = inr (refl, inl refl)
    by_name (some name) p = by_method name r.is_post p

-- A declared pointer that leads to a JSON null is reported as one that leads to nothing.
pub identity_in-null :
    (document_of : Bytes → Json) (source : Source) (body : Bytes)
    → same source.identity [] ≡ false
    → at_pointer (document_of body) source.identity ≡ null
    → identity_in document_of source body ≡ Identified.missing
unfolding identity_in identified
identity_in-null document_of source body declared leads = rw (declared, leads) refl
