-- ===== src/Record/Accept.antt =====
-- record/accept.go: `Accept` and what it calls, as one transaction over the database. What the call
-- reads elsewhere is an argument: the redactor, the digest of a body, the identifiers drawn at
-- random and the reference of the stored body, and whether an instance is alive.
pub mod New
pub mod Repeat
pub mod Chain
pub mod Walk
pub mod Retry
use gronin.Prelude.{
  ℕ, zero, suc, ◌+◌, Bool, true, false, ◌&&◌, not, List, [], ◌∷◌, ◌++◌, map, Option, none, some,
  String, str_eq, if◌then◌else◌, Result, ok, err, ◌>>=◌, find, select, exists_row, update, length,
}
use gronin.Prelude.Int.{ℤ, leb_ℤ}
use gronin.Record.Types.{
  Time, is_zero, time_sub, Delivery, DeliveryState, IdentityKind, IdentityRow, HandOff,
  HandOffState,
}
use gronin.Record.Db.{
  Db, StoreError, no_time, no_row, duplicate_key, unending, is_decided, is_handoff, is_delivery,
  of_delivery,
}
use gronin.Record.Refusals.{Filing}
use gronin.Record.Reconcile.{reconcile_delivery}

pub record AcceptParams : Type 0 where
  pub source : String
  pub identity : String
  -- `none` is the empty kind: the source declares no identity.
  pub identity_kind : Option IdentityKind
  pub body : List ℕ
  pub peer : String
  pub received_at : Time
  pub instance_id : String
  pub replay_window : ℤ
  pub playbooks : List String

-- What a call takes from outside the database.
pub record Outside : Type 0 where
  pub redact : String → String
  -- hex.EncodeToString(sha256.Sum256(body))
  pub digest : List ℕ → String
  pub delivery_id : String
  pub body_ref : String
  pub refusal_id : String → String
  -- `none` is a nil `Alive`.
  pub alive : Option (String → Bool)

abbrev pub filing_of : Outside → Filing
filing_of o = record { redact = o.redact; refusal_id = o.refusal_id }

-- `existingDelivery`: the delivery that an identity points at, received when the identity row was
-- last accepted.
unfoldable pub existing_delivery : Db → String → String → Result StoreError (Option Delivery)
existing_delivery db source identity =
    elim (find (λ r. str_eq r.source source && str_eq r.identity identity) db.identities) [
      | none ↦ ok none
      | some row ↦ elim (find (is_delivery row.delivery_id) db.deliveries) [
        | none ↦ err no_row
        | some d ↦ ok (some (record d { received_at = row.accepted_at }))
      ]
    ]

-- What `judge` says: whether the identity is new, and what it supersedes.
pub record Judgement : Type 0 where
  pub is_new : Bool
  pub supersedes : String

-- state IN (accepted, waiting)
abbrev pub is_open : DeliveryState → Bool
is_open DeliveryState.accepted = true
is_open DeliveryState.waiting = true
is_open DeliveryState.handed_off = false
is_open DeliveryState.dropped = false
is_open DeliveryState.unbound = false

abbrev pub is_dropped : DeliveryState → Bool
is_dropped DeliveryState.dropped = true
is_dropped DeliveryState.accepted = false
is_dropped DeliveryState.waiting = false
is_dropped DeliveryState.handed_off = false
is_dropped DeliveryState.unbound = false

-- alive == nil || alive(instance)
unfoldable pub is_alive : Option (String → Bool) → String → Bool
is_alive none id = true
is_alive (some alive) id = alive id

-- The end of `judge`, which reconciles the delivery of a process that is gone.
unfoldable pub judge_gone :
    Outside → Delivery → AcceptParams → Db → Result StoreError (Judgement × Db)
judge_gone o existing p db =
    reconcile_delivery (filing_of o) existing.id p.received_at db >>= λ db'.
    elim (find (is_delivery existing.id) db'.deliveries) [
      | none ↦ err no_row
      | some d ↦ ok (
          if is_dropped d.state
          then (record { is_new = true; supersedes = existing.id }, db')
          else (record { is_new = false; supersedes = "" }, db'))
    ]

unfoldable pub judge : Outside → Delivery → AcceptParams → Db → Result StoreError (Judgement × Db)
unfolding is_alive judge_gone
judge o existing p db =
    if leb_ℤ p.replay_window (time_sub p.received_at existing.received_at)
    then ok (record { is_new = true; supersedes = "" }, db)
    else if is_dropped existing.state
    then ok (record { is_new = true; supersedes = existing.id }, db)
    else if not (is_open existing.state)
    then ok (record { is_new = false; supersedes = "" }, db)
    else if is_alive o.alive existing.instance_id
    then ok (record { is_new = false; supersedes = "" }, db)
    else judge_gone o existing p db

-- The playbooks of a delivery's hand-offs that are decided.
unfoldable pub decided_names : String → List HandOff → List String
decided_names delivery hs =
    map (λ h. h.playbook_name) (select (λ h. of_delivery delivery h && is_decided h.state) hs)

-- The loop of `decidedInChain`, on fuel.
unfoldable pub chain_from : ℕ → Db → String → Result StoreError (List String)
unfolding decided_names
chain_from zero db id = err unending
chain_from (suc fuel) db id = elim (str_eq id "") [
  | true ↦ ok []
  | false ↦ elim (find (is_delivery id) db.deliveries) [
    | none ↦ err no_row
    | some d ↦
        chain_from fuel db d.supersedes >>= λ names. ok (decided_names id db.handoffs ++ names)
  ]
]

-- `decidedInChain`: no chain of distinct deliveries is longer than the table.
unfoldable pub decided_in_chain : Db → String → Result StoreError (List String)
decided_in_chain db id = chain_from (suc (suc (length db.deliveries))) db id

abbrev pub is_in : List String → String → Bool
is_in names name = exists_row (λ n. str_eq n name) names

-- The playbooks that a new delivery is handed to: not those decided in the chain that it retries.
unfoldable pub to_hand : Db → String → List String → Result StoreError (List String)
to_hand db supersedes playbooks =
    if str_eq supersedes ""
    then ok playbooks
    else (decided_in_chain db supersedes >>= λ decided.
        ok (select (λ name. not (is_in decided name)) playbooks))

-- INSERT INTO delivery_identities … ON CONFLICT(source, identity) DO UPDATE
unfoldable pub repoint : IdentityRow → List IdentityRow → List IdentityRow
repoint row rows =
    if exists_row (λ r. str_eq r.source row.source && str_eq r.identity row.identity) rows
    then update (λ r. str_eq r.source row.source && str_eq r.identity row.identity) (λ _. row) rows
    else row ∷ rows

-- INSERT INTO handoffs …, one for each playbook; the delivery and the playbook are its primary key.
unfoldable pub insert_handoffs :
    (String → String) → String → List String → List HandOff → Result StoreError (List HandOff)
insert_handoffs redact delivery [] hs = ok hs
insert_handoffs redact delivery (name ∷ names) hs =
    let rest = insert_handoffs redact delivery names (
      record {
        delivery_id = delivery;
        playbook_name = redact name;
        state = HandOffState.pending;
        decided_at = 0;
      }
      ∷ hs) in
    if exists_row (is_handoff delivery (redact name)) hs then err duplicate_key else rest

-- What an acceptance takes as the identity: the declared value, or the digest of the body.
unfoldable pub identity_of : Outside → AcceptParams → String × IdentityKind
identity_of o p = elim p.identity_kind [
  | none ↦ (o.digest p.body, IdentityKind.digest)
  | some kind ↦ (o.redact p.identity, kind)
]

-- The delivery that a new identity records.
unfoldable pub new_delivery : Outside → AcceptParams → String → Delivery
unfolding identity_of
new_delivery o p supersedes = record {
  id = o.delivery_id;
  source = o.redact p.source;
  identity = (identity_of o p).0;
  identity_kind = (identity_of o p).1;
  received_at = p.received_at;
  peer = o.redact p.peer;
  body_ref = o.body_ref;
  body_sha256 = o.digest p.body;
  repeats = 0;
  instance_id = o.redact p.instance_id;
  supersedes = supersedes;
  state = DeliveryState.accepted;
}

-- The database with a new delivery, its identity pointed at it, and its hand-offs.
unfoldable pub recorded : Delivery → List HandOff → Db → Db
unfolding repoint
recorded delivery hs db = record db {
  deliveries = delivery ∷ db.deliveries;
  identities =
      repoint
        (record {
          source = delivery.source;
          identity = delivery.identity;
          delivery_id = delivery.id;
          accepted_at = delivery.received_at;
        })
        db.identities;
  handoffs = hs;
}

-- The part of `Accept` that records a new delivery, its identity and its hand-offs.
unfoldable pub record_new :
    Outside → AcceptParams → Delivery → Db → Result StoreError (Delivery × Bool × Db)
record_new o p delivery db = to_hand db delivery.supersedes p.playbooks >>= λ playbooks.
    if exists_row (is_delivery delivery.id) db.deliveries
    then err duplicate_key
    else (insert_handoffs o.redact delivery.id playbooks db.handoffs >>= λ hs.
        ok (delivery, true, recorded delivery hs db))

-- The part of `Accept` that counts a repeat.
unfoldable pub count_repeat : Delivery → Db → Delivery × Bool × Db
count_repeat existing db = (
  record existing { repeats = existing.repeats + 1 },
  false,
  record db {
    deliveries =
        update (is_delivery existing.id) (λ d. record d { repeats = d.repeats + 1 }) db.deliveries;
  },
)

-- What follows the judgement of an identity that is known.
unfoldable pub accept_known :
    Outside → AcceptParams → Delivery → Judgement × Db → Result StoreError (Delivery × Bool × Db)
unfolding count_repeat
accept_known o p existing (j, db) =
    if j.is_new
    then record_new o p (new_delivery o p j.supersedes) db
    else ok (count_repeat existing db)

-- `Accept`. An error rolls the transaction back: the caller goes on with the database it had.
unfoldable pub accept : Outside → AcceptParams → Db → Result StoreError (Delivery × Bool × Db)
unfolding accept_known existing_delivery
accept o p db =
    if is_zero p.received_at
    then err no_time
    else (existing_delivery db (o.redact p.source) (identity_of o p).0 >>= λ found. elim found [
      | none ↦ record_new o p (new_delivery o p "") db
      | some existing ↦ judge o existing p db >>= accept_known o p existing
    ])
