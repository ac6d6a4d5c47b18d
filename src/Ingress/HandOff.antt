-- ===== src/Ingress/HandOff.antt =====
-- ingress/handoff.go: `HandOff`, which decides one delivery against the hand-off rows that its
-- acceptance recorded, and `finishDelivery`. A failing write ends it with what it wrote before.
pub mod Finish
pub mod Dispatched
use gronin.Prelude.{
  ℕ, Bool, true, false, ◌&&◌, List, [], ◌∷◌, ◌++◌, map, Option, none, some, String, str_eq,
  if◌then◌else◌, Result, ok, err, select, exists_row,
}
use gronin.Prelude.Table.{Table, set_entry}
use gronin.Record.Types.{Time, Delivery, DeliveryState, HandOff, HandOffState, DeliveryRefusalRow}
use gronin.Record.Db.{Db, StoreError}
use gronin.Record.Deliveries.{
  handoffs_of, set_handoff_state, set_delivery_state, add_delivery_refusal,
}

-- A loaded playbook, in what a hand-off reads of it.
pub record Book : Type 0 where
  pub name : String
  pub is_webhook : Bool
  pub source : String

-- What `playbook.Extract` and `playbook.Check` say of a delivery's body, and the `Dispatcher`:
-- `passes` is that there is no refusal. A dispatch writes the record by what the guard and the
-- executor do.
pub record Reach : Type 0 where
  pub passes : Book → Bool
  pub redact : String → String
  pub dispatch : Book → Db → HandOffState × Db
  -- The identifier drawn for a refusal, and the clock's reading while a playbook is decided.
  pub refusal_id : String → String
  pub now : String → Time

-- A loop's state: the database, the states map, and the playbooks dispatched so far.
pub record Progress : Type 0 where
  pub db : Db
  pub states : Table HandOffState
  pub dispatched : List String

abbrev pub is_pending : HandOffState → Bool
is_pending HandOffState.pending = true
is_pending HandOffState.waiting = false
is_pending HandOffState.handed_off = false
is_pending HandOffState.refused = false
is_pending HandOffState.dropped = false

-- The zero time for a hand-off that waits, which is not a decision.
abbrev pub decided_time : HandOffState → Time → Time
decided_time HandOffState.waiting at = 0
decided_time HandOffState.pending at = at
decided_time HandOffState.handed_off at = at
decided_time HandOffState.refused at = at
decided_time HandOffState.dropped at = at

-- pending[name]
unfoldable pub is_pending_name : List HandOff → String → Bool
is_pending_name hs name = exists_row (λ h. str_eq h.playbook_name name && is_pending h.state) hs

-- Whether the loop decides a playbook: bound to the delivery's source, and with a pending row.
unfoldable pub is_due : List HandOff → Delivery → Book → Bool
unfolding is_pending_name
is_due hs delivery book =
    book.is_webhook && (str_eq book.source delivery.source && is_pending_name hs book.name)

-- One step of a `Result` over a state that an error keeps.
abbrev pub then_set :
    Result StoreError Db
    → Progress
    → (Db → Option StoreError × Progress)
    → Option StoreError × Progress
then_set (ok db) s f = f db
then_set (err e) s f = (some e, s)

-- The round of one due playbook.
unfoldable pub decide : Reach → Delivery → Book → Progress → Option StoreError × Progress
decide reach delivery book s =
    let at = reach.now book.name in
    if reach.passes book
    then (let (state, db) = reach.dispatch book s.db in
        let told : Progress = record s { db = db; dispatched = s.dispatched ++ book.name ∷ [] } in
        then_set (set_handoff_state delivery.id book.name state (decided_time state at) db) told
          (λ db'. (none, record told { db = db'; states = set_entry book.name state s.states })))
    else (let refusal : DeliveryRefusalRow = record {
      id = reach.refusal_id book.name;
      playbook_name = book.name;
      delivery_id = delivery.id;
      received_at = at;
    } in
        then_set (add_delivery_refusal reach.redact refusal s.db) s (λ db.
          then_set (set_handoff_state delivery.id book.name HandOffState.refused at db)
            (record s { db = db })
            (λ db'. (
              none,
              record s { db = db'; states = set_entry book.name HandOffState.refused s.states },
            ))))

-- One round of the loop over the loaded playbooks.
unfoldable pub decide_if_due :
    Reach → Delivery → List HandOff → Book → Progress → Option StoreError × Progress
unfolding is_due decide
decide_if_due reach delivery hs book s =
    if is_due hs delivery book then decide reach delivery book s else (none, s)

-- The loop over the loaded playbooks: an error ends it.
unfoldable pub decide_each :
    Reach → Delivery → List HandOff → List Book → Progress → Option StoreError × Progress
unfolding decide_if_due
decide_each reach delivery hs [] s = (none, s)
decide_each reach delivery hs (book ∷ books) s =
    let decided = decide_if_due reach delivery hs book s in
    let rest = decide_each reach delivery hs books decided.1 in
    elim decided.0 [ some e ↦ (some e, decided.1) | none ↦ rest ]

-- One round of the loop of `finishDelivery`.
unfoldable pub finish_round : DeliveryState → HandOffState → DeliveryState
finish_round state HandOffState.dropped = DeliveryState.dropped
finish_round state HandOffState.handed_off = state
finish_round state HandOffState.refused = state
finish_round DeliveryState.dropped HandOffState.pending = DeliveryState.dropped
finish_round _ HandOffState.pending = DeliveryState.waiting
finish_round DeliveryState.dropped HandOffState.waiting = DeliveryState.dropped
finish_round _ HandOffState.waiting = DeliveryState.waiting

unfoldable pub finish_each : DeliveryState → List HandOffState → DeliveryState
unfolding finish_round
finish_each state [] = state
finish_each state (h ∷ hs) = finish_each (finish_round state h) hs

-- The state that `finishDelivery` writes, over the states map in any order.
unfoldable pub finish_state : List HandOffState → DeliveryState
unfolding finish_each
finish_state [] = DeliveryState.unbound
finish_state (h ∷ hs) = finish_each DeliveryState.handed_off (h ∷ hs)

-- The end of `HandOff`: `finishDelivery`, unless the loop failed.
unfoldable pub finish_delivery :
    Delivery → Option StoreError × Progress → Option StoreError × Progress
unfolding finish_state
finish_delivery delivery (some e, s) = (some e, s)
finish_delivery delivery (none, s) =
    then_set
      (set_delivery_state delivery.id
        (finish_state (map (λ (e : String × HandOffState). e.1) s.states)) s.db)
      s (λ db'. (none, record s { db = db' }))

-- What `HandOff` starts from: the states on record.
abbrev pub start_of : List HandOff → Db → Progress
start_of hs db = record {
  db = db;
  states = map (λ (h : HandOff). (h.playbook_name, h.state)) hs;
  dispatched = [];
}

-- `HandOff`; the body was read.
unfoldable pub hand_off : Reach → List Book → Delivery → Db → Option StoreError × Progress
unfolding decide_each finish_delivery
hand_off reach loaded delivery db =
    let hs = handoffs_of db delivery.id in
    finish_delivery delivery (decide_each reach delivery hs loaded (start_of hs db))
