-- ===== src/Record/Deliveries.antt =====
-- record/deliveries.go and delivery_refusals.go: the writes that a hand-off makes.
use gronin.Prelude.{List, ◌∷◌, String, str_eq, if◌then◌else◌, Result, ok, err, select, exists_row}
use gronin.Record.Types.{Time, is_zero, DeliveryState, HandOff, HandOffState, DeliveryRefusalRow}
use gronin.Record.Db.{
  Db, StoreError, no_time, no_row, duplicate_key, is_handoff, is_delivery, of_delivery,
}
use gronin.Record.Reconcile.{set_handoff, set_delivery}

-- `HandOffsOf`; the order of its rows is not modelled, since its caller reads them into maps.
unfoldable pub handoffs_of : Db → String → List HandOff
handoffs_of db delivery = select (of_delivery delivery) db.handoffs

-- `SetHandOffState`: an error when no row was changed.
unfoldable pub set_handoff_state : String → String → HandOffState → Time → Db → Result StoreError Db
unfolding set_handoff
set_handoff_state delivery playbook state at db =
    if exists_row (is_handoff delivery playbook) db.handoffs
    then ok (record db { handoffs = set_handoff delivery playbook state at db.handoffs })
    else err no_row

-- `SetDeliveryState`
unfoldable pub set_delivery_state : String → DeliveryState → Db → Result StoreError Db
unfolding set_delivery
set_delivery_state id state db =
    if exists_row (is_delivery id) db.deliveries
    then ok (record db { deliveries = set_delivery id state db.deliveries })
    else err no_row

-- `AddDeliveryRefusal`, of a value refusal, which files no body.
unfoldable pub add_delivery_refusal :
    (String → String) → DeliveryRefusalRow → Db → Result StoreError Db
add_delivery_refusal redact refusal db =
    if is_zero refusal.received_at
    then err no_time
    else if exists_row (λ r. str_eq r.id refusal.id) db.delivery_refusals
    then err duplicate_key
    else ok (record db {
      delivery_refusals =
          record refusal { playbook_name = redact refusal.playbook_name } ∷ db.delivery_refusals;
    })
