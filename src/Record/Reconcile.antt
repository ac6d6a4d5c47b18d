-- ===== src/Record/Reconcile.antt =====
-- record/accept.go: `decidedElsewhere` and `reconcileDelivery`, inside the transaction of `Accept`.
pub mod Decided
use Prim.Native.String.{◌++◌ as str_append}
use gronin.Prelude.{
  Bool, true, false, ◌&&◌, not, List, [], ◌∷◌, map, Option, none, some, String, str_eq,
  if◌then◌else◌, Result, ok, err, ◌>>=◌, find, select, exists_row, update,
}
use gronin.Record.Types.{
  Time, Delivery, DeliveryState, HandOff, HandOffState, RunRow, Refusal, DeliveryRefusalRow,
  WaitingTrigger, WaitOutcome, Mechanism, TriggerKind,
}
use gronin.Record.Refusals.{Filing, add_refusal}
use gronin.Record.Db.{
  Db, StoreError, is_undecided, is_waiting, is_drop, is_handoff, is_delivery, of_delivery,
}

-- SELECT id FROM runs WHERE delivery_id = ? AND playbook_name = ?
abbrev pub is_run_of : String → String → RunRow → Bool
is_run_of delivery playbook r = str_eq r.delivery_id delivery && str_eq r.playbook_name playbook

-- … FROM refusals WHERE delivery_id = ? AND playbook_name = ? AND mechanism != 'dropped'
abbrev pub is_refusal_of : String → String → Refusal → Bool
is_refusal_of delivery playbook r =
    str_eq r.delivery_id delivery && (str_eq r.playbook_name playbook && not (is_drop r.mechanism))

abbrev pub is_value_refusal_of : String → String → DeliveryRefusalRow → Bool
is_value_refusal_of delivery playbook r =
    str_eq r.delivery_id delivery && str_eq r.playbook_name playbook

-- … FROM waiting_triggers WHERE delivery_id = ? AND playbook_name = ? AND outcome = 'waiting'
abbrev pub is_wait_of : String → String → WaitingTrigger → Bool
is_wait_of delivery playbook w =
    str_eq w.delivery_id delivery && (str_eq w.playbook_name playbook && is_waiting w.outcome)

-- `decidedElsewhere`: what a durable record decides a hand-off as, if one does.
unfoldable pub decided_elsewhere : Db → String → String → Option HandOffState
decided_elsewhere db delivery playbook =
    if exists_row (is_run_of delivery playbook) db.runs
    then some HandOffState.handed_off
    else if exists_row (is_refusal_of delivery playbook) db.refusals
    then some HandOffState.refused
    else if exists_row (is_value_refusal_of delivery playbook) db.delivery_refusals
    then some HandOffState.refused
    else none

-- UPDATE handoffs SET state = ?, decided_at = ? WHERE delivery_id = ? AND playbook_name = ?
unfoldable pub set_handoff : String → String → HandOffState → Time → List HandOff → List HandOff
set_handoff delivery playbook state at =
    update (is_handoff delivery playbook) (λ h. record h { state = state; decided_at = at })

-- The refusal that a drop of a waiting hand-off writes.
unfoldable pub drop_refusal : String → String → String → String → Time → Refusal
drop_refusal id delivery playbook waiting at = record {
  id = id;
  playbook_name = playbook;
  trigger_kind = TriggerKind.webhook;
  due_at = 0;
  waiting_trigger_id = waiting;
  mechanism = Mechanism.dropped;
  detail =
      str_append "delivery "
        (str_append delivery ": accepting process ended before its wait resolved");
  refused_at = at;
  delivery_id = delivery;
}

-- The end of the wait that a hand-off left behind, if it left one; the run column stays as it was.
unfoldable pub end_left_wait : Filing → String → Time → String → Db → Result StoreError Db
unfolding add_refusal drop_refusal
end_left_wait filing delivery at playbook db =
    elim (find (is_wait_of delivery playbook) db.waiting_triggers) [
      | none ↦ ok db
      | some w ↦
          add_refusal (drop_refusal (filing.refusal_id playbook) delivery playbook w.id at)
            (record db {
              waiting_triggers =
                  update (λ x. str_eq x.id w.id && is_waiting x.outcome)
                    (λ x. record x { outcome = WaitOutcome.dropped; outcome_at = at })
                    db.waiting_triggers;
            })
    ]

-- One round of the loop of `reconcileDelivery`; the Boolean is `dropped`.
unfoldable pub reconcile_one :
    Filing → String → Time → String → Db × Bool → Result StoreError (Db × Bool)
unfolding decided_elsewhere set_handoff end_left_wait
reconcile_one filing delivery at playbook (db, dropped) =
    elim (decided_elsewhere db delivery playbook) [
      | some state ↦
          ok (record db { handoffs = set_handoff delivery playbook state at db.handoffs }, dropped)
      | none ↦
          (end_left_wait filing delivery at playbook db >>= λ ended. ok (
            record ended {
              handoffs = set_handoff delivery playbook HandOffState.dropped at ended.handoffs;
            },
            true,
          ))
    ]

unfoldable pub reconcile_each :
    Filing → String → Time → List String → Db × Bool → Result StoreError (Db × Bool)
reconcile_each filing delivery at [] s = ok s
reconcile_each filing delivery at (name ∷ names) s =
    reconcile_one filing delivery at name s >>= λ s'. reconcile_each filing delivery at names s'

-- The hand-offs that the first query of `reconcileDelivery` finds.
unfoldable pub undecided_names : String → List HandOff → List String
undecided_names delivery hs =
    map (λ h. h.playbook_name) (select (λ h. of_delivery delivery h && is_undecided h.state) hs)

-- UPDATE deliveries SET state = ? WHERE id = ?
unfoldable pub set_delivery : String → DeliveryState → List Delivery → List Delivery
set_delivery id state = update (is_delivery id) (λ d. record d { state = state })

abbrev pub state_of_drop : Bool → DeliveryState
state_of_drop true = DeliveryState.dropped
state_of_drop false = DeliveryState.handed_off

-- `reconcileDelivery`
unfoldable pub reconcile_delivery : Filing → String → Time → Db → Result StoreError Db
unfolding undecided_names set_delivery
reconcile_delivery filing delivery at db =
    reconcile_each filing delivery at (undecided_names delivery db.handoffs) (db, false) >>= λ s.
    ok (record s.0 { deliveries = set_delivery delivery (state_of_drop s.1) s.0.deliveries })
