-- ===== src/Record/Db.antt =====
-- The database: a list of rows for each table, the newest first, and the tests of the WHERE clauses.
use gronin.Prelude.{Bool, true, false, ◌&&◌, List, String, str_eq}
use gronin.Record.Types.{
  Delivery, IdentityRow, HandOff, RunRow, Refusal, DeliveryRefusalRow, WaitingTrigger, HandOffState,
  WaitOutcome, Mechanism,
}

pub record Db : Type 0 where
  pub deliveries : List Delivery
  pub identities : List IdentityRow
  pub handoffs : List HandOff
  pub runs : List RunRow
  pub refusals : List Refusal
  pub delivery_refusals : List DeliveryRefusalRow
  pub waiting_triggers : List WaitingTrigger

-- Why a statement or a transaction fails.
pub data StoreError : Type 0 where
  no_time no_row duplicate_key already_ended slot_full unending : StoreError

-- state IN ('pending', 'waiting')
abbrev pub is_undecided : HandOffState → Bool
is_undecided HandOffState.pending = true
is_undecided HandOffState.waiting = true
is_undecided HandOffState.handed_off = false
is_undecided HandOffState.refused = false
is_undecided HandOffState.dropped = false

-- state IN ('handed_off', 'refused')
abbrev pub is_decided : HandOffState → Bool
is_decided HandOffState.handed_off = true
is_decided HandOffState.refused = true
is_decided HandOffState.pending = false
is_decided HandOffState.waiting = false
is_decided HandOffState.dropped = false

-- outcome = 'waiting'
abbrev pub is_waiting : WaitOutcome → Bool
is_waiting WaitOutcome.waiting = true
is_waiting _ = false

-- mechanism = 'dropped'
abbrev pub is_drop : Mechanism → Bool
is_drop Mechanism.dropped = true
is_drop _ = false

-- WHERE delivery_id = ? AND playbook_name = ?, of a hand-off.
abbrev pub is_handoff : String → String → HandOff → Bool
is_handoff delivery playbook h = str_eq h.delivery_id delivery && str_eq h.playbook_name playbook

-- WHERE id = ?, of a delivery.
abbrev pub is_delivery : String → Delivery → Bool
is_delivery id d = str_eq d.id id

abbrev pub of_delivery : String → HandOff → Bool
of_delivery id h = str_eq h.delivery_id id
