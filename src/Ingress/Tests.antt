-- ===== src/Ingress/Tests.antt =====
-- The state of a delivery with three hand-offs.
use gronin.Prelude.{List, String, map, none, true, refl, select, update, ◌≡◌, [], ◌∷◌, exists_row}
use gronin.Record.Types.{Delivery, IdentityKind, DeliveryState, HandOffState}
use gronin.Prelude.Table.{set_entry}
use gronin.Record.Db.{Db}
use gronin.Record.Deliveries.{handoffs_of, set_handoff_state, set_delivery_state}
use gronin.Record.Reconcile.{set_handoff, set_delivery}
use gronin.Ingress.HandOff.{
  Book, Reach, hand_off, decide_each, decide_if_due, is_due, is_pending_name, decide,
  finish_delivery, finish_state, finish_each, finish_round,
}
use gronin.Ingress.HandOff.Dispatched.{Picks, IsToDispatch, hand_off-dispatched}

-- Three playbooks: one is due, one has no pending row, one is bound to another source.
abbrev delivery : Delivery
delivery = record {
  id = "d1";
  source = "forge";
  identity = "event-7";
  identity_kind = IdentityKind.declared;
  received_at = 100;
  peer = "10.0.0.1";
  body_ref = "blob";
  body_sha256 = "digest";
  repeats = 0;
  instance_id = "i1";
  supersedes = "";
  state = DeliveryState.accepted;
}

abbrev book : String → String → Book
book name source = record { name = name; is_webhook = true; source = source }

abbrev loaded : List Book
loaded = book "triage" "forge" ∷ book "label" "forge" ∷ book "deploy" "chat" ∷ []

abbrev reach : Reach
reach = record {
  passes = λ b. true;
  redact = λ x. x;
  dispatch = λ b db. (HandOffState.handed_off, db);
  refusal_id = λ x. x;
  now = λ x. 120;
}

abbrev before : Db
before = record {
  deliveries = delivery ∷ [];
  identities = [];
  handoffs =
      record {
        delivery_id = "d1";
        playbook_name = "triage";
        state = HandOffState.pending;
        decided_at = 0;
      }
      ∷ [];
  runs = [];
  refusals = [];
  delivery_refusals = [];
  waiting_triggers = [];
}

succeeds : (hand_off reach loaded delivery before).0 ≡ none
unfolding hand_off decide_each decide_if_due is_due is_pending_name decide finish_delivery
    handoffs_of set_handoff_state set_delivery_state set_handoff set_delivery set_entry exists_row
    select update finish_state finish_each finish_round
succeeds = refl

hand_off-dispatched_example :
    (picked : List Book) × Picks (IsToDispatch reach before delivery) loaded picked
    × ((hand_off reach loaded delivery before).1.dispatched ≡ map (λ (b : Book). b.name) picked)
hand_off-dispatched_example = hand_off-dispatched reach loaded delivery before succeeds
