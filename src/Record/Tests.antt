-- ===== src/Record/Tests.antt =====
-- The record on one delivery: accepted, repeated, and retried after its process ended.
use gronin.Prelude.{
  List, inl, inr, ℕ, ◌+◌, ◌≡◌, refl, [], ◌∷◌, Option, none, some, String, Bool, true, false, ok,
  find, select, exists_row, update, ◌||◌, ◌&&◌,
}
use gronin.Prelude.Int.{pos, leb_ℤ}
use gronin.Record.Types.{
  Delivery, DeliveryState, IdentityKind, HandOff, HandOffState, TriggerKind, time_sub,
}
use gronin.Record.Db.{Db, is_handoff, is_delivery, is_undecided, is_decided}
use gronin.Record.Reconcile.{
  is_run_of, reconcile_delivery, reconcile_each, reconcile_one, undecided_names, decided_elsewhere,
  set_handoff, set_delivery, end_left_wait,
}
use gronin.Record.Reconcile.Decided.{is_decided_of, reconcile_delivery-decided}
use gronin.Record.Accept.{
  AcceptParams, Outside, accept, accept_known, existing_delivery, judge, judge_gone, is_alive,
  record_new, recorded, repoint, new_delivery, identity_of, to_hand, decided_in_chain, chain_from,
  decided_names, insert_handoffs, filing_of,
}
use gronin.Record.Accept.Repeat.{accept-accept}
use gronin.Record.Accept.Retry.{accept-retry}
use gronin.Record.Accept.Walk.{IsChained, decided_in_chain-total}

abbrev empty : Db
empty = record {
  deliveries = [];
  identities = [];
  handoffs = [];
  runs = [];
  refusals = [];
  delivery_refusals = [];
  waiting_triggers = [];
}

abbrev outside : String → Option (String → Bool) → Outside
outside id alive = record {
  redact = λ x. x;
  digest = λ body. "digest";
  delivery_id = id;
  body_ref = "blob";
  refusal_id = λ playbook. playbook;
  alive = alive;
}

abbrev params : ℕ → AcceptParams
params at = record {
  source = "forge";
  identity = "event-7";
  identity_kind = some IdentityKind.declared;
  body = [];
  peer = "10.0.0.1";
  received_at = at;
  instance_id = "i1";
  replay_window = pos 1000;
  playbooks = "triage" ∷ "label" ∷ [];
}

-- What the first acceptance returns, and the database that it leaves.
abbrev first : Delivery
first = record {
  id = "d1";
  source = "forge";
  identity = "event-7";
  identity_kind = IdentityKind.declared;
  received_at = 100;
  peer = "10.0.0.1";
  body_ref = "blob";
  body_sha256 = "digest";
  repeats = 0;
  instance_id = "i1";
  supersedes = "";
  state = DeliveryState.accepted;
}

abbrev row : String → String → HandOffState → ℕ → HandOff
row delivery playbook state at = record {
  delivery_id = delivery;
  playbook_name = playbook;
  state = state;
  decided_at = at;
}

abbrev accepted : Db
accepted = record empty {
  deliveries = first ∷ [];
  identities =
      record { source = "forge"; identity = "event-7"; delivery_id = "d1"; accepted_at = 100 } ∷ [];
  handoffs =
      row "d1" "label" HandOffState.pending 0 ∷ row "d1" "triage" HandOffState.pending 0 ∷ [];
}

first-accepted : accept (outside "d1" none) (params 100) empty ≡ ok (first, true, accepted)
unfolding accept existing_delivery identity_of record_new to_hand insert_handoffs recorded repoint
    new_delivery find exists_row update
first-accepted = refl

accept-accept_example :
    accept (outside "d2" none) (params 200) accepted
    ≡ ok (
      record first { repeats = 1 },
      false,
      record accepted {
        deliveries =
            update
              (is_delivery "d1")
              (λ x. record x { repeats = x.repeats + 1 })
              accepted.deliveries;
      },
    )
unfolding identity_of time_sub is_alive
accept-accept_example =
    accept-accept (outside "d1" none) (outside "d2" none) (params 100) (params 200) first empty
      accepted first-accepted refl refl refl refl refl

-- A run of `triage` began before the process ended; `label` was not handed over.
abbrev crashed : Db
crashed = record accepted {
  runs =
      record {
        id = "r1";
        playbook_name = "triage";
        trigger_kind = TriggerKind.webhook;
        started_at = 110;
        waiting_trigger_id = "";
        delivery_id = "d1";
      }
      ∷ [];
}

abbrev second : Delivery
second = record first { id = "d2"; received_at = 200; supersedes = "d1" }

abbrev concluded : Db
concluded = record crashed {
  deliveries = record first { state = DeliveryState.dropped } ∷ [];
  handoffs =
      row "d1" "label" HandOffState.dropped 200
      ∷ row "d1" "triage" HandOffState.handed_off 200
      ∷ [];
}

abbrev retried : Db
retried = record crashed {
  deliveries = second ∷ record first { state = DeliveryState.dropped } ∷ [];
  identities =
      record { source = "forge"; identity = "event-7"; delivery_id = "d2"; accepted_at = 200 } ∷ [];
  handoffs = row "d2" "label" HandOffState.pending 0 ∷ concluded.handoffs;
}

reconciled :
    reconcile_delivery (filing_of (outside "d2" (some (λ id. false)))) "d1" 200 crashed
    ≡ ok concluded
unfolding reconcile_delivery reconcile_each reconcile_one undecided_names decided_elsewhere
    set_handoff set_delivery end_left_wait select exists_row update find
reconciled = refl

retry_accepted :
    accept (outside "d2" (some (λ id. false))) (params 200) crashed ≡ ok (second, true, retried)
unfolding accept accept_known judge judge_gone is_alive existing_delivery identity_of record_new
    to_hand decided_in_chain chain_from decided_names insert_handoffs recorded repoint new_delivery
    reconcile_delivery reconcile_each reconcile_one undecided_names decided_elsewhere set_handoff
    set_delivery end_left_wait select exists_row update find time_sub
retry_accepted = refl

known_first : existing_delivery crashed "forge" "event-7" ≡ ok (some first)
unfolding existing_delivery find
known_first = refl

run_names : exists_row (is_run_of "d1" "triage") crashed.runs ≡ true
unfolding exists_row
run_names = refl

not_dropped :
    exists_row
      (λ h. is_handoff "d1" "triage" h && (is_undecided h.state || is_decided h.state))
      crashed.handoffs
    ≡ true
unfolding exists_row
not_dropped = refl

no_row_yet : exists_row (is_handoff "d2" "triage") crashed.handoffs ≡ false
unfolding exists_row
no_row_yet = refl

within : leb_ℤ (pos 1000) (time_sub 200 100) ≡ false
unfolding time_sub
within = refl

gone : is_alive (some (λ id. false)) "i1" ≡ false
unfolding is_alive
gone = refl

reconcile_delivery-decided_example :
    exists_row (is_decided_of "d1" "triage") concluded.handoffs ≡ true
reconcile_delivery-decided_example =
    reconcile_delivery-decided (filing_of (outside "d2" (some (λ id. false)))) "d1" "triage" 200
      crashed concluded reconciled run_names not_dropped

accept-retry_example :
    (second.supersedes ≡ first.id)
    × (exists_row (is_handoff "d2" "triage") retried.handoffs ≡ false)
unfolding identity_of
accept-retry_example =
    accept-retry (outside "d2" (some (λ id. false))) (params 200) first second "triage" crashed
      retried retry_accepted known_first within refl gone refl run_names not_dropped no_row_yet
      (λ n k. refl)

retried-IsChained : IsChained retried.deliveries
unfolding exists_row
retried-IsChained = (refl, inr refl, (refl, inl refl, tt))

second_there : exists_row (is_delivery "d2") retried.deliveries ≡ true
unfolding exists_row
second_there = refl

decided_in_chain-total_example : (names : List String) × (decided_in_chain retried "d2" ≡ ok names)
decided_in_chain-total_example = decided_in_chain-total retried "d2" retried-IsChained second_there
