-- ===== src/Ingress/HandOff/Finish.antt =====
-- The state of a delivery, from the states of its hand-offs.
use gronin.Prelude.{◌≡◌, refl, Bool, true, false, List, [], ◌∷◌, if◌then◌else◌, exists_row, arith}
use gronin.Record.Types.{DeliveryState, HandOffState}
use gronin.Record.Db.{is_undecided}
use gronin.Ingress.HandOff.{finish_each, finish_state}

abbrev pub is_dropped_handoff : HandOffState → Bool
is_dropped_handoff HandOffState.dropped = true
is_dropped_handoff HandOffState.pending = false
is_dropped_handoff HandOffState.waiting = false
is_dropped_handoff HandOffState.handed_off = false
is_dropped_handoff HandOffState.refused = false

-- What the states say together, with no order: any dropped, else any undecided.
abbrev pub overall : List HandOffState → DeliveryState → DeliveryState
overall hs settled =
    if exists_row is_dropped_handoff hs
    then DeliveryState.dropped
    else if exists_row is_undecided hs
    then DeliveryState.waiting
    else settled

finish_each-dropped :
    (hs : List HandOffState) → finish_each DeliveryState.dropped hs ≡ DeliveryState.dropped
unfolding finish_each
finish_each-dropped [] = refl
finish_each-dropped (HandOffState.pending ∷ hs) = finish_each-dropped hs
finish_each-dropped (HandOffState.waiting ∷ hs) = finish_each-dropped hs
finish_each-dropped (HandOffState.handed_off ∷ hs) = finish_each-dropped hs
finish_each-dropped (HandOffState.refused ∷ hs) = finish_each-dropped hs
finish_each-dropped (HandOffState.dropped ∷ hs) = finish_each-dropped hs

finish_each-waiting :
    (hs : List HandOffState)
    → finish_each DeliveryState.waiting hs ≡ overall hs DeliveryState.waiting
unfolding finish_each exists_row
finish_each-waiting [] = refl
finish_each-waiting (HandOffState.pending ∷ hs) = ground (arith, finish_each-waiting hs)
finish_each-waiting (HandOffState.waiting ∷ hs) = ground (arith, finish_each-waiting hs)
finish_each-waiting (HandOffState.handed_off ∷ hs) = finish_each-waiting hs
finish_each-waiting (HandOffState.refused ∷ hs) = finish_each-waiting hs
finish_each-waiting (HandOffState.dropped ∷ hs) = finish_each-dropped hs

finish_each-handed_off :
    (hs : List HandOffState)
    → finish_each DeliveryState.handed_off hs ≡ overall hs DeliveryState.handed_off
unfolding finish_each exists_row
finish_each-handed_off [] = refl
finish_each-handed_off (HandOffState.pending ∷ hs) = ground (arith, finish_each-waiting hs)
finish_each-handed_off (HandOffState.waiting ∷ hs) = ground (arith, finish_each-waiting hs)
finish_each-handed_off (HandOffState.handed_off ∷ hs) = finish_each-handed_off hs
finish_each-handed_off (HandOffState.refused ∷ hs) = finish_each-handed_off hs
finish_each-handed_off (HandOffState.dropped ∷ hs) = finish_each-dropped hs

-- Whatever the order in which the states are read: no hand-off makes the delivery unbound, one
-- dropped hand-off makes it dropped, else one undecided makes it waiting, else it is handed off.
pub finish_state_lem :
    (h : HandOffState) (hs : List HandOffState)
    → (finish_state [] ≡ DeliveryState.unbound)
      × (finish_state (h ∷ hs) ≡ overall (h ∷ hs) DeliveryState.handed_off)
unfolding finish_state
finish_state_lem h hs = (refl, finish_each-handed_off (h ∷ hs))
