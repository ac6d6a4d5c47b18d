-- ===== src/Ingress/HandOff/Dispatched.antt =====
-- Which playbooks a hand-off dispatches.
use gronin.Prelude.{
  ◌≡◌, refl, sym, ap, ◌∙◌, ◌&&◌, List, [], ◌∷◌, ◌++◌, map, Option, none, some, String, str_eq, true,
  Bool, exists_row, eq_iff, false≢true, if◌then◌else◌, select, arith, Bool-cases, Option-cases, inl,
  inr,
}
use mathlib.Core.List.{append-nil, append_assoc}
use gronin.Record.Types.{Delivery, HandOff, HandOffState}
use gronin.Record.Db.{Db, StoreError, of_delivery}
use gronin.Record.Deliveries.{handoffs_of}
use gronin.Ingress.HandOff.{
  Book, Reach, Progress, is_due, decide, decide_if_due, decide_each, hand_off, finish_delivery,
  start_of, is_pending, is_pending_name,
}

-- The playbooks that a round dispatches, where it does not fail: its own, if the values pass.
decide-dispatched :
    (reach : Reach) (delivery : Delivery) (book : Book) (s : Progress)
    → (decide reach delivery book s).0 ≡ none
    → (decide reach delivery book s).1.dispatched
      ≡ (if reach.passes book then s.dispatched ++ book.name ∷ [] else s.dispatched)
unfolding decide
decide-dispatched reach delivery book s h = ground arith

-- The playbooks that are due and whose values pass, by name and in their order.
abbrev to_dispatch : Reach → List HandOff → Delivery → List Book → List String
to_dispatch reach hs delivery books =
    map (λ (b : Book). b.name) (select (λ b. is_due hs delivery b && reach.passes b) books)

round-dispatched :
    (reach : Reach) (delivery : Delivery) (hs : List HandOff) (book : Book) (s : Progress)
    → (decide_if_due reach delivery hs book s).0 ≡ none
    → (decide_if_due reach delivery hs book s).1.dispatched
      ≡ s.dispatched ++ to_dispatch reach hs delivery (book ∷ [])
unfolding decide_if_due select
round-dispatched reach delivery hs book s h = elim (Bool-cases (is_due hs delivery book)) [
  | inr skips ↦ rw (skips, decide_if_due) (sym (append-nil s.dispatched))
  | inl due ↦
      let here = decide-dispatched reach delivery book s (rw (due, decide_if_due) at h) in
      rw (due, decide_if_due)
        (here ∙ elim (Bool-cases (reach.passes book)) [
          | inl passes ↦ rw passes refl
          | inr fails ↦ rw fails (sym (append-nil s.dispatched))
        ])
]

to_dispatch-cons :
    (reach : Reach) (hs : List HandOff) (delivery : Delivery) (book : Book) (books : List Book)
    → to_dispatch reach hs delivery (book ∷ []) ++ to_dispatch reach hs delivery books
      ≡ to_dispatch reach hs delivery (book ∷ books)
unfolding select
to_dispatch-cons reach hs delivery book books =
    elim (Bool-cases (is_due hs delivery book && reach.passes book)) [
      | inl chosen ↦ rw chosen refl
      | inr other ↦ rw other refl
    ]

decide_each-dispatched :
    (reach : Reach) (delivery : Delivery) (hs : List HandOff) (books : List Book) (s : Progress)
    → (decide_each reach delivery hs books s).0 ≡ none
    → (decide_each reach delivery hs books s).1.dispatched
      ≡ s.dispatched ++ to_dispatch reach hs delivery books
unfolding decide_each select
decide_each-dispatched reach delivery hs [] s h = sym (append-nil s.dispatched)
decide_each-dispatched reach delivery hs (book ∷ books) s h =
    elim (Option-cases (decide_if_due reach delivery hs book s).0) [
      | inr (why, fails) ↦ absurd (ground (arith, rw (fails, decide_each) at h))
      | inl goes_on ↦
          let q : decide_each reach delivery hs (book ∷ books) s
              ≡ decide_each reach delivery hs books (decide_if_due reach delivery hs book s).1 =
            rw (goes_on, decide_each) refl in
          let rest =
            decide_each-dispatched reach delivery hs books
              (decide_if_due reach delivery hs book s).1 (rw q at h) in
          rw (q, rest, round-dispatched reach delivery hs book s goes_on)
            (append_assoc s.dispatched (to_dispatch reach hs delivery (book ∷ []))
                (to_dispatch reach hs delivery books)
              ∙ ap (λ l. s.dispatched ++ l) (to_dispatch-cons reach hs delivery book books))
    ]

finish_delivery-dispatched :
    (delivery : Delivery) (m : Option StoreError × Progress)
    → (finish_delivery delivery m).0 ≡ none
    → (m.0 ≡ none) × ((finish_delivery delivery m).1.dispatched ≡ m.1.dispatched)
unfolding finish_delivery
finish_delivery-dispatched delivery (some e, s) h = absurd (ground arith)
finish_delivery-dispatched delivery (none, s) h = (refl, ground arith)

-- A part of a list, in its order: the members of which `P` holds, each in its place.
pub data Picks {ℓ κ} {A : Type ℓ} (P : A → Type κ) : List A → List A → Type (ℓ ⊔ κ) where
  over : Picks P [] []
  keep : {a : A} {l picked : List A} → P a → Picks P l picked → Picks P (a ∷ l) (a ∷ picked)
  drop : {a : A} {l picked : List A} → ¬ P a → Picks P l picked → Picks P (a ∷ l) picked

-- A row of a table.
pub data Row {ℓ} {A : Type ℓ} (a : A) : List A → Type ℓ where
  here : {l : List A} → Row a (a ∷ l)
  there : {b : A} {l : List A} → Row a l → Row a (b ∷ l)

-- A webhook's playbook of the delivery's source, that the delivery's values pass, and that has a
-- hand-off row of the delivery which is still pending.
abbrev pub IsToDispatch : Reach → Db → Delivery → Book → Type 0
IsToDispatch reach db delivery book =
    (book.is_webhook ≡ true)
    × (book.source ≡ delivery.source)
    × (reach.passes book ≡ true)
    × ((row : HandOff) × Row row db.handoffs
        × (row.delivery_id ≡ delivery.id)
        × (row.playbook_name ≡ book.name)
        × (row.state ≡ HandOffState.pending))

select-Picks {ℓ κ} :
    {A : Type ℓ} (P : A → Type κ) (q : A → Bool) (l : List A)
    → ((a : A) → q a ≡ true → P a)
    → ((a : A) → P a → q a ≡ true)
    → Picks P l (select q l)
unfolding select
select-Picks P q [] sound complete = Picks.over
select-Picks P q (a ∷ l) sound complete = elim (Bool-cases (q a)) [
  | inl yes_it ↦ rw yes_it (Picks.keep (sound a yes_it) (select-Picks P q l sound complete))
  | inr not_it ↦
      rw not_it (
        Picks.drop (λ p. false≢true (sym not_it ∙ complete a p))
          (select-Picks P q l sound complete))
]

is_pending-eq : (state : HandOffState) → is_pending state ≡ true → state ≡ HandOffState.pending
is_pending-eq state h = ground (arith, h)

-- The rows of a delivery hold a pending one of a name just where the table holds such a row.
pending-Row :
    (id name : String) (rows : List HandOff)
    → is_pending_name (select (of_delivery id) rows) name ≡ true
    → (row : HandOff) × Row row rows
      × (row.delivery_id ≡ id)
      × (row.playbook_name ≡ name)
      × (row.state ≡ HandOffState.pending)
unfolding is_pending_name exists_row select
pending-Row id name [] h = absurd (ground (arith, h))
pending-Row id name (r ∷ rows) h =
    elim (Bool-cases (of_delivery id r && (str_eq r.playbook_name name && is_pending r.state))) [
      | inl this ↦ (
        r,
        Row.here,
        ground (arith, this, eq_iff r.delivery_id id),
        ground (arith, this, eq_iff r.playbook_name name),
        is_pending-eq r.state (ground (arith, this)),
      )
      | inr other ↦
          let (row, in_rows, a, b, c) = pending-Row id name rows (ground (arith, h, other)) in
          (row, Row.there in_rows, a, b, c)
    ]

Row-pending :
    (id name : String) (row : HandOff) (rows : List HandOff)
    → Row row rows
    → row.delivery_id ≡ id
    → row.playbook_name ≡ name
    → row.state ≡ HandOffState.pending
    → is_pending_name (select (of_delivery id) rows) name ≡ true
unfolding is_pending_name exists_row select
Row-pending id name row _ (Row.here {l}) a b c =
    ground (arith, a, b, c, eq_iff row.delivery_id id, eq_iff row.playbook_name name)
Row-pending id name row _ (Row.there {b = r} {l} later) a b c =
    ground (arith, Row-pending id name row l later a b c)

module _ (reach : Reach) (db : Db) (delivery : Delivery) where
  chosen-IsToDispatch :
      (book : Book)
      → is_due (handoffs_of db delivery.id) delivery book && reach.passes book ≡ true
      → IsToDispatch reach db delivery book
  unfolding is_due handoffs_of
  chosen-IsToDispatch book h = (
    ground (arith, h),
    ground (arith, h, eq_iff book.source delivery.source),
    ground (arith, h),
    pending-Row delivery.id book.name db.handoffs (ground (arith, h)),
  )

  IsToDispatch-chosen :
      (book : Book)
      → IsToDispatch reach db delivery book
      → is_due (handoffs_of db delivery.id) delivery book && reach.passes book ≡ true
  unfolding is_due handoffs_of
  IsToDispatch-chosen book (webhook, source, passes, found) =
      let (row, in_rows, id, name, still) = found in
      ground (
        arith,
        webhook,
        source,
        passes,
        eq_iff book.source delivery.source,
        Row-pending delivery.id book.name row db.handoffs in_rows id name still,
      )

-- A hand-off that ends without an error, whatever the dispatcher does: the playbooks that it
-- dispatched are a part of the loaded ones, in the order in which they are loaded and each in its
-- place: those, and no other, that are a webhook's, are bound to the delivery's source, have values
-- that pass, and have a hand-off row of the delivery that is pending when the hand-off begins.
pub hand_off-dispatched :
    (reach : Reach) (loaded : List Book) (delivery : Delivery) (db : Db)
    → (hand_off reach loaded delivery db).0 ≡ none
    → (picked : List Book) × Picks (IsToDispatch reach db delivery) loaded picked
      × ((hand_off reach loaded delivery db).1.dispatched ≡ map (λ (b : Book). b.name) picked)
unfolding hand_off
hand_off-dispatched reach loaded delivery db h =
    let hs = handoffs_of db delivery.id in
    let (ends, same) =
      finish_delivery-dispatched delivery (decide_each reach delivery hs loaded (start_of hs db))
        h in
    (
      select (λ b. is_due hs delivery b && reach.passes b) loaded,
      select-Picks (IsToDispatch reach db delivery) (λ b. is_due hs delivery b && reach.passes b)
          loaded (chosen-IsToDispatch reach db delivery) (IsToDispatch-chosen reach db delivery),
      same ∙ decide_each-dispatched reach delivery hs loaded (start_of hs db) ends,
    )
