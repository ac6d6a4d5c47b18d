-- ===== src/Record/Accept/New.antt =====
-- What the part of `Accept` that records a new delivery leaves behind.
use gronin.Prelude.{
  ◌≡◌, refl, Bool, true, false, ◌&&◌, List, some, String, str_eq, eq_refl, ok, >>=-eq-ok, find,
  exists_row, find-update_const, arith, Bool-cases, inl, inr,
}
use gronin.Record.Types.{Delivery, IdentityRow, HandOff}
use gronin.Record.Db.{Db, is_delivery}
use gronin.Record.Accept.{
  AcceptParams, Outside, to_hand, repoint, insert_handoffs, record_new, recorded,
}

-- WHERE source = ? AND identity = ?
abbrev pub is_identity : String → String → IdentityRow → Bool
is_identity source identity r = str_eq r.source source && str_eq r.identity identity

is_identity_self : (row : IdentityRow) → is_identity row.source row.identity row ≡ true
is_identity_self row = rw (eq_refl row.source, eq_refl row.identity) refl

pub find-repoint :
    (row : IdentityRow) (rows : List IdentityRow)
    → find (is_identity row.source row.identity) (repoint row rows) ≡ some row
unfolding repoint
find-repoint row rows = elim (Bool-cases (exists_row (is_identity row.source row.identity) rows)) [
  | inl known ↦ rw known (
      find-update_const (is_identity row.source row.identity) row rows (is_identity_self row) known)
  | inr new ↦ rw new (unfold find in rw (is_identity_self row) refl)
]

-- What a successful recording wrote, and that the identifier was new.
pub record_new-inv :
    (o : Outside) (p : AcceptParams) (delivery d : Delivery) (b : Bool) (db db' : Db)
    → record_new o p delivery db ≡ ok (d, b, db')
    → (names : List String) × (hs : List HandOff) × (to_hand db delivery.supersedes p.playbooks
        ≡ ok names)
      × (insert_handoffs o.redact delivery.id names db.handoffs ≡ ok hs)
      × (exists_row (is_delivery delivery.id) db.deliveries ≡ false)
      × (d ≡ delivery)
      × (b ≡ true)
      × (db' ≡ recorded delivery hs db)
unfolding record_new
record_new-inv o p delivery d b db db' e =
    let (names, handed, e') = >>=-eq-ok (to_hand db delivery.supersedes p.playbooks) _ e in
    elim (Bool-cases (exists_row (is_delivery delivery.id) db.deliveries)) [
      | inl known ↦ absurd (ground (arith, known))
      | inr new ↦
          let (hs, inserted, e'') =
            >>=-eq-ok (insert_handoffs o.redact delivery.id names db.handoffs) _ (rw new at e') in
          (names, hs, handed, inserted, new, ground arith, ground arith, ground arith)
    ]
