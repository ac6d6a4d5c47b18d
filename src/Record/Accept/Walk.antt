-- ===== src/Record/Accept/Walk.antt =====
-- The walk of the chain that a retry supersedes ends within its fuel.
use gronin.Prelude.{
  ℕ, zero, suc, ◌<◌, ◌≡◌, refl, ◌∙◌, ◌⊎◌, true, false, List, [], ◌∷◌, ◌++◌, some, String, str_eq,
  eq_iff, ok, find, exists_row, length, arith, Bool-cases, inl, inr,
}
use gronin.Record.Types.{Delivery}
use gronin.Record.Db.{Db, is_delivery}
use gronin.Record.Accept.{chain_from, decided_in_chain, decided_names}

-- Deliveries, the newest first: each has its own identifier, and supersedes none or an older one.
abbrev pub IsChained : List Delivery → Type 0
IsChained [] = Unit
IsChained (d ∷ ds) =
    (exists_row (is_delivery d.id) ds ≡ false)
    × ((str_eq d.supersedes "" ≡ true) ⊎ (exists_row (is_delivery d.supersedes) ds ≡ true))
    × IsChained ds

find-older :
    (d : Delivery) (ds : List Delivery) (id : String)
    → exists_row (is_delivery d.id) ds ≡ false
    → exists_row (is_delivery id) ds ≡ true
    → find (is_delivery id) (d ∷ ds) ≡ find (is_delivery id) ds
unfolding find
find-older d ds id own there = elim (Bool-cases (str_eq d.id id)) [
  | inr other ↦ rw other refl
  | inl same ↦ let p = (eq_iff d.id id).0 same in absurd (ground (arith, rw p at own))
]

chain_from-root :
    (fuel : ℕ) (db : Db) (id : String)
    → 0 < fuel
    → str_eq id "" ≡ true
    → chain_from fuel db id ≡ ok []
unfolding chain_from
chain_from-root zero db id more h = absurd (omega arith)
chain_from-root (suc fuel) db id more h = rw (h, chain_from) refl

chain_from-step :
    (fuel : ℕ) (db : Db) (id : String) (d : Delivery) (names : List String)
    → str_eq id "" ≡ false
    → find (is_delivery id) db.deliveries ≡ some d
    → chain_from fuel db d.supersedes ≡ ok names
    → chain_from (suc fuel) db id ≡ ok (decided_names id db.handoffs ++ names)
unfolding chain_from
chain_from-step fuel db id d names named found rest = rw (named, found, rest, chain_from) refl

walk :
    (fuel : ℕ) (db : Db) (id : String) (older : List Delivery)
    → ((key : String)
        → exists_row (is_delivery key) older ≡ true
        → find (is_delivery key) db.deliveries ≡ find (is_delivery key) older)
    → IsChained older
    → length older < fuel
    → exists_row (is_delivery id) older ≡ true
    → (names : List String) × (chain_from fuel db id ≡ ok names)
unfolding exists_row find
walk fuel db id [] seen w short there = absurd (ground arith)
walk zero db id (d ∷ ds) seen w short there = absurd (omega arith)
walk (suc fuel) db id (d ∷ ds) seen (own, older, rest) short there =
    elim (Bool-cases (str_eq d.id id)) [
      | inr other ↦
          walk (suc fuel) db id ds
            (λ key k. seen key (ground (arith, k)) ∙ find-older d ds key own k) rest (omega arith)
            (ground (arith, other))
      | inl same ↦ elim (Bool-cases (str_eq id "")) [
        | inl root ↦ ([], chain_from-root (suc fuel) db id (omega arith) root)
        | inr named ↦
            let found : find (is_delivery id) db.deliveries ≡ some d =
              seen id (ground (arith, same)) ∙ rw same refl in
            let (names, next) : (names : List String) × (chain_from fuel db d.supersedes
                  ≡ ok names) =
              elim older [
                | inl last ↦ ([], chain_from-root fuel db d.supersedes (omega arith) last)
                | inr there' ↦
                    walk fuel db d.supersedes ds
                      (λ key k. seen key (ground (arith, k)) ∙ find-older d ds key own k) rest
                      (omega arith) there'
              ] in
            (
              decided_names id db.handoffs ++ names,
              chain_from-step fuel db id d names named found next,
            )
      ]
    ]

-- Where the deliveries are chained, the walk back from one of them ends, within the fuel that it is
-- given and without missing a row: it gives the playbooks decided in the chain.
pub decided_in_chain-total :
    (db : Db) (id : String)
    → IsChained db.deliveries
    → exists_row (is_delivery id) db.deliveries ≡ true
    → (names : List String) × (decided_in_chain db id ≡ ok names)
unfolding decided_in_chain
decided_in_chain-total db id w there =
    walk (suc (suc (length db.deliveries))) db id db.deliveries (λ key k. refl) w (omega arith)
      there
