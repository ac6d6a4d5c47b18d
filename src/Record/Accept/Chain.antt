-- ===== src/Record/Accept/Chain.antt =====
-- The playbooks that a chain of deliveries decided, and the rows written for the others.
use gronin.Prelude.{
  ℕ, zero, suc, ◌≡◌, refl, sym, ◌∙◌, Bool, true, false, not, ◌&&◌, List, [], ◌∷◌, ◌++◌, String,
  str_eq, eq_refl, eq_iff, ok, >>=-eq-ok, find, select, exists_row, exists-map, exists-select,
  exists-append, exists-none, exists_mono, arith, Bool-cases, Option-cases, inl, inr, length,
}
use gronin.Record.Types.{HandOff}
use gronin.Record.Db.{Db, is_delivery, is_handoff, of_delivery, is_decided}
use gronin.Record.Reconcile.Decided.{is_decided_of}
use gronin.Record.Accept.{
  to_hand, insert_handoffs, chain_from, decided_in_chain, decided_names, is_in,
}

-- A playbook decided for a delivery is decided in each chain that starts there.
decided-chain_from :
    (fuel : ℕ) (db : Db) (id playbook : String) (names : List String)
    → str_eq id "" ≡ false
    → exists_row (is_decided_of id playbook) db.handoffs ≡ true
    → chain_from fuel db id ≡ ok names
    → is_in names playbook ≡ true
unfolding chain_from decided_names
decided-chain_from zero db id playbook names ne h e = ground arith
decided-chain_from (suc fuel) db id playbook names ne h e =
    let e' = rw (ne, chain_from) at e in
    elim (Option-cases (find (is_delivery id) db.deliveries)) [
      | inl gone ↦ absurd (ground (arith, rw gone at e'))
      | inr (d, there) ↦
          let (older, chain, e'') =
            >>=-eq-ok (chain_from fuel db d.supersedes) _ (rw there at e') in
          let p : decided_names id db.handoffs ++ older ≡ names = ground arith in
          let mine : is_in (decided_names id db.handoffs) playbook ≡ true =
            rw
              (
                exists-map (λ n. str_eq n playbook) (λ (y : HandOff). y.playbook_name)
                    (select (λ y. of_delivery id y && is_decided y.state) db.handoffs),
                exists-select (λ (y : HandOff). str_eq y.playbook_name playbook)
                    (λ y. of_delivery id y && is_decided y.state) db.handoffs,
              )
              (exists_mono _ _ (λ y k. ground arith) db.handoffs h) in
          rw
            (
              sym p,
              exists-append (λ n. str_eq n playbook) (decided_names id db.handoffs) older,
              mine,
            )
            refl
    ]

-- Without the playbooks that the chain decides, no name to hand over is one of them.
to_hand-excludes :
    (db : Db) (id playbook : String) (playbooks names : List String)
    → str_eq id "" ≡ false
    → exists_row (is_decided_of id playbook) db.handoffs ≡ true
    → to_hand db id playbooks ≡ ok names
    → is_in names playbook ≡ false
unfolding to_hand decided_in_chain
to_hand-excludes db id playbook playbooks names ne h e =
    let (decided, chain, e') = >>=-eq-ok (decided_in_chain db id) _ (rw ne at e) in
    let known : is_in decided playbook ≡ true =
      decided-chain_from (suc (suc (length db.deliveries))) db id playbook decided ne h chain in
    let p : select (λ name. not (is_in decided name)) playbooks ≡ names = ground arith in
    rw (sym p, exists-select (λ n. str_eq n playbook) (λ name. not (is_in decided name)) playbooks)
      (exists-none _ (λ n. ground (arith, eq_iff n playbook, known)) playbooks)

-- Only the names to hand over get a row, under the delivery that they are inserted for.
pub insert_handoffs_other :
    (redact : String → String) (delivery playbook : String) (names : List String)
    (hs hs' : List HandOff)
    → insert_handoffs redact delivery names hs ≡ ok hs'
    → exists_row (λ n. str_eq (redact n) playbook) names ≡ false
    → exists_row (is_handoff delivery playbook) hs' ≡ exists_row (is_handoff delivery playbook) hs
unfolding insert_handoffs exists_row
insert_handoffs_other redact delivery playbook [] hs hs' e h = ground arith
insert_handoffs_other redact delivery playbook (name ∷ names) hs hs' e h =
    elim (Bool-cases (exists_row (is_handoff delivery (redact name)) hs)) [
      | inl known ↦ absurd (ground (arith, known))
      | inr new ↦
          insert_handoffs_other redact delivery playbook names _ hs' (rw new at e) (ground arith)
          ∙ ground arith
    ]

exists-among :
    (q r : String → Bool) (names : List String)
    → ((n : String) → is_in names n ≡ true → q n ≡ r n)
    → exists_row q names ≡ exists_row r names
unfolding exists_row
exists-among q r [] same = refl
exists-among q r (name ∷ names) same =
    rw
      (
        same name (rw (eq_refl name) refl),
        exists-among q r names (λ n k. same n (ground (arith, k))),
      )
      refl

-- The names to hand over of a retry are among those declared.
pub to_hand-redacted :
    (redact : String → String) (db : Db) (id playbook : String) (playbooks names : List String)
    → str_eq id "" ≡ false
    → exists_row (is_decided_of id playbook) db.handoffs ≡ true
    → to_hand db id playbooks ≡ ok names
    → ((n : String) → is_in playbooks n ≡ true → redact n ≡ n)
    → exists_row (λ n. str_eq (redact n) playbook) names ≡ false
unfolding to_hand
to_hand-redacted redact db id playbook playbooks names ne h e raw =
    let (decided, chain, e') = >>=-eq-ok (decided_in_chain db id) _ (rw ne at e) in
    let p : select (λ name. not (is_in decided name)) playbooks ≡ names = ground arith in
    let none_left = to_hand-excludes db id playbook playbooks names ne h e in
    let chosen =
      exists-select (λ n. str_eq n playbook) (λ name. not (is_in decided name)) playbooks in
    rw
      (
        sym p,
        exists-select (λ n. str_eq (redact n) playbook) (λ name. not (is_in decided name))
            playbooks,
        exists-among (λ n. not (is_in decided n) && str_eq (redact n) playbook)
            (λ n. not (is_in decided n) && str_eq n playbook) playbooks (λ n k. rw (raw n k) refl),
      )
      (sym chosen ∙ rw p none_left)
