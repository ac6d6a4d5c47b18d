-- ===== src/Record/Refusals.antt =====
-- record/refusals.go: `insertRefusal`, and what a refusal takes from outside the database.
use gronin.Prelude.{String, str_eq, if◌then◌else◌, Result, ok, err, exists_row, ◌∷◌}
use gronin.Record.Types.{Refusal, is_zero}
use gronin.Record.Db.{Db, StoreError, no_time, duplicate_key}

-- The redactor, and the identifiers drawn at random: by what the refusal is about.
pub record Filing : Type 0 where
  pub redact : String → String
  pub refusal_id : String → String

-- INSERT INTO refusals, whose `id` is the primary key.
unfoldable pub add_refusal : Refusal → Db → Result StoreError Db
add_refusal refusal db =
    if exists_row (λ r. str_eq r.id refusal.id) db.refusals
    then err duplicate_key
    else ok (record db { refusals = refusal ∷ db.refusals })

-- `insertRefusal`, of a refusal that has its identifier.
unfoldable pub insert_refusal : Filing → Refusal → Db → Result StoreError Db
unfolding add_refusal
insert_refusal filing refusal db =
    if is_zero refusal.refused_at
    then err no_time
    else add_refusal
        (record refusal {
          playbook_name = filing.redact refusal.playbook_name;
          detail = filing.redact refusal.detail;
        })
        db
