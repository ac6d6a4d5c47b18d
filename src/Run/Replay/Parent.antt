-- ===== src/Run/Replay/Parent.antt =====
-- run/replay.go: what a replay and a resume need of the run that they derive from.
use gronin.Prelude.{String, Result, ok, err, >>=-eq-ok, ◌≡◌, sym, arith}
use gronin.Prelude.Bytes.{Bytes, same-eq}
use gronin.Run.Past.{ParentRun, Past}
use gronin.Run.Replay.{
  Restorable, not_replayable, not_resumable, or_wrapped, required, compared, same_as_recorded,
  restorable, resumable,
}

or_wrapped-ok {ℓ} :
    {A : Type ℓ} (kind : String) (answer : Result String A) (a : A)
    → or_wrapped kind answer ≡ ok a
    → answer ≡ ok a
unfolding or_wrapped
or_wrapped-ok kind (err why) a e = ground arith
or_wrapped-ok kind (ok b) a e = e

required-eq : (why ref r : String) → required why ref ≡ ok r → r ≡ ref
unfolding required
required-eq why ref r e = ground arith

module _ {W : Type 0} where
  -- The parent's record holds the playbook as it is now, up to blanks around it.
  abbrev pub Unchanged : Past W → ParentRun → W → Type 0
  Unchanged past parent w =
      (recorded : Bytes) × (now : Bytes) × (past.get_blob parent.resolved_playbook_ref w
        ≡ ok recorded)
      × (past.marshal ≡ ok now)
      × (past.trim_space recorded ≡ past.trim_space now)

  -- The parent is recorded, with the playbook unchanged and a blob that is needed.
  abbrev pub HasParent : Past W → (ParentRun → String) → W → Type 0
  HasParent past ref w =
      (parent : ParentRun) × (past.get_run w ≡ ok parent)
      × Unchanged past parent w
      × ((needed : Bytes) × (past.get_blob (ref parent) w ≡ ok needed))

  module _ (past : Past W) where
    compared-same :
        (parent : ParentRun) (recorded now book : Bytes)
        → compared past parent recorded now ≡ ok book
        → past.trim_space recorded ≡ past.trim_space now
    unfolding compared
    compared-same parent recorded now book e =
        ground (arith, same-eq (past.trim_space recorded) (past.trim_space now))

    -- A reference that is required and read.
    read_ref :
        (kind why ref r : String) (w : W) (content : Bytes)
        → required why ref ≡ ok r
        → or_wrapped kind (past.get_blob r w) ≡ ok content
        → past.get_blob ref w ≡ ok content
    read_ref kind why ref r w content e b =
        or_wrapped-ok kind _ content (rw (sym (required-eq why ref r e)) b)

    same_as_recorded-Unchanged :
        (parent : ParentRun) (w : W) (book : Bytes)
        → same_as_recorded past parent w ≡ ok book
        → Unchanged past parent w
    unfolding same_as_recorded
    same_as_recorded-Unchanged parent w book e =
        let (ref, r, e) = >>=-eq-ok (required _ parent.resolved_playbook_ref) _ e in
        let (recorded, b, e) = >>=-eq-ok (or_wrapped not_replayable (past.get_blob ref w)) _ e in
        let (now, m, e) = >>=-eq-ok past.marshal _ e in
        (
          recorded,
          now,
          read_ref not_replayable _ _ ref w recorded r b,
          m,
          compared-same parent recorded now book e,
        )

    pub restorable-HasParent :
        (w : W) (r : Restorable)
        → restorable past w ≡ ok r
        → HasParent past (λ parent. parent.prompt_ref) w
    unfolding restorable
    restorable-HasParent w r e =
        let (parent, g, e) = >>=-eq-ok (past.get_run w) _ e in
        let (inputs, i, e) = >>=-eq-ok (past.gathered_inputs w) _ e in
        let (retrievals, t, e) = >>=-eq-ok (past.retrievals w) _ e in
        let (ref, q, e) = >>=-eq-ok (required _ parent.prompt_ref) _ e in
        let (book, s, e) = >>=-eq-ok (same_as_recorded past parent w) _ e in
        let (prompt, b, e) = >>=-eq-ok (or_wrapped not_replayable (past.get_blob ref w)) _ e in
        (
          parent,
          g,
          same_as_recorded-Unchanged parent w book s,
          (prompt, read_ref not_replayable _ _ ref w prompt q b),
        )

    pub resumable-HasParent :
        (w : W) (report : Bytes)
        → resumable past w ≡ ok report
        → HasParent past (λ parent. parent.report_ref) w
    unfolding resumable
    resumable-HasParent w report e =
        let (parent, g, e) = >>=-eq-ok (past.get_run w) _ e in
        let (ref, q, e) = >>=-eq-ok (required _ parent.report_ref) _ e in
        let (found, b, e) = >>=-eq-ok (or_wrapped not_resumable (past.get_blob ref w)) _ e in
        let (book, s, e) = >>=-eq-ok (same_as_recorded past parent w) _ e in
        (
          parent,
          g,
          same_as_recorded-Unchanged parent w book s,
          (found, read_ref not_resumable _ _ ref w found q b),
        )
