-- ===== src/Playbook/Values/Accepts.antt =====
-- playbook/values.go: what `Check` accepts and what it refuses.
use gronin.Prelude.{
  ◌≤◌, Bool, true, false, List, [], ◌∷◌, ◌++◌, Option, none, some, ◌≡◌, refl, sym, ap, ◌∙◌, arith,
  Result, ok, err, Bool-cases, Option-cases, inl, inr, append_assoc, append-nil,
}
use gronin.Prelude.Bytes.{Bytes, Entries, codes, has_prefix, value_of, member}
use gronin.Playbook.Pointer.{Json, null, text, number, boolean, array, object, single_value}
use gronin.Playbook.Values.{
  Declared, Playbook, ValueRefusalKind, ValueRefusal, Regexps, anchored_match, rune_count,
  referenced, check_text, check_single, is_null, check_raw, declared_at, check_one, Checked, note,
  check_each,
}

-- What a value of a delivery has to be: a single value, short enough, of the declared pattern, and
-- without a leading dash where a gather step references it.
pub record Accepts (compile : Regexps) (book : Playbook) (values : Entries Json) (name s : Bytes)
    : Type 0 where
  pub raw : Json
  pub given : value_of name values ≡ some raw
  pub is_single : single_value raw ≡ some s
  pub short : rune_count s ≤ (declared_at (value_of name book.values)).max_length
  pub matches : anchored_match compile (declared_at (value_of name book.values)).pattern s ≡ true
  pub no_dash : member name (referenced book.runs) ≡ true → has_prefix (codes "-") s ≡ false

pub refused :
    {kind : ValueRefusalKind} {s : Bytes}
    → ◌≡◌ {A = Result ValueRefusalKind Bytes} (err kind) (ok s)
    → ⊥
refused e = cc

single_not_null : (raw : Json) (s : Bytes) → single_value raw ≡ some s → is_null raw ≡ false
unfolding single_value is_null
single_not_null null s e = cc
single_not_null (text t) s e = refl
single_not_null (number t) s e = refl
single_not_null (boolean b) s e = refl
single_not_null (array items) s e = refl
single_not_null (object fields) s e = refl

unfoldable pub refusal : Bytes → Result ValueRefusalKind Bytes → List ValueRefusal
refusal name (err kind) = (record { name = name; kind = kind }) ∷ []
refusal name (ok s) = []

note-refusals :
    (name : Bytes) (r : Result ValueRefusalKind Bytes) (c : Checked)
    → (note name r c).refusals ≡ c.refusals ++ refusal name r
unfolding note refusal
note-refusals name (err kind) c = refl
note-refusals name (ok s) c = sym (append-nil c.refusals)

module _ (compile : Regexps) where
  check_text-ok :
      (in_gather : Bool) (declared : Declared) (s t : Bytes)
      → check_text compile in_gather declared s ≡ ok t
      → (s ≡ t)
        × (rune_count s ≤ declared.max_length)
        × (anchored_match compile declared.pattern s ≡ true)
        × (in_gather ≡ true → has_prefix (codes "-") s ≡ false)
  unfolding check_text
  check_text-ok in_gather declared s t e =
      (ground arith, ground arith, ground arith, λ (g : in_gather ≡ true). ground arith)

  check_raw-ok :
      (in_gather : Bool) (declared : Declared) (o : Option Json) (s : Bytes)
      → check_raw compile in_gather declared o ≡ ok s
      → (raw : Json) × (o ≡ some raw)
        × (single_value raw ≡ some s)
        × (check_text compile in_gather declared s ≡ ok s)
  unfolding check_raw check_single
  check_raw-ok in_gather declared none s e = ground arith
  check_raw-ok in_gather declared (some raw) s e = elim (Bool-cases (is_null raw)) [
    | inl nothing ↦ absurd (refused (rw nothing at e))
    | inr given ↦ elim (Option-cases (single_value raw)) [
      | inl no_single ↦ absurd (refused (rw (given, no_single, check_single) at e))
      | inr (t, single) ↦
          let q : check_text compile in_gather declared t ≡ ok s =
            rw (given, single, check_single) at e in
          let t_is = (check_text-ok in_gather declared t s q).0 in
          (
            raw,
            refl,
            single ∙ ap some t_is,
            ap (check_text compile in_gather declared) (sym t_is) ∙ q,
          )
    ]
  ]

  check_text-passes :
      (in_gather : Bool) (declared : Declared) (s : Bytes)
      → rune_count s ≤ declared.max_length
      → anchored_match compile declared.pattern s ≡ true
      → (in_gather ≡ true → has_prefix (codes "-") s ≡ false)
      → check_text compile in_gather declared s ≡ ok s
  unfolding check_text
  check_text-passes true declared s short matches no_dash = ground (arith, no_dash refl)
  check_text-passes false declared s short matches no_dash = ground arith

  module _ (book : Playbook) (values : Entries Json) where
    -- A single check passes exactly what is acceptable.
    pub check_one-Accepts :
        (name s : Bytes)
        → check_one compile book values name ≡ ok s
        → Accepts compile book values name s
    unfolding check_one
    check_one-Accepts name s e =
        let in_gather = member name (referenced book.runs) in
        let declared = declared_at (value_of name book.values) in
        let (raw, given, single, passed) =
          check_raw-ok in_gather declared (value_of name values) s e in
        let (_, short, matches, no_dash) = check_text-ok in_gather declared s s passed in
        record {
          raw = raw;
          given = given;
          is_single = single;
          short = short;
          matches = matches;
          no_dash = no_dash;
        }

    pub Accepts-check_one :
        (name s : Bytes)
        → Accepts compile book values name s
        → check_one compile book values name ≡ ok s
    unfolding check_one check_raw check_single
    Accepts-check_one name s a =
        rw (a.given, single_not_null a.raw s a.is_single, a.is_single)
          (check_text-passes _ _ s a.short a.matches a.no_dash)

    -- The refusals of the names that do not pass, in the order of the names.
    unfoldable pub refusals_of : List Bytes → List ValueRefusal
    refusals_of [] = []
    refusals_of (name ∷ names) =
        refusal name (check_one compile book values name) ++ refusals_of names

    pub check_each-refusals :
        (names : List Bytes) (c : Checked)
        → (check_each compile book values names c).refusals ≡ c.refusals ++ refusals_of names
    unfolding check_each refusals_of
    check_each-refusals [] c = sym (append-nil c.refusals)
    check_each-refusals (name ∷ names) c =
        check_each-refusals names _
        ∙ rw (note-refusals name (check_one compile book values name) c) (
            append_assoc c.refusals (refusal name (check_one compile book values name))
              (refusals_of names))
