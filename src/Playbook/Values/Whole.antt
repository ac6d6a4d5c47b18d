-- ===== src/Playbook/Values/Whole.antt =====
-- playbook/values.go: the result of `Check` as a whole.
use gronin.Prelude.{
  Bool, true, false, not, List, [], ◌∷◌, ◌++◌, map, Option, none, some, ◌≡◌, refl, sym, ap, ◌∙◌,
  arith, if◌then◌else◌, Result, ok, err, Bool-cases, inl, inr, select,
}
use gronin.Prelude.Bytes.{
  Bytes, Entries, value_of, value_of-put_value, sort, member, member-sort, same, same-eq,
}
use gronin.Playbook.Pointer.{Json}
use gronin.Playbook.Values.{
  Playbook, ValueRefusalKind, ValueRefusal, Regexps, check_one, Checked, note, check_each, names_of,
  unless_refusals, check,
}
use gronin.Playbook.Values.Accepts.{
  Accepts, check_one-Accepts, refusals_of, refusal, check_each-refusals,
}

-- A single check without a refusal.
unfoldable pub passes : Result ValueRefusalKind Bytes → Bool
passes (err kind) = false
passes (ok s) = true

no_value : {s : Bytes} → ◌≡◌ {A = Option Bytes} none (some s) → ⊥
no_value e = cc

unless_refusals-ok :
    (rs : List ValueRefusal) (checked result : Entries Bytes)
    → unless_refusals rs checked ≡ ok result
    → (rs ≡ []) × (checked ≡ result)
unfolding unless_refusals
unless_refusals-ok [] checked result e = (refl, ground arith)
unless_refusals-ok (r ∷ rs) checked result e = ground arith

unless_refusals-err :
    (rs told : List ValueRefusal) (checked : Entries Bytes)
    → unless_refusals rs checked ≡ err told
    → rs ≡ told
unfolding unless_refusals
unless_refusals-err [] told checked e = ground arith
unless_refusals-err (r ∷ rs) told checked e = ground arith

ok-inj : {s t : Bytes} → ◌≡◌ {A = Result ValueRefusalKind Bytes} (ok s) (ok t) → s ≡ t
ok-inj e = cc

some-inj : {s t : Bytes} → ◌≡◌ {A = Option Bytes} (some s) (some t) → s ≡ t
some-inj e = cc

append-nil-left : {A : Type 0} (xs ys : List A) → xs ++ ys ≡ [] → (xs ≡ []) × (ys ≡ [])
append-nil-left [] ys e = (refl, e)
append-nil-left (x ∷ xs) ys e = ground arith

own_name :
    (name : Bytes) (r : Result ValueRefusalKind Bytes) (rest : List ValueRefusal)
    → map (λ t. t.name) (refusal name r ++ rest)
      ≡ (if not (passes r) then name ∷ map (λ t. t.name) rest else map (λ t. t.name) rest)
unfolding refusal passes
own_name name (err kind) rest = refl
own_name name (ok s) rest = refl

refusal-none :
    (name : Bytes) (r : Result ValueRefusalKind Bytes)
    → refusal name r ≡ []
    → (s : Bytes) × (r ≡ ok s)
unfolding refusal
refusal-none name (err kind) e = ground arith
refusal-none name (ok s) e = (s, refl)

module _ (compile : Regexps) (book : Playbook) (values : Entries Json) where
  abbrev one : Bytes → Result ValueRefusalKind Bytes
  one = check_one compile book values

  abbrev each : List Bytes → Checked → Checked
  each = check_each compile book values

  -- What is noted of a name is its own text.
  note-checked :
      (name other s : Bytes) (c : Checked)
      → one other ≡ ok s
      → value_of other c.checked ≡ some s
      → value_of other (note name (one name) c).checked ≡ some s
  unfolding note
  note-checked name other s c e held = by (one name) refl
    where
      by :
          (r : Result ValueRefusalKind Bytes)
          → r ≡ one name
          → value_of other (note name r c).checked ≡ some s
      by (err kind) p = held
      by (ok t) p = elim (Bool-cases (same name other)) [
        | inl q ↦
            rw (value_of-put_value name other t c.checked, q)
              (ap some (ok-inj (p ∙ ap one (same-eq name other q) ∙ e)))
        | inr q ↦ rw (value_of-put_value name other t c.checked, q) held
      ]

  check_each-kept :
      (names : List Bytes) (other s : Bytes) (c : Checked)
      → one other ≡ ok s
      → value_of other c.checked ≡ some s
      → value_of other (each names c).checked ≡ some s
  unfolding check_each
  check_each-kept [] other s c e held = held
  check_each-kept (name ∷ names) other s c e held =
      check_each-kept names other s _ e (note-checked name other s c e held)

  note-own :
      (name other s : Bytes) (c : Checked)
      → same name other ≡ true
      → one name ≡ ok s
      → value_of other (note name (one name) c).checked ≡ some s
  unfolding note
  note-own name other s c here e =
      ap (λ r. value_of other (note name r c).checked) e
      ∙ rw (value_of-put_value name other s c.checked, here) refl

  check_each-checked :
      (names : List Bytes) (other s : Bytes) (c : Checked)
      → member other names ≡ true
      → one other ≡ ok s
      → value_of other (each names c).checked ≡ some s
  unfolding check_each member
  check_each-checked [] other s c there e = ground arith
  check_each-checked (name ∷ names) other s c there e = elim (Bool-cases (same name other)) [
    | inl here ↦
        check_each-kept names other s _ e
          (note-own name other s c here (ap one (same-eq name other here) ∙ e))
    | inr past ↦ check_each-checked names other s _ (rw past at there) e
  ]

  check_each_sound :
      (names : List Bytes) (other s : Bytes) (c : Checked)
      → (value_of other c.checked ≡ some s → one other ≡ ok s)
      → value_of other (each names c).checked ≡ some s
      → one other ≡ ok s
  unfolding check_each note
  check_each_sound [] other s c known e = known e
  check_each_sound (name ∷ names) other s c known e =
      check_each_sound names other s (note name (one name) c) (note-sound (one name) refl) e
    where
      note-sound :
          (r : Result ValueRefusalKind Bytes)
          → r ≡ one name
          → value_of other (note name r c).checked ≡ some s
          → one other ≡ ok s
      note-sound (err kind) p h = known h
      note-sound (ok t) p h = elim (Bool-cases (same name other)) [
        | inl q ↦
            let t_is : t ≡ s = some-inj (rw (value_of-put_value name other t c.checked, q) at h) in
            ap one (sym (same-eq name other q)) ∙ sym p ∙ ap ok t_is
        | inr q ↦ known (rw (value_of-put_value name other t c.checked, q) at h)
      ]

  refusals_of-none :
      (names : List Bytes) (name : Bytes)
      → refusals_of compile book values names ≡ []
      → member name names ≡ true
      → (s : Bytes) × (one name ≡ ok s)
  unfolding refusals_of member
  refusals_of-none [] name e there = ground arith
  refusals_of-none (other ∷ names) name e there =
      let (own, rest) =
        append-nil-left (refusal other (one other)) (refusals_of compile book values names) e in
      elim (Bool-cases (same other name)) [
        | inl here ↦
            let (s, passed) = refusal-none other (one other) own in
            (s, ap one (sym (same-eq other name here)) ∙ passed)
        | inr past ↦ refusals_of-none names name rest (rw past at there)
      ]

  start : Checked
  start = record { refusals = []; checked = [] }

  check-ok :
      (checked : Entries Bytes)
      → check compile book values ≡ ok checked
      → (refusals_of compile book values (sort (names_of book.values)) ≡ [])
        × ((each (sort (names_of book.values)) start).checked ≡ checked)
  unfolding check start
  check-ok checked e =
      let (nothing, is) =
        unless_refusals-ok (each (sort (names_of book.values)) start).refusals
          (each (sort (names_of book.values)) start).checked checked e in
      (
        sym (check_each-refusals compile book values (sort (names_of book.values)) start) ∙ nothing,
        is,
      )

  -- Where a check passes, a text that it holds under a name is acceptable.
  pub check-held :
      (checked : Entries Bytes) (name s : Bytes)
      → check compile book values ≡ ok checked
      → value_of name checked ≡ some s
      → Accepts compile book values name s
  unfolding start value_of
  check-held checked name s e held = check_one-Accepts compile book values name s (
      check_each_sound (sort (names_of book.values)) name s start (λ h. absurd (no_value h))
        (ap (value_of name) (check-ok checked e).1 ∙ held))

  -- A check that passes holds, under every declared name, a text that is acceptable for it.
  pub check-Accepts :
      (checked : Entries Bytes) (name : Bytes)
      → check compile book values ≡ ok checked
      → member name (names_of book.values) ≡ true
      → (s : Bytes) × (value_of name checked ≡ some s) × Accepts compile book values name s
  unfolding start value_of
  check-Accepts checked name e there =
      let (nothing, is) = check-ok checked e in
      let listed = member-sort name (names_of book.values) ∙ there in
      let (s, passed) = refusals_of-none (sort (names_of book.values)) name nothing listed in
      (
        s,
        ap (value_of name) (sym is)
            ∙ check_each-checked (sort (names_of book.values)) name s start listed passed,
        check_one-Accepts compile book values name s passed,
      )

  refusal_names :
      (names : List Bytes)
      → map (λ r. r.name) (refusals_of compile book values names)
        ≡ select (λ name. not (passes (one name))) names
  unfolding refusals_of select passes
  refusal_names [] = refl
  refusal_names (name ∷ names) =
      own_name name (one name) (refusals_of compile book values names)
      ∙ ap (λ rest. if not (passes (one name)) then name ∷ rest else rest) (refusal_names names)

  -- A check that refuses names every declared name whose value does not pass, each once and in
  -- order, and no other.
  check-refusals :
      (told : List ValueRefusal)
      → check compile book values ≡ err told
      → map (λ r. r.name) told
        ≡ select (λ name. not (passes (one name))) (sort (names_of book.values))
  unfolding check start
  check-refusals told e =
      ap (map (λ r. r.name)) (
        sym (unless_refusals-err _ told _ e)
        ∙ check_each-refusals compile book values (sort (names_of book.values)) start)
      ∙ refusal_names (sort (names_of book.values))
