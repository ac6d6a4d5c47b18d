-- ===== src/Config/Shell/Hidden.antt =====
-- config/shell.go: the line that `BindShell` returns, and what it refuses a line for, depend on the
-- keys that are configured and never on their values.
use gronin.Prelude.{
  Bool, true, false, List, [], ◌∷◌, ◌++◌, map, Option, none, some, ◌≡◌, refl, sym, ap, ◌∙◌, arith,
  Result, ok, err, inl, inr, Bool-cases, Option-cases,
}
use gronin.Prelude.Bytes.{Bytes, Entries, value_of, same}
use gronin.Config.Reference.{Piece, text, ref, pieces, unterminated, namespace_key, written}
use gronin.Config.Shell.Steps.{Result-cases}
use gronin.Config.Shell.{
  Refused, resolve, or_refused, variable_of, Binding, bind_as, taken_by, bound_to, refuse,
  bind_or_refuse, quoted, bind_one, bind_each, Bound, bound_from, start, bind_shell,
  config_namespace, trigger_namespace,
}

abbrev holds : Option Bytes → Bool
holds none = false
holds (some value) = true

-- Two maps hold the same keys.
abbrev pub SameKeys : Entries Bytes → Entries Bytes → Type 0
SameKeys values others = (key : Bytes) → holds (value_of key values) ≡ holds (value_of key others)

-- A result without its value.
abbrev outcome : Result Refused Bytes → Option Refused
outcome (err why) = some why
outcome (ok value) = none

abbrev variable_in : Result Refused (Bytes × Bytes) → Result Refused Bytes
variable_in (err why) = err why
variable_in (ok (variable, value)) = ok variable

unfoldable pub line_of : Result (List Refused) Bound → Result (List Refused) Bytes
line_of (err problems) = err problems
line_of (ok bound) = ok bound.line

record Alike (b c : Binding) : Type 0 where
  before : b.before ≡ c.before
  out : b.out ≡ c.out
  problems : b.problems ≡ c.problems
  names : b.names ≡ c.names

or_refused-outcome :
    (why : Refused) (a b : Option Bytes)
    → holds a ≡ holds b
    → outcome (or_refused why a) ≡ outcome (or_refused why b)
unfolding or_refused
or_refused-outcome why none none e = refl
or_refused-outcome why none (some b) e = ground arith
or_refused-outcome why (some a) none e = ground arith
or_refused-outcome why (some a) (some b) e = refl

refuse-Alike :
    (why : Refused) (name : Bytes) (b c : Binding)
    → Alike b c
    → Alike (refuse why name b) (refuse why name c)
unfolding refuse
refuse-Alike why name b c alike = record {
  before = ap (λ s. s ++ written name) alike.before;
  out = ap (λ s. s ++ written name) alike.out;
  problems = ap (λ s. s ++ why ∷ []) alike.problems;
  names = alike.names;
}

err-eq :
    {why reason : Refused} → ◌≡◌ {A = Result Refused Bytes} (err why) (err reason) → why ≡ reason
err-eq e = cc

bind_or_refuse-Alike :
    (name : Bytes) (r s : Result Refused (Bytes × Bytes)) (b c : Binding)
    → Alike b c
    → variable_in r ≡ variable_in s
    → Alike (bind_or_refuse name r b) (bind_or_refuse name s c)
unfolding bind_or_refuse refuse bind_as
bind_or_refuse-Alike name (err why) (err reason) b c alike e =
    rw (err-eq e) (refuse-Alike reason name b c alike)
bind_or_refuse-Alike name (err why) (ok (variable, value)) b c alike e = ground arith
bind_or_refuse-Alike name (ok (variable, value)) (err why) b c alike e = ground arith
bind_or_refuse-Alike name (ok (variable, value)) (ok (other, held)) b c alike e = record {
  before = ground arith;
  out = ground arith;
  problems = alike.problems;
  names = ground arith;
}

bound_from-line :
    (b c : Binding)
    → Alike b c
    → line_of (bound_from b b.problems) ≡ line_of (bound_from c c.problems)
unfolding bound_from line_of
bound_from-line b c alike = rw (← alike.problems) (each b.problems)
  where
    each : (ps : List Refused) → line_of (bound_from b ps) ≡ line_of (bound_from c ps)
    each [] = ap ok alike.out
    each (why ∷ more) = refl

module _ (values others payload body : Entries Bytes) (same_keys : SameKeys values others)
    (same_payload : SameKeys payload body) where
  resolve-outcome :
      (namespace key name : Bytes)
      → outcome (resolve values payload namespace key name)
        ≡ outcome (resolve others body namespace key name)
  unfolding resolve
  resolve-outcome namespace key name = elim (Bool-cases (same namespace config_namespace)) [
    | inl c ↦
        rw c (or_refused-outcome _ (value_of key values) (value_of key others) (same_keys key))
    | inr c ↦ elim (Bool-cases (same namespace trigger_namespace)) [
      | inl t ↦
          rw (c, t)
            (or_refused-outcome _ (value_of key payload) (value_of key body) (same_payload key))
      | inr t ↦ rw (c, t) refl
    ]
  ]

  bound_to-variable :
      (names : Entries Bytes) (name : Bytes)
      → variable_in (bound_to values payload names name)
        ≡ variable_in (bound_to others body names name)
  unfolding bound_to
  bound_to-variable names name = elim (Option-cases (namespace_key name)) [
    | inl absent ↦ rw (absent, bound_to) refl
    | inr ((namespace, key), named) ↦
        let told = resolve-outcome namespace key name in
        elim (Result-cases (resolve values payload namespace key name)) [
          | inl (why, r) ↦ elim (Result-cases (resolve others body namespace key name)) [
            | inl (reason, s) ↦ rw (named, bound_to, r, s) (ground arith)
            | inr (value, s) ↦ ground arith
          ]
          | inr (value, r) ↦ elim (Result-cases (resolve others body namespace key name)) [
            | inl (reason, s) ↦ ground arith
            | inr (held, s) ↦
                elim (Option-cases (taken_by name (value_of (variable_of namespace key) names))) [
                  | inl free ↦ rw (named, bound_to, r, s, free) refl
                  | inr (first, taken) ↦ rw (named, bound_to, r, s, taken) refl
                ]
          ]
        ]
  ]

  bind_one-Alike :
      (name : Bytes) (b c : Binding)
      → Alike b c
      → Alike (bind_one values payload name b) (bind_one others body name c)
  unfolding bind_one
  bind_one-Alike name b c alike = elim (Bool-cases (quoted b.before)) [
    | inl q ↦
        rw (q, ap quoted (sym alike.before) ∙ q)
          (refuse-Alike (Refused.in_quotes name) name b c alike)
    | inr q ↦
        rw (q, ap quoted (sym alike.before) ∙ q)
          (bind_or_refuse-Alike name _ _ b c alike (
            bound_to-variable b.names name
            ∙ ap (λ names. variable_in (bound_to others body names name)) alike.names))
  ]

  bind_each-Alike :
      (ps : List Piece) (b c : Binding)
      → Alike b c
      → Alike (bind_each values payload ps b) (bind_each others body ps c)
  unfolding bind_each
  bind_each-Alike [] b c alike = alike
  bind_each-Alike (text t ∷ ps) b c alike = bind_each-Alike ps _ _ (record {
    before = ap (λ s. s ++ t ∷ []) alike.before;
    out = ap (λ s. s ++ t ∷ []) alike.out;
    problems = alike.problems;
    names = alike.names;
  })
  bind_each-Alike (ref name ∷ ps) b c alike = bind_each-Alike ps _ _ (bind_one-Alike name b c alike)

  -- Two configurations with the same keys, and two payloads with the same keys, give the same
  -- line, or the same refusals, whatever their values are.
  pub bind_shell-line_eq :
      (line : Bytes)
      → line_of (bind_shell values payload line) ≡ line_of (bind_shell others body line)
  unfolding bind_shell
  bind_shell-line_eq line =
      let first = start (map Refused.unclosed (unterminated (pieces line))) in
      bound_from-line (bind_each values payload (pieces line) first)
        (bind_each others body (pieces line) first)
        (bind_each-Alike (pieces line) first first
          (record { before = refl; out = refl; problems = refl; names = refl }))
