-- ===== src/Config/Shell/Env.antt =====
-- config/shell.go: the environment that `BindShell` returns is what the references of the line
-- resolve to, and nothing else.
use gronin.Prelude.{
  Bool, false, ◌||◌, List, [], ◌∷◌, ◌++◌, map, Option, none, some, ◌≡◌, refl, sym, ap, ◌∙◌, arith,
  Result, ok, err, ◌⊎◌, inl, inr, Bool-cases, Option-cases,
}
use gronin.Prelude.Bytes.{
  Bytes, Entries, value_of, put_value, same, same-eq, same_iff, member, member-sort, member-append,
  value_of-put_value,
}
use gronin.Config.Reference.{Piece, text, ref, pieces, unterminated, namespace_key}
use gronin.Config.Shell.{
  Refused, resolve, variable_of, Binding, bind_as, taken_by, bind_one, bind_each, Bound, start,
  env_entry, bind_shell,
}
use gronin.Config.Shell.Steps.{Binds, bind_each-problems, bind_one-Binds, bound_from-ok}

-- variable=value of a reference, where it resolves.
unfoldable pub entry_with : Bytes → Result Refused Bytes → List Bytes
entry_with variable (err why) = []
entry_with variable (ok value) = env_entry variable value ∷ []

unfoldable pub entry_named :
    Entries Bytes → Entries Bytes → Bytes → Option (Bytes × Bytes) → List Bytes
entry_named values payload name none = []
entry_named values payload name (some (namespace, key)) =
    entry_with (variable_of namespace key) (resolve values payload namespace key name)

unfoldable pub entries_of : Entries Bytes → Entries Bytes → List Piece → List Bytes
entries_of values payload [] = []
entries_of values payload (text c ∷ ps) = entries_of values payload ps
entries_of values payload (ref name ∷ ps) =
    entry_named values payload name (namespace_key name) ++ entries_of values payload ps

abbrev lines : Entries Bytes → List Bytes
lines = map (λ e. env_entry e.0 e.1)

or_again : (a b : Bool) → (a || b) ≡ (a || (a || b))
or_again a b = ground arith

or_swap : (a b c : Bool) → (a || (b || c)) ≡ (b || (a || c))
or_swap a b c = ground arith

or_regroup : (a b c : Bool) → (a || (b || c)) ≡ ((b || a) || c)
or_regroup a b c = ground arith

or_nil : (a : Bool) → (a || false) ≡ a
or_nil a = ground arith

or_false : (a b : Bool) → (a || b) ≡ ((a || false) || b)
or_false a b = ground arith

held-eq :
    (old value : Bytes)
    → (◌≡◌ {A = Option Bytes} (some old) none) ⊎ (◌≡◌ {A = Option Bytes} (some old) (some value))
    → old ≡ value
held-eq old value (inl h) = ground arith
held-eq old value (inr h) = ground arith

-- A write of a new variable, or of what a variable already holds.
member-put_value :
    (e variable value : Bytes) (values : Entries Bytes)
    → (value_of variable values ≡ none) ⊎ (value_of variable values ≡ some value)
    → member e (lines (put_value variable value values))
      ≡ (same (env_entry variable value) e || member e (lines values))
unfolding member put_value value_of
member-put_value e variable value [] h = refl
member-put_value e variable value ((name, old) ∷ values) h =
    elim (Bool-cases (same name variable)) [
      | inl s ↦
          rw (s, held-eq old value (rw s at h), same-eq name variable s)
            (or_again (same (env_entry variable value) e) (member e (lines values)))
      | inr s ↦ rw s (
          rw (member-put_value e variable value values (rw s at h)) (
            or_swap (same (env_entry name old) e) (same (env_entry variable value) e)
              (member e (lines values))))
    ]

module _ (values payload : Entries Bytes) where
  -- What the loop has bound is what the names it keeps resolve to.
  abbrev Settled : Binding → Bytes → Option Bytes → Type 0
  Settled b variable none = value_of variable b.values ≡ none
  Settled b variable (some name) =
      (namespace : Bytes) × (key : Bytes) × (value : Bytes) × (namespace_key name
        ≡ some (namespace, key))
      × (resolve values payload namespace key name ≡ ok value)
      × (value_of variable b.values ≡ some value)

  abbrev IsSettled : Binding → Type 0
  IsSettled b = (variable : Bytes) → Settled b variable (value_of variable b.names)

  Settled-keep :
      (b c : Binding) (variable : Bytes) (o : Option Bytes)
      → value_of variable c.values ≡ value_of variable b.values
      → Settled b variable o
      → Settled c variable o
  Settled-keep b c variable none e h = e ∙ h
  Settled-keep b c variable (some name) e (namespace, key, value, named, resolved, held) =
      (namespace, key, value, named, resolved, e ∙ held)

  module _ (name : Bytes) (b : Binding) (settled : IsSettled b)
      (binds : Binds values payload name b) where
    abbrev variable : Bytes
    variable = variable_of binds.namespace binds.key

    resolved-eq :
        (first namespace key value : Bytes)
        → first ≡ name
        → namespace_key first ≡ some (namespace, key)
        → resolve values payload namespace key first ≡ ok value
        → value ≡ binds.value
    resolved-eq first namespace key value e named resolved =
        ground (arith, binds.named, binds.resolved)

    free-eq : (first : Bytes) → taken_by name (some first) ≡ none → first ≡ name
    unfolding taken_by
    free-eq first e = ground (arith, same_iff first name)

    kept : (value_of variable b.values ≡ none) ⊎ (value_of variable b.values ≡ some binds.value)
    kept = elim (Option-cases (value_of variable b.names)) [
      | inl absent ↦ inl (rw absent at (settled variable))
      | inr (first, found) ↦
          let (namespace, key, value, named, resolved, held) : Settled b variable (some first) =
            rw found at (settled variable) in
          let same_name = free-eq first (ap (taken_by name) (sym found) ∙ binds.free) in
          inr (held ∙ ap some (resolved-eq first namespace key value same_name named resolved))
    ]

    bind_as-IsSettled : IsSettled (bind_one values payload name b)
    unfolding bind_as
    bind_as-IsSettled other = rw binds.bound (elim (Bool-cases (same variable other)) [
      | inl s ↦
          rw (value_of-put_value variable other name b.names, s)
            (
              binds.namespace,
              binds.key,
              binds.value,
              binds.named,
              binds.resolved,
              rw (value_of-put_value variable other binds.value b.values, s) refl,
            )
      | inr s ↦
          rw (value_of-put_value variable other name b.names, s)
            (Settled-keep b (bind_as name variable binds.value b) other (value_of other b.names)
              (rw (value_of-put_value variable other binds.value b.values, s) refl) (settled other))
    ])

    member-bind_one :
        (e : Bytes)
        → member e (lines (bind_one values payload name b).values) ≡ (
            member e (entry_named values payload name (namespace_key name))
            || member e (lines b.values))
    unfolding bind_as entry_named entry_with member
    member-bind_one e =
        rw (binds.bound, binds.named)
          (rw binds.resolved (
            member-put_value e variable binds.value b.values kept
            ∙ or_false (same (env_entry variable binds.value) e) (member e (lines b.values))))

  bind_each-env :
      (ps : List Piece) (b : Binding) (e : Bytes)
      → IsSettled b
      → (bind_each values payload ps b).problems ≡ []
      → member e (lines (bind_each values payload ps b).values)
        ≡ (member e (entries_of values payload ps) || member e (lines b.values))
  unfolding bind_each entries_of member
  bind_each-env [] b e settled h = refl
  bind_each-env (text c ∷ ps) b e settled h = bind_each-env ps _ e settled h
  bind_each-env (ref name ∷ ps) b e settled h =
      let binds =
        bind_one-Binds values payload name b
          (bind_each-problems values payload ps (bind_one values payload name b) h) in
      bind_each-env ps (bind_one values payload name b) e (bind_as-IsSettled name b settled binds) h
      ∙ rw
          (
            member-bind_one name b settled binds e,
            member-append e (entry_named values payload name (namespace_key name))
                (entries_of values payload ps),
          )
          (or_regroup (member e (entries_of values payload ps))
            (member e (entry_named values payload name (namespace_key name)))
            (member e (lines b.values)))

  -- A line that is bound comes with an environment of exactly the entries `variable=value` of
  -- its references, each with what the configuration or the payload holds for it.
  pub bind_shell-env :
      (line : Bytes) (bound : Bound) (e : Bytes)
      → bind_shell values payload line ≡ ok bound
      → member e bound.env ≡ member e (entries_of values payload (pieces line))
  unfolding bind_shell value_of member
  bind_shell-env line bound e h =
      let first = start (map Refused.unclosed (unterminated (pieces line))) in
      let last = bind_each values payload (pieces line) first in
      let (none_left, is) = bound_from-ok last bound h in
      ap (λ r. member e r.env) is
      ∙ member-sort e (lines last.values)
      ∙ bind_each-env (pieces line) first e (λ variable. refl) none_left
      ∙ or_nil (member e (entries_of values payload (pieces line)))
