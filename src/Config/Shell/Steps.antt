-- ===== src/Config/Shell/Steps.antt =====
-- config/shell.go: what a round of `BindShell` did, where no reference of the line was refused.
use gronin.Prelude.{
  true, false, List, [], ◌∷◌, ◌++◌, map, none, some, ◌≡◌, refl, sym, ap, ◌∙◌, arith, Result, ok,
  err, All, ◌⊎◌, Option-cases, inl, inr, Bool-cases,
}
use gronin.Prelude.Bytes.{Bytes, Entries, value_of, sort}
use gronin.Config.Reference.{Piece, text, ref, namespace_key, valid_key}
use gronin.Config.Shell.{
  Refused, resolve, variable_of, Binding, taken_by, bound_to, refuse, bind_as, bind_or_refuse,
  bind_one, bind_each, Bound, bound_from, env_entry, quoted,
}

-- The keys of a map can all be written in a reference.
abbrev pub KeysAreValid : Entries Bytes → Type 0
KeysAreValid values = All (λ e. valid_key e.0 ≡ true) values

-- How a reference was bound.
pub record Binds (values payload : Entries Bytes) (name : Bytes) (b : Binding) : Type 0 where
  pub namespace : Bytes
  pub key : Bytes
  pub value : Bytes
  pub named : namespace_key name ≡ some (namespace, key)
  pub resolved : resolve values payload namespace key name ≡ ok value
  pub free : taken_by name (value_of (variable_of namespace key) b.names) ≡ none
  pub bare : quoted b.before ≡ false
  pub bound : bind_one values payload name b ≡ bind_as name (variable_of namespace key) value b

append-ne-nil : {A : Type 0} (xs : List A) (x : A) → (xs ++ x ∷ []) ≡ [] → ⊥
append-ne-nil [] x e = ground arith
append-ne-nil (y ∷ ys) x e = ground arith

pub Result-cases :
    (r : Result Refused Bytes)
    → ((why : Refused) × (r ≡ err why)) ⊎ ((value : Bytes) × (r ≡ ok value))
Result-cases (err why) = inl (why, refl)
Result-cases (ok value) = inr (value, refl)

err-ne-ok : {A : Type 0} {why : Refused} {a : A} → ◌≡◌ {A = Result Refused A} (err why) (ok a) → ⊥
err-ne-ok e = cc

ok-inj : {A : Type 0} {a b : A} → ◌≡◌ {A = Result Refused A} (ok a) (ok b) → a ≡ b
ok-inj e = cc

bind_or_refuse-problems :
    (name : Bytes) (r : Result Refused (Bytes × Bytes)) (b : Binding)
    → (bind_or_refuse name r b).problems ≡ []
    → (b.problems ≡ []) × (to : Bytes × Bytes) × (r ≡ ok to)
unfolding bind_or_refuse refuse bind_as
bind_or_refuse-problems name (err why) b e = absurd (append-ne-nil b.problems why e)
bind_or_refuse-problems name (ok (variable, value)) b e = (e, (variable, value), refl)

ok-path : {a b : Bound} → ◌≡◌ {A = Result (List Refused) Bound} (ok a) (ok b) → b ≡ a
ok-path e = cc

err-path : {w : List Refused} {b : Bound} → ◌≡◌ {A = Result (List Refused) Bound} (err w) (ok b) → ⊥
err-path e = cc

pub bound_from-ok :
    (b : Binding) (bound : Bound)
    → bound_from b b.problems ≡ ok bound
    → (b.problems ≡ [])
      × (bound ≡ record { line = b.out; env = sort (map (λ e. env_entry e.0 e.1) b.values) })
unfolding bound_from
bound_from-ok b bound e = cases b.problems refl e
  where
    cases :
        (ps : List Refused)
        → ps ≡ b.problems
        → bound_from b ps ≡ ok bound
        → (b.problems ≡ [])
          × (bound ≡ record { line = b.out; env = sort (map (λ e. env_entry e.0 e.1) b.values) })
    cases [] p h = (sym p, ok-path h)
    cases (why ∷ more) p h = absurd (err-path h)

module _ (values payload : Entries Bytes) where
  bind_one-problems :
      (name : Bytes) (b : Binding)
      → (bind_one values payload name b).problems ≡ []
      → (b.problems ≡ [])
        × (quoted b.before ≡ false)
        × (to : Bytes × Bytes) × (bound_to values payload b.names name ≡ ok to)
  unfolding bind_one refuse
  bind_one-problems name b e = elim (Bool-cases (quoted b.before)) [
    | inl q ↦ absurd (append-ne-nil b.problems (Refused.in_quotes name) (rw q at e))
    | inr q ↦
        let (nothing, to, r) =
          bind_or_refuse-problems name (bound_to values payload b.names name) b (rw q at e) in
        (nothing, q, to, r)
  ]

  -- A problem stays to the end.
  pub bind_each-problems :
      (ps : List Piece) (b : Binding)
      → (bind_each values payload ps b).problems ≡ []
      → b.problems ≡ []
  unfolding bind_each
  bind_each-problems [] b e = e
  bind_each-problems (text c ∷ ps) b e = bind_each-problems ps _ e
  bind_each-problems (ref name ∷ ps) b e =
      (bind_one-problems name b (bind_each-problems ps (bind_one values payload name b) e)).0

  Named : Entries Bytes → Bytes → Bytes × Bytes → Type 0
  Named names name to =
      (namespace : Bytes) × (key : Bytes) × (namespace_key name ≡ some (namespace, key))
      × (resolve values payload namespace key name ≡ ok to.1)
      × (taken_by name (value_of (variable_of namespace key) names) ≡ none)
      × (to.0 ≡ variable_of namespace key)

  bound_to-Named :
      (names : Entries Bytes) (name : Bytes) (to : Bytes × Bytes)
      → bound_to values payload names name ≡ ok to
      → Named names name to
  unfolding bound_to Named
  bound_to-Named names name to e = elim (Option-cases (namespace_key name)) [
    | inl absent ↦ absurd (err-ne-ok (rw (absent, bound_to) at e))
    | inr ((namespace, key), named) ↦
        elim (Result-cases (resolve values payload namespace key name)) [
          | inl (why, r) ↦ absurd (err-ne-ok (rw (named, bound_to, r) at e))
          | inr (value, r) ↦
              elim (Option-cases (taken_by name (value_of (variable_of namespace key) names))) [
                | inl free ↦
                    let p = ok-inj (rw (named, bound_to, r, free) at e) in
                    (namespace, key, named, r ∙ ap (λ t. ok t.1) p, free, sym (ap (λ t. t.0) p))
                | inr (first, t) ↦ absurd (err-ne-ok (rw (named, bound_to, r, t) at e))
              ]
        ]
  ]

  pub bind_one-Binds :
      (name : Bytes) (b : Binding)
      → (bind_one values payload name b).problems ≡ []
      → Binds values payload name b
  unfolding bind_one bind_or_refuse bound_to Named
  bind_one-Binds name b e =
      let (_, q, to, r) = bind_one-problems name b e in
      let (namespace, key, named, resolves, free, v) = bound_to-Named b.names name to r in
      record {
        namespace = namespace;
        key = key;
        value = to.1;
        named = named;
        resolved = resolves;
        free = free;
        bare = q;
        bound = rw q (rw (r, v) refl);
      }
