-- ===== src/Config/Shell/Contained.antt =====
-- config/shell.go: in the line that `BindShell` returns, each variable is inside double quotes of
-- its own, and the rest of the line is read as it was.
use gronin.Prelude.{
  ℕ, true, List, [], ◌∷◌, ◌++◌, map, Option, none, some, ◌≡◌, ◌≢◌, refl, sym, ap, ◌∙◌, arith, ◌==◌,
  Result, ok, err, ◌⊎◌, inl, inr, Bool-cases, Option-cases, Option-cases, append_assoc, append-nil,
}
use gronin.Prelude.Bytes.{Bytes, Entries, cut, value_of, same, same-eq, same_iff}
use gronin.Config.Reference.{
  Piece, text, ref, pieces, unterminated, namespace_key, all_key_bytes, is_key_byte, valid_key,
  written,
}
use gronin.Config.Shell.{
  Refused, resolve, or_refused, variable_of, Binding, bind_as, expansion, upper, bind_one,
  bind_each, config_namespace, trigger_namespace, Bound, start, bind_shell,
}
use gronin.Config.Shell.Quotes.{
  Context, plain, escape, double, next_context, context_after, tag, context_after-append,
  tag-append, quoted-plain, context_after-key, tag-key, context_after_double-key,
  all_key_bytes-env_safe,
}
use gronin.Config.Shell.Steps.{
  KeysAreValid, Binds, bind_each-problems, bind_one-Binds, bound_from-ok,
}

unfoldable pub variable_named : Option (Bytes × Bytes) → Bytes
variable_named none = []
variable_named (some (namespace, key)) = variable_of namespace key

-- A variable expanded inside double quotes, in a line that is plain around it.
unfoldable pub expanded : Bytes → List (Context × ℕ)
expanded variable =
    (plain, b'"') ∷ (double, b'$') ∷ (map (λ c. (double, c)) variable ++ (double, b'"') ∷ [])

-- How a shell is to read the line: the author's bytes as if the references were not there, and
-- for each reference its variable in quotes.
unfoldable pub contained : Context → List Piece → List (Context × ℕ)
contained k [] = []
contained k (text c ∷ ps) = (k, c) ∷ contained (next_context k c) ps
contained k (ref name ∷ ps) = expanded (variable_named (namespace_key name)) ++ contained k ps

-- No reference follows a backslash that escapes it.
abbrev pub Unescaped : Context → List Piece → Type 0
Unescaped k [] = Unit {0}
Unescaped k (text c ∷ ps) = Unescaped (next_context k c) ps
Unescaped k (ref name ∷ ps) = (k ≢ escape) × Unescaped k ps

value_of-valid :
    (key value : Bytes) (values : Entries Bytes)
    → KeysAreValid values
    → value_of key values ≡ some value
    → all_key_bytes key ≡ true
unfolding value_of valid_key all_key_bytes
value_of-valid key value [] valid e = ground arith
value_of-valid key value (([], v) ∷ entries) valid e = ground arith
value_of-valid key value ((c ∷ name, v) ∷ entries) valid e =
    ground (arith, same_iff (c ∷ name) key, value_of-valid key value entries valid.1)

pub or_refused-ok :
    (why : Refused) (o : Option Bytes) (value : Bytes)
    → or_refused why o ≡ ok value
    → o ≡ some value
unfolding or_refused
or_refused-ok why none value e = cc
or_refused-ok why (some v) value e = cc

-- A reference that resolves names a known source and a valid key.
pub resolve-valid :
    (values payload : Entries Bytes) (namespace key name value : Bytes)
    → KeysAreValid values
    → KeysAreValid payload
    → resolve values payload namespace key name ≡ ok value
    → ((namespace ≡ config_namespace) ⊎ (namespace ≡ trigger_namespace))
      × (all_key_bytes key ≡ true)
unfolding resolve
resolve-valid values payload namespace key name value v w e =
    elim (Bool-cases (same namespace config_namespace)) [
      | inl c ↦ (
        inl (same-eq namespace config_namespace c),
        value_of-valid key value values v (or_refused-ok _ _ value (rw c at e)),
      )
      | inr c ↦ elim (Bool-cases (same namespace trigger_namespace)) [
        | inl t ↦ (
          inr (same-eq namespace trigger_namespace t),
          value_of-valid key value payload w (or_refused-ok _ _ value (rw (c, t) at e)),
        )
        | inr t ↦ absurd (no_value (rw (c, t) at e))
      ]
    ]
  where
    no_value : ◌≡◌ {A = Result Refused Bytes} (err (Refused.unknown_source name)) (ok value) → ⊥
    no_value h = cc

pub cut-joins :
    (mark : ℕ) (s before after : Bytes)
    → cut mark s ≡ some (before, after)
    → s ≡ before ++ mark ∷ after
unfolding cut
cut-joins mark [] before after e = ground arith
cut-joins mark (c ∷ s) before after e = elim (Bool-cases (c == mark)) [
  | inl here ↦ ground arith
  | inr more ↦ elim (Option-cases (cut mark s)) [
    | inl absent ↦ ground arith
    | inr ((b, a), p) ↦ ground (arith, cut-joins mark s b a p)
  ]
]

module _ (namespace key : Bytes)
    (known : (namespace ≡ config_namespace) ⊎ (namespace ≡ trigger_namespace))
    (valid : all_key_bytes key ≡ true) where
  known-key : all_key_bytes namespace ≡ true
  unfolding all_key_bytes is_key_byte
  known-key = elim known [ inl c ↦ rw c refl | inr t ↦ rw t refl ]

  pub variable-key : all_key_bytes (variable_of namespace key) ≡ true
  unfolding all_key_bytes is_key_byte variable_of upper
  variable-key = elim known [
    | inl c ↦ rw c (all_key_bytes-env_safe key valid)
    | inr t ↦ rw t (all_key_bytes-env_safe key valid)
  ]

  -- Over a reference the line stays as it is.
  context-written : context_after plain (written (namespace ++ b'.' ∷ key)) ≡ plain
  unfolding written context_after next_context
  context-written =
      rw
        (
          context_after-append (namespace ++ b'.' ∷ key) (b'}' ∷ []) plain,
          context_after-append namespace (b'.' ∷ key) plain,
          context_after-key namespace known-key,
          context_after-key key valid,
        )
        refl

module _ (v : Bytes) (valid : all_key_bytes v ≡ true) where
  tag-expansion : tag plain (expansion v) ≡ expanded v
  unfolding expansion expanded tag next_context
  tag-expansion =
      rw (tag-append v (b'"' ∷ []) double, tag-key v valid, context_after_double-key v valid) refl

  context-expansion : context_after plain (expansion v) ≡ plain
  unfolding expansion context_after next_context
  context-expansion =
      rw (context_after-append v (b'"' ∷ []) double, context_after_double-key v valid) refl

-- The machine stands alike before a piece of the line and in the line that comes of it.
record Agrees (k : Context) (b : Binding) : Type 0 where
  read : context_after plain b.before ≡ k
  wrote : context_after plain b.out ≡ k

Agrees-text :
    (c : ℕ) (b : Binding) (k : Context)
    → Agrees k b
    → Agrees (next_context k c) (record b { before = b.before ++ c ∷ []; out = b.out ++ c ∷ [] })
unfolding context_after
Agrees-text c b k agrees = record {
  read = rw (context_after-append b.before (c ∷ []) plain, agrees.read) refl;
  wrote = rw (context_after-append b.out (c ∷ []) plain, agrees.wrote) refl;
}

module _ (values payload : Entries Bytes) (v : KeysAreValid values) (w : KeysAreValid payload) where
  Binds-Agrees :
      (name : Bytes) (b : Binding) (k : Context)
      → Agrees k b
      → k ≢ escape
      → Binds values payload name b
      → (k ≡ plain)
        × Agrees plain (bind_one values payload name b)
        × (tag plain (bind_one values payload name b).out
            ≡ tag plain b.out ++ expanded (variable_named (namespace_key name)))
  unfolding bind_as variable_named namespace_key
  Binds-Agrees name b k agrees unescaped binds =
      let (known, valid) =
        resolve-valid values payload binds.namespace binds.key name binds.value v w
          binds.resolved in
      let here : k ≡ plain =
        sym agrees.read ∙ quoted-plain b.before binds.bare (λ e. unescaped (sym agrees.read ∙ e)) in
      let joined : name ≡ binds.namespace ++ b'.' ∷ binds.key =
        cut-joins b'.' name binds.namespace binds.key binds.named in
      let key_bytes = variable-key binds.namespace binds.key known valid in
      (
        here,
        rw binds.bound (record {
          read =
              rw (context_after-append b.before (written name) plain, agrees.read, here)
                (ap (λ t. context_after plain (written t)) joined
                  ∙ context-written binds.namespace binds.key known valid);
          wrote =
              rw
                (
                  context_after-append b.out (expansion (variable_of binds.namespace binds.key))
                      plain,
                  agrees.wrote,
                  here,
                )
                (context-expansion _ key_bytes);
        }),
        rw (binds.bound, binds.named)
            (rw
              (
                tag-append b.out (expansion (variable_of binds.namespace binds.key)) plain,
                agrees.wrote,
                here,
                tag-expansion _ key_bytes,
              )
              refl),
      )

  bind_each-contained :
      (ps : List Piece) (b : Binding) (k : Context)
      → Agrees k b
      → Unescaped k ps
      → (bind_each values payload ps b).problems ≡ []
      → tag plain (bind_each values payload ps b).out ≡ tag plain b.out ++ contained k ps
  unfolding bind_each contained tag
  bind_each-contained [] b k agrees u e = sym (append-nil (tag plain b.out))
  bind_each-contained (text c ∷ ps) b k agrees u e =
      bind_each-contained ps _ (next_context k c) (Agrees-text c b k agrees) u e
      ∙ rw (tag-append b.out (c ∷ []) plain, agrees.wrote)
          (append_assoc (tag plain b.out) ((k, c) ∷ []) (contained (next_context k c) ps))
  bind_each-contained (ref name ∷ ps) b k agrees (unescaped, u) e =
      let (here, agrees', out) = Binds-Agrees name b k agrees unescaped (
        bind_one-Binds values payload name b
          (bind_each-problems values payload ps (bind_one values payload name b) e)) in
      bind_each-contained ps (bind_one values payload name b) k (rw here agrees') u e
      ∙ rw out (
          append_assoc (tag plain b.out) (expanded (variable_named (namespace_key name)))
            (contained k ps))

  -- In a line that is bound, where the keys of the configuration and of the payload are valid and no
  -- reference follows a backslash that escapes it, each reference is its variable inside
  -- double quotes of its own, and every other byte is quoted as it was with the references left out.
  pub bind_shell-contained :
      (line : Bytes) (bound : Bound)
      → Unescaped plain (pieces line)
      → bind_shell values payload line ≡ ok bound
      → tag plain bound.line ≡ contained plain (pieces line)
  unfolding bind_shell contained tag context_after
  bind_shell-contained line bound u e =
      let first = start (map Refused.unclosed (unterminated (pieces line))) in
      let (none_left, is) = bound_from-ok (bind_each values payload (pieces line) first) bound e in
      rw (ap (λ r. r.line) is) (
        bind_each-contained (pieces line) first plain (record { read = refl; wrote = refl }) u
          none_left)
