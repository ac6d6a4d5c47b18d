-- ===== src/Config/Shell/Escaped.antt =====
-- config/shell.go: a reference behind a backslash. The backslash escapes the first quote of the
-- expansion, so the variable stands outside quotes.
use gronin.Prelude.{
  ℕ, true, List, [], ◌∷◌, ◌++◌, map, ◌≡◌, refl, sym, ap, ◌∙◌, arith, ok, append_assoc, append-nil,
}
use gronin.Prelude.Bytes.{Bytes, Entries}
use gronin.Config.Reference.{
  Piece, text, ref, pieces, unterminated, namespace_key, all_key_bytes, is_key_byte, written,
}
use gronin.Config.Shell.{
  Refused, variable_of, Binding, bind_as, expansion, bind_one, bind_each, Bound, start, bind_shell,
}
use gronin.Config.Shell.Quotes.{
  Context, plain, escape, double, next_context, context_after, tag, context_after-append,
  tag-append, context_after-key,
}
use gronin.Config.Shell.Steps.{KeysAreValid, bind_one-Binds, bound_from-ok}
use gronin.Config.Shell.Contained.{variable_named, resolve-valid, variable-key}

-- A variable expanded outside quotes, after an escaped quote and before a quote that opens.
unfoldable pub bare_variable : Bytes → List (Context × ℕ)
bare_variable variable =
    (escape, b'"') ∷ (plain, b'$') ∷ (map (λ c. (plain, c)) variable ++ (plain, b'"') ∷ [])

tag_plain-key : (s : Bytes) → all_key_bytes s ≡ true → tag plain s ≡ map (λ c. (plain, c)) s
unfolding all_key_bytes is_key_byte tag next_context
tag_plain-key [] h = refl
tag_plain-key (c ∷ s) h = ground (arith, tag_plain-key s)

module _ (v : Bytes) (valid : all_key_bytes v ≡ true) where
  tag-escaped : tag escape (expansion v) ≡ bare_variable v
  unfolding expansion bare_variable tag next_context
  tag-escaped =
      rw (tag-append v (b'"' ∷ []) plain, tag_plain-key v valid, context_after-key v valid) refl

  context-escaped : context_after escape (expansion v) ≡ double
  unfolding expansion context_after next_context
  context-escaped = rw (context_after-append v (b'"' ∷ []) plain, context_after-key v valid) refl

module _ (values payload : Entries Bytes) where
  bind_each-texts :
      (s : Bytes) (ps : List Piece) (b : Binding)
      → bind_each values payload (map text s ++ ps) b
        ≡ bind_each values payload ps (record b { before = b.before ++ s; out = b.out ++ s })
  unfolding bind_each
  bind_each-texts [] ps b = rw (append-nil b.before, append-nil b.out) refl
  bind_each-texts (c ∷ s) ps b =
      bind_each-texts s ps _
      ∙ rw (append_assoc b.before (c ∷ []) s, append_assoc b.out (c ∷ []) s) refl

  -- Where the keys of the configuration and of the payload are valid, and a line holds one reference
  -- and no other, which ends it and stands behind a backslash that escapes: a binding that is
  -- accepted leaves the variable outside quotes, where the shell splits its value into words, and
  -- the line ends inside a quote that nothing closes.
  pub bind_shell-escaped :
      (s name : Bytes) (bound : Bound)
      → KeysAreValid values
      → KeysAreValid payload
      → pieces (s ++ written name) ≡ map text s ++ ref name ∷ []
      → context_after plain s ≡ escape
      → bind_shell values payload (s ++ written name) ≡ ok bound
      → (tag plain bound.line ≡ tag plain s ++ bare_variable (variable_named (namespace_key name)))
        × (context_after plain bound.line ≡ double)
  unfolding bind_shell bind_each bind_as variable_named
  bind_shell-escaped s name bound v w split escaped e =
      let first = start (map Refused.unclosed (unterminated (pieces (s ++ written name)))) in
      let (none_left, is) =
        bound_from-ok (bind_each values payload (pieces (s ++ written name)) first) bound e in
      let here = record first { before = s; out = s } in
      let steps : bind_each values payload (pieces (s ++ written name)) first
          ≡ bind_one values payload name here =
        ap (λ ps. bind_each values payload ps first) split
        ∙ bind_each-texts s (ref name ∷ []) first in
      let binds =
        bind_one-Binds values payload name here (ap (λ b. b.problems) (sym steps) ∙ none_left) in
      let (known, valid) =
        resolve-valid values payload binds.namespace binds.key name binds.value v w
          binds.resolved in
      let key_bytes = variable-key binds.namespace binds.key known valid in
      let line_is : bound.line ≡ s ++ expansion (variable_of binds.namespace binds.key) =
        ap (λ r. r.line) is ∙ ap (λ b. b.out) (steps ∙ binds.bound) in
      (
        rw (line_is, binds.named)
            (rw
              (
                tag-append s (expansion (variable_of binds.namespace binds.key)) plain,
                escaped,
                tag-escaped _ key_bytes,
              )
              refl),
        rw line_is (
            rw
              (
                context_after-append s (expansion (variable_of binds.namespace binds.key)) plain,
                escaped,
              )
              (context-escaped _ key_bytes)),
      )
