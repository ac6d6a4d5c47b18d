-- ===== src/Config/Tests.antt =====
-- Tests and examples of config/.
use gronin.Prelude.{[], ◌∷◌, ◌++◌, ◌≡◌, ◌≢◌, refl, ok, err, Bool-cases, inl, inr}
use gronin.Prelude.Bytes.{
  Bytes, Entries, codes, cut, contains_byte, same, value_of, put_value, sort, place, member,
  has_prefix,
}
use gronin.Config.Reference.{
  scan, found, next_scan, closes_after, pieces, written, render, starts_brace, unterminated,
  namespace_key, trigger_references, payload_key, all_key_bytes, is_key_byte, valid_key,
}
use gronin.Config.Interpolate.{
  Problem, holds_opening, filled, add_filled, fill_each, unless_refused, interpolate,
}
use gronin.Config.Shell.{
  Refused, quote_step, quoting, quoted, or_refused, resolve, upper, env_byte, env_safe, variable_of,
  expansion, taken_by, bound_to, refuse, bind_as, bind_or_refuse, bind_one, bind_each, Bound,
  bound_from, bind_shell, quoted_from, quoted_references,
}
use gronin.Config.Shell.Quotes.{plain, escape, double, next_context, context_after, tag}
use gronin.Config.Shell.Contained.{contained, variable_named, bind_shell-contained}
use gronin.Config.Shell.Escaped.{bare_variable, bind_shell-escaped}
use gronin.Config.Shell.Env.{entries_of, bind_shell-env}
use gronin.Config.Shell.Hidden.{SameKeys, line_of, bind_shell-line_eq}

abbrev values : Entries Bytes
values = (codes "dir", codes "/srv; rm") ∷ []

abbrev others : Entries Bytes
others = (codes "dir", codes "") ∷ []

abbrev payload : Entries Bytes
payload = (codes "ref-1", codes "v1") ∷ []

abbrev line : Bytes
line = codes "a ${config.dir} '${'"

abbrev good_line : Bytes
good_line = codes "a ${config.dir}"

abbrev bound_line : Bound
bound_line = record {
  line = codes "a \"$GRONIN_CONFIG_DIR\"";
  env = codes "GRONIN_CONFIG_DIR=/srv; rm" ∷ [];
}

bind_shell_good : bind_shell values payload good_line ≡ ok bound_line
unfolding bind_shell pieces scan found next_scan closes_after contains_byte unterminated
    starts_brace bind_each bind_one quoted quoting quote_step bound_to namespace_key cut resolve
    same or_refused value_of taken_by bind_or_refuse bind_as put_value expansion variable_of upper
    env_safe env_byte written bound_from sort place
bind_shell_good = refl

-- An opening that nothing closes is refused.
bind_shell_unclosed : bind_shell values payload line ≡ err (Refused.unclosed (codes "${'") ∷ [])
unfolding bind_shell pieces scan found next_scan closes_after contains_byte unterminated
    starts_brace render bind_each bind_one quoted quoting quote_step bound_to namespace_key cut
    resolve same or_refused value_of taken_by bind_or_refuse bind_as put_value expansion variable_of
    upper env_safe env_byte written bound_from
bind_shell_unclosed = refl

-- Keys that differ by a dash bind to one variable.
bind_shell_collision :
    bind_shell ((codes "a-b", []) ∷ (codes "a_b", []) ∷ []) [] (codes "${config.a-b}${config.a_b}")
    ≡ err (Refused.same_variable (codes "config.a-b") (codes "config.a_b") ∷ [])
unfolding bind_shell pieces scan found next_scan closes_after contains_byte unterminated
    starts_brace render bind_each bind_one quoted quoting quote_step bound_to namespace_key cut
    resolve same or_refused value_of taken_by bind_or_refuse refuse bind_as put_value expansion
    variable_of upper env_safe env_byte written bound_from
bind_shell_collision = refl

quoted_references_inside :
    quoted_references (codes "echo '${config.a}' ${config.b}") ≡ codes "config.a" ∷ []
unfolding quoted_references quoted_from quoted quoting quote_step pieces scan found next_scan
    closes_after contains_byte written
quoted_references_inside = refl

trigger_references_named :
    trigger_references (pieces (codes "${trigger.a} ${config.b} ${c}")) ≡ codes "a" ∷ []
unfolding trigger_references payload_key namespace_key cut same pieces scan found next_scan
    closes_after contains_byte
trigger_references_named = refl

interpolate_text : interpolate values payload (codes "ref ${trigger.ref-1}.") ≡ ok (codes "ref v1.")
unfolding interpolate fill_each add_filled filled holds_opening has_prefix unless_refused
    namespace_key cut resolve same or_refused value_of unterminated starts_brace pieces scan found
    next_scan closes_after contains_byte
interpolate_text = refl

interpolate_nested :
    interpolate values payload (codes "${config.${trigger.a}}")
    ≡ err (Problem.nested (codes "config.${trigger.a") ∷ [])
unfolding interpolate fill_each add_filled filled holds_opening has_prefix unless_refused
    unterminated starts_brace pieces scan found next_scan closes_after contains_byte written
interpolate_nested = refl

plain-ne-escape : plain ≢ escape
plain-ne-escape e = cc

bind_shell-contained_example : tag plain bound_line.line ≡ contained plain (pieces good_line)
unfolding pieces scan found next_scan closes_after contains_byte valid_key all_key_bytes is_key_byte
    next_context
bind_shell-contained_example =
    bind_shell-contained values payload (refl, tt) (refl, tt) good_line bound_line
      (plain-ne-escape, tt) bind_shell_good

bind_shell-env_example :
    member (codes "GRONIN_CONFIG_DIR=/srv; rm") bound_line.env
    ≡ member (codes "GRONIN_CONFIG_DIR=/srv; rm") (entries_of values payload (pieces good_line))
bind_shell-env_example =
    bind_shell-env values payload good_line bound_line (codes "GRONIN_CONFIG_DIR=/srv; rm")
      bind_shell_good

values-others : SameKeys values others
unfolding value_of
values-others key = elim (Bool-cases (same (codes "dir") key)) [
  | inl e ↦ rw e refl
  | inr e ↦ rw e refl
]

bind_shell-line_eq_example :
    line_of (bind_shell values payload good_line) ≡ line_of (bind_shell others payload good_line)
bind_shell-line_eq_example =
    bind_shell-line_eq values others payload payload values-others (λ key. refl) good_line

abbrev escaped_bound : Bound
escaped_bound = record {
  line = codes "a \\\"$GRONIN_CONFIG_DIR\"";
  env = codes "GRONIN_CONFIG_DIR=/srv; rm" ∷ [];
}

bind_shell_escaped :
    bind_shell values payload (codes "a \\" ++ written (codes "config.dir")) ≡ ok escaped_bound
unfolding bind_shell pieces scan found next_scan closes_after contains_byte unterminated
    starts_brace bind_each bind_one quoted quoting quote_step bound_to namespace_key cut resolve
    same or_refused value_of taken_by bind_or_refuse bind_as put_value expansion variable_of upper
    env_safe env_byte written bound_from sort place
bind_shell_escaped = refl

bind_shell-escaped_example :
    (tag plain escaped_bound.line
      ≡ tag plain (codes "a \\")
        ++ bare_variable (variable_named (namespace_key (codes "config.dir"))))
    × (context_after plain escaped_bound.line ≡ double)
unfolding pieces scan found next_scan closes_after contains_byte written valid_key all_key_bytes
    is_key_byte next_context context_after
bind_shell-escaped_example =
    bind_shell-escaped values payload (codes "a \\") (codes "config.dir") escaped_bound (refl, tt)
      (refl, tt) refl refl bind_shell_escaped
