-- ===== src/Config/Shell.antt =====
-- config/shell.go: `BindShell`, which binds the references of a shell line through its
-- environment, and the quoting that it reads a line by.
pub mod Quotes
pub mod Steps
pub mod Escaped
pub mod Hidden
pub mod Env
pub mod Contained
use gronin.Prelude.{
  ℕ, ◌-◌, Bool, true, false, ◌&&◌, ◌||◌, not, List, [], ◌∷◌, ◌++◌, map, Option, none, some, leb,
  ◌==◌, if◌then◌else◌, Result, ok, err,
}
use gronin.Prelude.Bytes.{Bytes, Entries, codes, value_of, put_value, same, sort}
use gronin.Config.Reference.{Piece, text, ref, pieces, render, written, unterminated, namespace_key}

-- The variables of the loop of `quoted`; `skip` is that the byte is passed over by `i++`.
pub record Quoting : Type 0 where
  pub single : Bool
  pub double : Bool
  pub skip : Bool

abbrev pub unquoted : Quoting
unquoted = record { single = false; double = false; skip = false }

unfoldable pub quote_step : Quoting → ℕ → Quoting
quote_step q c =
    if q.skip
    then record q { skip = false }
    else if c == b'\\'
    then record q { skip = not q.single }
    else if c == b'\''
    then record q { single = if q.double then q.single else not q.single }
    else if c == b'"'
    then record q { double = if q.single then q.double else not q.double }
    else q

unfoldable pub quoting : Quoting → Bytes → Quoting
quoting q [] = q
quoting q (c ∷ s) = quoting (quote_step q c) s

-- quoted(line, at), from the bytes before the offset.
unfoldable pub quoted : Bytes → Bool
quoted before = let q = quoting unquoted before in q.single || q.double

-- One value of a configuration or of a payload, and why a reference is refused.
pub data Refused : Type 0 where
  unclosed in_quotes no_source not_configured not_in_payload unknown_source : Bytes → Refused
  same_variable : Bytes → Bytes → Refused

abbrev pub config_namespace : Bytes
config_namespace = codes "config"

abbrev pub trigger_namespace : Bytes
trigger_namespace = codes "trigger"

unfoldable pub or_refused : Refused → Option Bytes → Result Refused Bytes
or_refused why none = err why
or_refused why (some value) = ok value

unfoldable pub resolve :
    Entries Bytes → Entries Bytes → Bytes → Bytes → Bytes → Result Refused Bytes
resolve values payload namespace key name =
    if same namespace config_namespace
    then or_refused (Refused.not_configured key) (value_of key values)
    else if same namespace trigger_namespace
    then or_refused (Refused.not_in_payload key) (value_of key payload)
    else err (Refused.unknown_source name)

-- strings.ToUpper, of ASCII bytes, as a namespace and a valid key are.
unfoldable pub upper : ℕ → ℕ
upper c = if leb b'a' c && leb c b'z' then c - 32 else c

unfoldable pub env_byte : ℕ → ℕ
env_byte c = upper (if c == b'-' then b'_' else c)

unfoldable pub env_safe : Bytes → Bytes
env_safe = map env_byte

abbrev pub env_prefix : Bytes
env_prefix = codes "GRONIN_"

unfoldable pub variable_of : Bytes → Bytes → Bytes
variable_of namespace key = env_prefix ++ (map upper namespace ++ (b'_' ∷ env_safe key))

-- `"$variable"`
unfoldable pub expansion : Bytes → Bytes
expansion variable = b'"' ∷ b'$' ∷ (variable ++ b'"' ∷ [])

-- The loop's variables; `before` is the line up to the piece that comes.
pub record Binding : Type 0 where
  pub before : Bytes
  pub out : Bytes
  pub problems : List Refused
  pub names : Entries Bytes
  pub values : Entries Bytes

-- names[variable] is taken by another reference.
unfoldable pub taken_by : Bytes → Option Bytes → Option Bytes
taken_by name none = none
taken_by name (some first) = if same first name then none else some first

-- What a reference is bound to: its variable and its value.
unfoldable pub bound_to :
    Entries Bytes → Entries Bytes → Entries Bytes → Bytes → Result Refused (Bytes × Bytes)
bound_to values payload names name = elim (namespace_key name) [
  | none ↦ err (Refused.no_source name)
  | some (namespace, key) ↦ elim (resolve values payload namespace key name) [
    | err why ↦ err why
    | ok value ↦
        let variable = variable_of namespace key in
        elim (taken_by name (value_of variable names)) [
          | some first ↦ err (Refused.same_variable first name)
          | none ↦ ok (variable, value)
        ]
  ]
]

-- The reference stays in the line, and the problem is kept.
unfoldable pub refuse : Refused → Bytes → Binding → Binding
refuse why name b = record b {
  before = b.before ++ written name;
  out = b.out ++ written name;
  problems = b.problems ++ why ∷ [];
}

unfoldable pub bind_as : Bytes → Bytes → Bytes → Binding → Binding
bind_as name variable value b = record b {
  before = b.before ++ written name;
  out = b.out ++ expansion variable;
  names = put_value variable name b.names;
  values = put_value variable value b.values;
}

unfoldable pub bind_or_refuse : Bytes → Result Refused (Bytes × Bytes) → Binding → Binding
bind_or_refuse name (err why) b = refuse why name b
bind_or_refuse name (ok (variable, value)) b = bind_as name variable value b

unfoldable pub bind_one : Entries Bytes → Entries Bytes → Bytes → Binding → Binding
bind_one values payload name b =
    if quoted b.before
    then refuse (Refused.in_quotes name) name b
    else bind_or_refuse name (bound_to values payload b.names name) b

unfoldable pub bind_each : Entries Bytes → Entries Bytes → List Piece → Binding → Binding
bind_each values payload [] b = b
bind_each values payload (text c ∷ ps) b =
    bind_each values payload ps (record b { before = b.before ++ c ∷ []; out = b.out ++ c ∷ [] })
bind_each values payload (ref name ∷ ps) b =
    bind_each values payload ps (bind_one values payload name b)

pub record Bound : Type 0 where
  pub line : Bytes
  pub env : List Bytes

abbrev pub env_entry : Bytes → Bytes → Bytes
env_entry variable value = variable ++ b'=' ∷ value

unfoldable pub bound_from : Binding → List Refused → Result (List Refused) Bound
bound_from b [] = ok (record { line = b.out; env = sort (map (λ e. env_entry e.0 e.1) b.values) })
bound_from b (why ∷ more) = err (why ∷ more)

abbrev pub start : List Refused → Binding
start problems = record { before = []; out = []; problems = problems; names = []; values = [] }

unfoldable pub bind_shell : Entries Bytes → Entries Bytes → Bytes → Result (List Refused) Bound
bind_shell values payload line =
    let b =
      bind_each values payload (pieces line)
        (start (map Refused.unclosed (unterminated (pieces line)))) in
    bound_from b b.problems

-- config.QuotedReferences, with the line before each piece.
unfoldable pub quoted_from : Bytes → List Piece → List Bytes
quoted_from before [] = []
quoted_from before (text c ∷ ps) = quoted_from (before ++ c ∷ []) ps
quoted_from before (ref name ∷ ps) =
    (if quoted before then name ∷ [] else []) ++ quoted_from (before ++ written name) ps

unfoldable pub quoted_references : Bytes → List Bytes
quoted_references line = quoted_from [] (pieces line)
