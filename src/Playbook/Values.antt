-- ===== src/Playbook/Values.antt =====
-- playbook/values.go: `Extract` and `Check`, which takes the declared values of a webhook's
-- delivery. The regular expressions of Go's library are an argument.
pub mod Accepts
pub mod Whole
pub mod Gather
use gronin.Prelude.{
  ℕ, zero, suc, ◌+◌, Bool, true, false, ◌&&◌, ◌||◌, not, List, [], ◌∷◌, ◌++◌, map, Option, none,
  some, ltb, leb, ◌==◌, if◌then◌else◌, Result, ok, err,
}
use gronin.Prelude.Bytes.{Bytes, Entries, codes, has_prefix, value_of, put_value, sort, member}
use gronin.Config.Reference.{pieces, trigger_references}
use gronin.Playbook.Pointer.{Json, null, at_pointer, single_value}

-- A declared value of a trigger.
pub record Declared : Type 0 where
  pub at : Bytes
  pub pattern : Bytes
  pub max_length : ℕ

-- A playbook, in what a check reads of it: the declared values, each name once, and the lines of
-- the gather steps.
pub record Playbook : Type 0 where
  pub values : Entries Declared
  pub runs : List Bytes

unfoldable pub extract_each : Json → Entries Declared → Entries Json
extract_each document [] = []
extract_each document ((name, declared) ∷ values) =
    (name, at_pointer document declared.at) ∷ extract_each document values

unfoldable pub extract : Playbook → Json → Entries Json
extract book document = extract_each document book.values

-- The bytes that a code point's encoding begins with, and those that go on.
unfoldable pub in_range : ℕ → ℕ → ℕ → Bool
in_range lo hi c = leb lo c && leb c hi

unfoldable pub goes_on : Bytes → ℕ → ℕ → Bool
goes_on [] lo hi = false
goes_on (c ∷ s) lo hi = in_range lo hi c

unfoldable pub tail : Bytes → Bytes
tail [] = []
tail (c ∷ s) = s

unfoldable pub two_more : Bytes → ℕ → ℕ → Bool
two_more s lo hi = goes_on s lo hi && goes_on (tail s) 0x80 0xBF

unfoldable pub three_more : Bytes → ℕ → ℕ → Bool
three_more s lo hi = two_more s lo hi && goes_on (tail (tail s)) 0x80 0xBF

-- How many bytes follow the first in an encoding of a code point; none after an invalid one.
unfoldable pub more_bytes : ℕ → Bytes → ℕ
more_bytes c s =
    if in_range 0xC2 0xDF c && goes_on s 0x80 0xBF
    then 1
    else if c == 0xE0 && two_more s 0xA0 0xBF
    then 2
    else if c == 0xED && two_more s 0x80 0x9F
    then 2
    else if in_range 0xE1 0xEF c && not (c == 0xED) && two_more s 0x80 0xBF
    then 2
    else if c == 0xF0 && three_more s 0x90 0xBF
    then 3
    else if in_range 0xF1 0xF3 c && three_more s 0x80 0xBF
    then 3
    else if c == 0xF4 && three_more s 0x80 0x8F
    then 3
    else 0

-- utf8.RuneCountInString, past bytes that belong to a code point that is counted.
unfoldable pub count_runes : ℕ → Bytes → ℕ
count_runes skip [] = 0
count_runes (suc skip) (c ∷ s) = count_runes skip s
count_runes zero (c ∷ s) = count_runes (more_bytes c s) s + 1

unfoldable pub rune_count : Bytes → ℕ
rune_count = count_runes 0

pub data ValueRefusalKind : Type 0 where
  absent not_single too_long no_match leading_dash : ValueRefusalKind

pub record ValueRefusal : Type 0 where
  pub name : Bytes
  pub kind : ValueRefusalKind

-- regexp.Compile and MatchString, of a pattern that is anchored.
abbrev pub Regexps : Type 0
Regexps = Bytes → Option (Bytes → Bool)

-- `^(?:` + pattern + `)$`
unfoldable pub anchored : Bytes → Bytes
anchored pattern = codes "^(?:" ++ (pattern ++ codes ")$")

-- A pattern that does not compile matches nothing here.
unfoldable pub anchored_match : Regexps → Bytes → Bytes → Bool
anchored_match compile pattern s = elim (compile (anchored pattern)) [
  | none ↦ false
  | some matches ↦ matches s
]

-- The names that some gather step references.
unfoldable pub referenced : List Bytes → List Bytes
referenced [] = []
referenced (run ∷ runs) = trigger_references (pieces run) ++ referenced runs

unfoldable pub check_text : Regexps → Bool → Declared → Bytes → Result ValueRefusalKind Bytes
check_text compile in_gather declared s =
    if ltb declared.max_length (rune_count s)
    then err ValueRefusalKind.too_long
    else if not (anchored_match compile declared.pattern s)
    then err ValueRefusalKind.no_match
    else if in_gather && has_prefix (codes "-") s
    then err ValueRefusalKind.leading_dash
    else ok s

unfoldable pub check_single :
    Regexps → Bool → Declared → Option Bytes → Result ValueRefusalKind Bytes
check_single compile in_gather declared none = err ValueRefusalKind.not_single
check_single compile in_gather declared (some s) = check_text compile in_gather declared s

unfoldable pub is_null : Json → Bool
is_null null = true
is_null _ = false

unfoldable pub check_raw : Regexps → Bool → Declared → Option Json → Result ValueRefusalKind Bytes
check_raw compile in_gather declared none = err ValueRefusalKind.absent
check_raw compile in_gather declared (some raw) =
    if is_null raw
    then err ValueRefusalKind.absent
    else check_single compile in_gather declared (single_value raw)

-- book.Trigger.Values[name], the zero value where it is missing.
abbrev pub declared_at : Option Declared → Declared
declared_at none = record { at = []; pattern = []; max_length = 0 }
declared_at (some declared) = declared

unfoldable pub check_one : Regexps → Playbook → Entries Json → Bytes → Result ValueRefusalKind Bytes
check_one compile book values name =
    check_raw compile (member name (referenced book.runs)) (declared_at (value_of name book.values))
      (value_of name values)

pub record Checked : Type 0 where
  pub refusals : List ValueRefusal
  pub checked : Entries Bytes

unfoldable pub note : Bytes → Result ValueRefusalKind Bytes → Checked → Checked
note name (err kind) c = record c {
  refusals = c.refusals ++ (record { name = name; kind = kind }) ∷ [];
}
note name (ok s) c = record c { checked = put_value name s c.checked }

unfoldable pub check_each : Regexps → Playbook → Entries Json → List Bytes → Checked → Checked
check_each compile book values [] c = c
check_each compile book values (name ∷ names) c =
    check_each compile book values names (note name (check_one compile book values name) c)

abbrev pub names_of : Entries Declared → List Bytes
names_of = map (λ e. e.0)

unfoldable pub unless_refusals :
    List ValueRefusal → Entries Bytes → Result (List ValueRefusal) (Entries Bytes)
unless_refusals [] checked = ok checked
unless_refusals (r ∷ rs) checked = err (r ∷ rs)

unfoldable pub check :
    Regexps → Playbook → Entries Json → Result (List ValueRefusal) (Entries Bytes)
check compile book values =
    let c =
      check_each compile book values (sort (names_of book.values))
        (record { refusals = []; checked = [] }) in
    unless_refusals c.refusals c.checked
