-- ===== src/Record/Redact.antt =====
-- record/redact.go: the redactor, which takes the configured secrets out of a text.
pub mod Hidden
pub mod Tests
use gronin.Prelude.{
  ℕ, zero, suc, ◌+◌, ◌-◌, Bool, true, false, ◌||◌, ◌&&◌, not, List, [], ◌∷◌, ◌++◌, Option, none,
  some, ◌==◌, ltb, leb, if◌then◌else◌, length,
}
use gronin.Prelude.Bytes.{Bytes, codes, has_prefix}

abbrev pub placeholder : Bytes
placeholder = codes "[redacted]"

-- strings.Contains
unfoldable pub occurs : Bytes → Bytes → Bool
occurs sub [] = has_prefix sub []
occurs sub (c ∷ s) = has_prefix sub (c ∷ s) || occurs sub s

-- How many bytes of a match come after its first.
unfoldable pub further : Bytes → ℕ
further [] = 0
further (c ∷ s) = length s

-- strings.ReplaceAll of a text that is not empty, past bytes that belong to a match.
unfoldable pub replace_from : Bytes → Bytes → ℕ → Bytes → Bytes
replace_from old by skip [] = []
replace_from old by (suc skip) (c ∷ s) = replace_from old by skip s
replace_from old by zero (c ∷ s) =
    let past = replace_from old by (further old) s in
    let kept = replace_from old by 0 s in if has_prefix old (c ∷ s) then by ++ past else c ∷ kept

unfoldable pub replace_all : Bytes → Bytes → Bytes → Bytes
replace_all old by text = replace_from old by 0 text

-- The place of a secret among those that are sorted, the longest first.
unfoldable pub place_longest : Bytes → List Bytes → List Bytes
place_longest secret [] = secret ∷ []
place_longest secret (s ∷ ss) =
    let rest = place_longest secret ss in
    if leb (length s) (length secret) then secret ∷ s ∷ ss else s ∷ rest

-- The secrets that a redactor keeps. Go leaves the order among secrets of one length open.
unfoldable pub new_redactor : List Bytes → List Bytes
new_redactor [] = []
new_redactor ([] ∷ secrets) = new_redactor secrets
new_redactor ((c ∷ s) ∷ secrets) = place_longest (c ∷ s) (new_redactor secrets)

unfoldable pub redact_each : List Bytes → Bytes → Bytes
redact_each [] text = text
redact_each (secret ∷ secrets) text = redact_each secrets (replace_all secret placeholder text)

-- A redactor that is nil leaves a text as it is.
unfoldable pub redact : Option (List Bytes) → Bytes → Bytes
redact none text = text
redact (some secrets) text = redact_each secrets text
