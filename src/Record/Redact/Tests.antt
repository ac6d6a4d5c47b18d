-- ===== src/Record/Redact/Tests.antt =====
-- Tests and examples of the redactor of record/redact.go.
use gronin.Prelude.{List, true, false, [], ◌∷◌, some, none, ◌≡◌, refl}
use gronin.Prelude.Bytes.{Bytes, codes, same, has_prefix, member, contains_byte}
use gronin.Record.Redact.{
  occurs, further, replace_from, replace_all, place_longest, new_redactor, redact_each, redact,
}
use gronin.Record.Redact.Hidden.{redact-hides}

-- A token, the address that holds it, and no text.
abbrev secrets : List Bytes
secrets = codes "t0k" ∷ [] ∷ codes "host/t0k" ∷ []

redact_longest :
    redact (some (new_redactor secrets)) (codes "at host/t0k, t0kt0k")
    ≡ codes "at [redacted], [redacted][redacted]"
unfolding redact redact_each replace_all replace_from further has_prefix new_redactor place_longest
redact_longest = refl

redact_nil : redact none (codes "t0k") ≡ codes "t0k"
unfolding redact
redact_nil = refl

-- A secret that is part of the placeholder stays where the placeholder is.
redact_part :
    occurs (codes "act") (redact (some (new_redactor (codes "act" ∷ codes "x" ∷ []))) (codes "x"))
    ≡ true
unfolding redact redact_each replace_all replace_from further has_prefix new_redactor place_longest
    occurs
redact_part = refl

redact-hides_example :
    occurs (codes "t0k") (redact (some (new_redactor secrets)) (codes "t0t0kk")) ≡ false
unfolding member same contains_byte occurs has_prefix
redact-hides_example = redact-hides secrets (codes "t0k") (codes "t0t0kk") refl refl refl refl refl
