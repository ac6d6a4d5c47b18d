-- ===== src/Record/Redact/Hidden.antt =====
-- record/redact.go: what a text that was redacted does not hold.
use gronin.Prelude.{
  ℕ, zero, suc, Bool, true, false, ◌||◌, List, [], ◌∷◌, ◌++◌, some, ◌≡◌, refl, sym, ap, ◌∙◌, arith,
  Bool-cases, inl, inr,
}
use gronin.Prelude.Bytes.{Bytes, codes, same, same-eq, has_prefix, member, contains_byte}
use gronin.Record.Redact.{
  placeholder, occurs, further, replace_from, replace_all, place_longest, new_redactor, redact_each,
  redact,
}

-- A text that a border byte closes keeps, for a text without that byte, what occurs before and after.
has_prefix-border :
    (t u rest : Bytes) (mark : ℕ)
    → contains_byte mark t ≡ false
    → has_prefix t (u ++ (mark ∷ rest)) ≡ has_prefix t u
unfolding has_prefix contains_byte
has_prefix-border [] u rest mark h = refl
has_prefix-border (c ∷ t) [] rest mark h = ground arith
has_prefix-border (c ∷ t) (d ∷ u) rest mark h = ground (arith, has_prefix-border t u rest mark)

-- A secret that no border of the placeholder can touch.
abbrev pub Untouched : Bytes → Type 0
Untouched t =
    (has_prefix t [] ≡ false)
    × (contains_byte b'[' t ≡ false)
    × (contains_byte b']' t ≡ false)
    × (occurs t placeholder ≡ false)

occurs-border :
    (t u rest : Bytes) (mark : ℕ)
    → has_prefix t [] ≡ false
    → contains_byte mark t ≡ false
    → occurs t (u ++ (mark ∷ rest)) ≡ (occurs t u || occurs t rest)
unfolding occurs
occurs-border t [] rest mark e h = ground (arith, has_prefix-border t [] rest mark h)
occurs-border t (c ∷ u) rest mark e h =
    ground (arith, has_prefix-border t (c ∷ u) rest mark h, occurs-border t u rest mark e h)

occurs-placeholder : (t rest : Bytes) → Untouched t → occurs t (placeholder ++ rest) ≡ occurs t rest
occurs-placeholder t rest (e, starts, ends, out) =
    occurs-border t (codes "[redacted") rest b']' e ends
    ∙ ap (λ b. b || occurs t rest)
        (left _ _ (sym (occurs-border t (codes "[redacted") [] b']' e ends) ∙ out))
  where
    left : (a b : Bool) → (a || b) ≡ false → a ≡ false
    left a b h = ground arith

or_right : (a b : Bool) → b ≡ true → (a || b) ≡ true
or_right a b h = ground arith

or_both :
    (a b c d : Bool)
    → (a ≡ true → c ≡ true)
    → (b ≡ true → d ≡ true)
    → (a || b) ≡ true
    → (c || d) ≡ true
or_both a b c d h k e = ground arith

or_neither : (a b : Bool) → a ≡ false → b ≡ false → (a || b) ≡ false
or_neither a b h k = ground arith

from_true : (a b : Bool) → (a ≡ true → b ≡ true) → b ≡ false → a ≡ false
from_true a b h k = ground arith

module _ (old : Bytes) where
  replace_hit :
      (c : ℕ) (s : Bytes)
      → has_prefix old (c ∷ s) ≡ true
      → replace_from old placeholder 0 (c ∷ s)
        ≡ placeholder ++ replace_from old placeholder (further old) s
  unfolding replace_from
  replace_hit c s h = rw h refl

  replace_miss :
      (c : ℕ) (s : Bytes)
      → has_prefix old (c ∷ s) ≡ false
      → replace_from old placeholder 0 (c ∷ s) ≡ c ∷ replace_from old placeholder 0 s
  unfolding replace_from
  replace_miss c s h = rw h refl

  -- What a replaced text begins with, the text began with.
  has_prefix-replace_from :
      (t s : Bytes)
      → contains_byte b'[' t ≡ false
      → has_prefix t (replace_from old placeholder 0 s) ≡ true
      → has_prefix t s ≡ true
  unfolding replace_from has_prefix contains_byte
  has_prefix-replace_from [] s h e = refl
  has_prefix-replace_from (d ∷ t) [] h e = e
  has_prefix-replace_from (d ∷ t) (c ∷ s) h e = ground (arith, has_prefix-replace_from t s)

  -- A replacement brings in no secret that the placeholder cannot touch.
  occurs-replace_from :
      (t : Bytes) (skip : ℕ) (s : Bytes)
      → Untouched t
      → occurs t (replace_from old placeholder skip s) ≡ true
      → occurs t s ≡ true
  unfolding replace_from occurs
  occurs-replace_from t zero [] h e = e
  occurs-replace_from t (suc skip) [] h e = e
  occurs-replace_from t (suc skip) (c ∷ s) h e = ground (arith, occurs-replace_from t skip s h)
  occurs-replace_from t zero (c ∷ s) h e = elim (Bool-cases (has_prefix old (c ∷ s))) [
    | inl hit ↦ or_right _ _ (
        occurs-replace_from t (further old) s h
          (sym (occurs-placeholder t _ h) ∙ ap (occurs t) (sym (replace_hit c s hit)) ∙ e))
    | inr miss ↦
        or_both _ _ _ _
          (λ k.
            has_prefix-replace_from t (c ∷ s) h.1 (ap (has_prefix t) (replace_miss c s miss) ∙ k))
          (occurs-replace_from t 0 s h) (ap (occurs t) (sym (replace_miss c s miss)) ∙ e)
  ]

  -- A secret that is replaced occurs no more.
  replace_from-none :
      (skip : ℕ) (s : Bytes)
      → Untouched old
      → occurs old (replace_from old placeholder skip s) ≡ false
  unfolding replace_from occurs
  replace_from-none zero [] h = h.0
  replace_from-none (suc skip) [] h = h.0
  replace_from-none (suc skip) (c ∷ s) h = replace_from-none skip s h
  replace_from-none zero (c ∷ s) h = elim (Bool-cases (has_prefix old (c ∷ s))) [
    | inl hit ↦
        ap (occurs old) (replace_hit c s hit)
        ∙ occurs-placeholder old _ h
        ∙ replace_from-none (further old) s h
    | inr miss ↦
        ap (occurs old) (replace_miss c s miss)
        ∙ or_neither _ _
            (from_true _ _
              (λ k.
                has_prefix-replace_from old (c ∷ s) h.1
                  (ap (has_prefix old) (replace_miss c s miss) ∙ k))
              miss)
            (replace_from-none 0 s h)
  ]

redact_each-keeps :
    (t : Bytes) (secrets : List Bytes) (text : Bytes)
    → Untouched t
    → occurs t text ≡ false
    → occurs t (redact_each secrets text) ≡ false
unfolding redact_each replace_all
redact_each-keeps t [] text h e = e
redact_each-keeps t (secret ∷ secrets) text h e =
    redact_each-keeps t secrets (replace_all secret placeholder text) h
      (from_true _ _ (occurs-replace_from secret t 0 text h) e)

redact_each-none :
    (t : Bytes) (secrets : List Bytes) (text : Bytes)
    → Untouched t
    → member t secrets ≡ true
    → occurs t (redact_each secrets text) ≡ false
unfolding redact_each replace_all member
redact_each-none t [] text h there = ground arith
redact_each-none t (secret ∷ secrets) text h there = elim (Bool-cases (same secret t)) [
  | inl here ↦ redact_each-keeps t secrets (replace_all secret placeholder text) h (
      ap (λ old. occurs t (replace_from old placeholder 0 text)) (same-eq secret t here)
      ∙ replace_from-none t 0 text h)
  | inr past ↦ redact_each-none t secrets (replace_all secret placeholder text) h (ground arith)
]

member-place_longest :
    (t s : Bytes) (ss : List Bytes) → member t (place_longest s ss) ≡ (same s t || member t ss)
unfolding member place_longest
member-place_longest t s [] = refl
member-place_longest t s (u ∷ us) = ground (arith, member-place_longest t s us)

member-new_redactor :
    (t : Bytes) (secrets : List Bytes)
    → has_prefix t [] ≡ false
    → member t secrets ≡ true
    → member t (new_redactor secrets) ≡ true
unfolding member new_redactor same has_prefix
member-new_redactor [] secrets e there = ground arith
member-new_redactor (a ∷ t) [] e there = ground arith
member-new_redactor (a ∷ t) ([] ∷ secrets) e there = member-new_redactor (a ∷ t) secrets refl there
member-new_redactor (a ∷ t) ((c ∷ s) ∷ secrets) e there = ground (
  arith,
  member-place_longest (a ∷ t) (c ∷ s) (new_redactor secrets),
  member-new_redactor (a ∷ t) secrets,
)

begins : (s : Bytes) → same s [] ≡ false → has_prefix s [] ≡ false
unfolding same has_prefix
begins [] h = ground arith
begins (c ∷ s) h = refl

-- A configured secret that is not empty, holds no square bracket and is no part of the placeholder
-- does not occur in a text that was redacted, whatever the other secrets are.
pub redact-hides :
    (secrets : List Bytes) (secret text : Bytes)
    → member secret secrets ≡ true
    → same secret [] ≡ false
    → contains_byte b'[' secret ≡ false
    → contains_byte b']' secret ≡ false
    → occurs secret placeholder ≡ false
    → occurs secret (redact (some (new_redactor secrets)) text) ≡ false
unfolding redact
redact-hides secrets secret text there holds starts ends out =
    let bare = begins secret holds in
    redact_each-none secret (new_redactor secrets) text (bare, starts, ends, out)
      (member-new_redactor secret secrets bare there)
