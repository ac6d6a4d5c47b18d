-- ===== src/Config/Shell/Quotes.antt =====
-- config/shell.go: the quoting of a POSIX shell line, as a machine of its own, and the agreement of
-- `quoted` with it.
use gronin.Prelude.{
  ℕ, true, false, ◌&&◌, ◌||◌, List, [], ◌∷◌, ◌++◌, map, ◌≡◌, ◌≢◌, refl, arith, ◌==◌, if◌then◌else◌,
  ap,
}
use gronin.Prelude.Bytes.{Bytes}
use gronin.Config.Reference.{is_key_byte, all_key_bytes}
use gronin.Config.Shell.{Quoting, quote_step, quoting, quoted, upper, env_byte, env_safe}

-- What a byte of a shell line stands in.
pub data Context : Type 0 where
  plain escape single double double_escape : Context

abbrev pub after_plain : ℕ → Context
after_plain c =
    if c == b'\\'
    then escape
    else if c == b'\''
    then single
    else if c == b'"'
    then double
    else plain

abbrev pub after_double : ℕ → Context
after_double c = if c == b'\\' then double_escape else if c == b'"' then plain else double

unfoldable pub next_context : Context → ℕ → Context
next_context plain c = after_plain c
next_context escape c = plain
next_context single c = if c == b'\'' then plain else single
next_context double c = after_double c
next_context double_escape c = double

unfoldable pub context_after : Context → Bytes → Context
context_after k [] = k
context_after k (c ∷ s) = context_after (next_context k c) s

-- Each byte with what it stands in.
unfoldable pub tag : Context → Bytes → List (Context × ℕ)
tag k [] = []
tag k (c ∷ s) = (k, c) ∷ tag (next_context k c) s

abbrev pub as_quoting : Context → Quoting
as_quoting plain = record { single = false; double = false; skip = false }
as_quoting escape = record { single = false; double = false; skip = true }
as_quoting single = record { single = true; double = false; skip = false }
as_quoting double = record { single = false; double = true; skip = false }
as_quoting double_escape = record { single = false; double = true; skip = true }

quote_step-context :
    (k : Context) (c : ℕ) → quote_step (as_quoting k) c ≡ as_quoting (next_context k c)
unfolding quote_step next_context
quote_step-context plain c = ground arith
quote_step-context escape c = refl
quote_step-context single c = ground arith
quote_step-context double c = ground arith
quote_step-context double_escape c = refl

-- The code's scan is the machine.
pub quoting-context :
    (s : Bytes) (k : Context) → quoting (as_quoting k) s ≡ as_quoting (context_after k s)
unfolding quoting context_after
quoting-context [] k = refl
quoting-context (c ∷ s) k = rw (quote_step-context k c) (quoting-context s (next_context k c))

pub context_after-append :
    (s t : Bytes) (k : Context) → context_after k (s ++ t) ≡ context_after (context_after k s) t
unfolding context_after
context_after-append [] t k = refl
context_after-append (c ∷ s) t k = context_after-append s t (next_context k c)

pub tag-append : (s t : Bytes) (k : Context) → tag k (s ++ t) ≡ tag k s ++ tag (context_after k s) t
unfolding context_after tag
tag-append [] t k = refl
tag-append (c ∷ s) t k = ap (λ rest. (k, c) ∷ rest) (tag-append s t (next_context k c))

-- Where the code finds no quotes, the byte is plain or escaped.
pub quoted-plain :
    (s : Bytes) → quoted s ≡ false → context_after plain s ≢ escape → context_after plain s ≡ plain
unfolding quoted
quoted-plain s e h = unquoted_plain (context_after plain s) (rw (quoting-context s plain) at e) h
  where
    unquoted_plain :
        (k : Context)
        → ((as_quoting k).single || (as_quoting k).double) ≡ false
        → k ≢ escape
        → k ≡ plain
    unquoted_plain plain e h = refl
    unquoted_plain escape e h = absurd (h refl)
    unquoted_plain single e h = cc
    unquoted_plain double e h = cc
    unquoted_plain double_escape e h = cc

-- Key bytes are no quotes: the machine stands still over them.
pub context_after-key : (s : Bytes) → all_key_bytes s ≡ true → context_after plain s ≡ plain
unfolding all_key_bytes is_key_byte context_after next_context
context_after-key [] h = refl
context_after-key (c ∷ s) h = ground (arith, context_after-key s)

pub tag-key : (s : Bytes) → all_key_bytes s ≡ true → tag double s ≡ map (λ c. (double, c)) s
unfolding all_key_bytes is_key_byte tag next_context
tag-key [] h = refl
tag-key (c ∷ s) h = ground (arith, tag-key s)

pub context_after_double-key :
    (s : Bytes) → all_key_bytes s ≡ true → context_after double s ≡ double
unfolding all_key_bytes is_key_byte context_after next_context
context_after_double-key [] h = refl
context_after_double-key (c ∷ s) h = ground (arith, context_after_double-key s)

pub all_key_bytes-append :
    (s t : Bytes) → all_key_bytes (s ++ t) ≡ (all_key_bytes s && all_key_bytes t)
unfolding all_key_bytes
all_key_bytes-append [] t = refl
all_key_bytes-append (c ∷ s) t = ground (arith, all_key_bytes-append s t)

pub all_key_bytes-env_safe :
    (s : Bytes) → all_key_bytes s ≡ true → all_key_bytes (env_safe s) ≡ true
unfolding all_key_bytes is_key_byte env_safe env_byte upper
all_key_bytes-env_safe [] h = refl
all_key_bytes-env_safe (c ∷ s) h = ground (arith, all_key_bytes-env_safe s)
