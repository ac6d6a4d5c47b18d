-- ===== src/Config/Reference.antt =====
-- config/interpolate.go: the references `${…}` of a text, as the pattern `\$\{([^}]*)\}` finds
-- them, and those that open and never close.
use gronin.Prelude.{
  ℕ, Bool, true, false, ◌&&◌, ◌||◌, leb, List, [], ◌∷◌, ◌++◌, Option, none, some, ◌≡◌, refl, arith,
  ◌==◌, if◌then◌else◌, ap, append_assoc, Bool-cases, inl, inr,
}
use gronin.Prelude.Bytes.{Bytes, codes, cut, contains_byte, same}

-- A text is read as the references that match, in order, and the single bytes between them.
pub data Piece : Type 0 where
  text : ℕ → Piece
  ref : Bytes → Piece

-- Where the scan stands: outside, at the brace of a reference, or inside its name.
pub data Scan : Type 0 where
  outside : Scan
  at_brace : Scan
  inside : Bytes → Scan

-- The next byte is the brace of a reference that closes.
unfoldable pub closes_after : Bytes → Bool
closes_after [] = false
closes_after (c ∷ s) = c == b'{' && contains_byte b'}' s

unfoldable pub next_scan : Scan → ℕ → Bytes → Scan
next_scan outside c s = if c == b'$' && closes_after s then at_brace else outside
next_scan at_brace c s = inside []
next_scan (inside name) c s = if c == b'}' then outside else inside (name ++ c ∷ [])

-- What the step over a byte finds.
unfoldable pub found : Scan → ℕ → Bytes → List Piece
found outside c s = if c == b'$' && closes_after s then [] else text c ∷ []
found at_brace c s = []
found (inside name) c s = if c == b'}' then ref name ∷ [] else []

unfoldable pub scan : Scan → Bytes → List Piece
scan m [] = []
scan m (c ∷ s) = found m c s ++ scan (next_scan m c s) s

-- reference.FindAllStringSubmatchIndex
unfoldable pub pieces : Bytes → List Piece
pieces = scan outside

abbrev pub opening : Bytes
opening = b'$' ∷ b'{' ∷ []

-- line[at:end] of a match
unfoldable pub written : Bytes → Bytes
written name = opening ++ (name ++ b'}' ∷ [])

unfoldable pub render : List Piece → Bytes
render [] = []
render (text c ∷ ps) = c ∷ render ps
render (ref name ∷ ps) = written name ++ render ps

unfoldable pub starts_brace : List Piece → Bool
starts_brace [] = false
starts_brace (text c ∷ _) = c == b'{'
starts_brace (ref _ ∷ _) = false

-- The text from an opening that nothing closes. Such an opening is two single bytes.
unfoldable pub unterminated : List Piece → List Bytes
unterminated [] = []
unterminated (text c ∷ ps) =
    let rest = unterminated ps in
    if c == b'$' && starts_brace ps then render (text c ∷ ps) ∷ rest else rest
unterminated (ref name ∷ ps) = unterminated ps

-- The name between the braces as its namespace and its key.
unfoldable pub namespace_key : Bytes → Option (Bytes × Bytes)
namespace_key = cut b'.'

unfoldable pub payload_key : Option (Bytes × Bytes) → List Bytes
payload_key none = []
payload_key (some (namespace, key)) = if same namespace (codes "trigger") then key ∷ [] else []

-- config.TriggerReferences
unfoldable pub trigger_references : List Piece → List Bytes
trigger_references [] = []
trigger_references (text _ ∷ ps) = trigger_references ps
trigger_references (ref name ∷ ps) = payload_key (namespace_key name) ++ trigger_references ps

-- The bytes of a configuration key, by the pattern `^[A-Za-z0-9_-]+$`.
unfoldable pub is_key_byte : ℕ → Bool
is_key_byte c =
    (leb b'A' c && leb c b'Z')
    || (leb b'a' c && leb c b'z')
    || (leb b'0' c && leb c b'9')
    || c == b'_'
    || c == b'-'

unfoldable pub all_key_bytes : Bytes → Bool
all_key_bytes [] = true
all_key_bytes (c ∷ s) = is_key_byte c && all_key_bytes s

-- config.ValidKey
unfoldable pub valid_key : Bytes → Bool
valid_key [] = false
valid_key (c ∷ s) = all_key_bytes (c ∷ s)

-- What the scan has read and not yet shown.
abbrev pending : Scan → Bytes
pending outside = []
pending at_brace = b'$' ∷ []
pending (inside name) = opening ++ name

-- A name that is open has a brace to come.
abbrev Closes : Scan → Bytes → Type 0
Closes outside s = Unit {0}
Closes at_brace s = closes_after s ≡ true
Closes (inside name) s = contains_byte b'}' s ≡ true

==-eq : (a b : ℕ) → (a == b) ≡ true → a ≡ b
==-eq a b e = ground arith

render-append : (ps qs : List Piece) → render (ps ++ qs) ≡ render ps ++ render qs
unfolding render
render-append [] qs = refl
render-append (text c ∷ ps) qs = cc (render-append ps qs)
render-append (ref name ∷ ps) qs = simp (render-append ps qs, append_assoc)

scan-render : (m : Scan) (s : Bytes) → Closes m s → render (scan m s) ≡ pending m ++ s
unfolding scan render found next_scan closes_after contains_byte written
scan-render outside [] h = refl
scan-render at_brace [] h = ground arith
scan-render (inside name) [] h = ground arith
scan-render outside (c ∷ s) h = ground (arith, scan-render at_brace s, scan-render outside s tt)
scan-render at_brace (c ∷ s) h = ground (arith, scan-render (inside []) s)
scan-render (inside name) (c ∷ s) h = elim (Bool-cases (c == b'}')) [
  | inl e ↦
      rw e (rw (scan-render outside s tt, ==-eq c b'}' e, append_assoc name (b'}' ∷ []) s) refl)
  | inr e ↦ rw e (
      rw (scan-render (inside (name ++ c ∷ [])) s (rw e at h))
        (ap (λ t. b'$' ∷ b'{' ∷ t) (append_assoc name (c ∷ []) s)))
]

-- The pieces of a text, written one after the other, are the text.
pub pieces-render : (s : Bytes) → render (pieces s) ≡ s
unfolding pieces
pieces-render s = scan-render outside s tt
