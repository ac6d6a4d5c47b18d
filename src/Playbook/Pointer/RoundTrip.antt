-- ===== src/Playbook/Pointer/RoundTrip.antt =====
-- playbook/values.go: a pointer written by the rules of RFC 6901 is resolved by its segments.
use gronin.Prelude.{
  ℕ, false, List, [], ◌∷◌, ◌++◌, map, append-nil, ◌≡◌, refl, ap, ◌∙◌, arith, ◌==◌, if◌then◌else◌,
  ==_iff, Bool-cases, inl, inr,
}
use gronin.Prelude.Bytes.{Bytes, contains_byte}
use gronin.Playbook.Pointer.{
  Json, push_byte, split, replace_pair, unescape, step_into, walk_segments, rest_of, at_pointer,
}

-- RFC 6901, section 3: a tilde is ~0 and a slash is ~1.
unfoldable pub escape : Bytes → Bytes
escape [] = []
escape (c ∷ s) =
    let rest = escape s in
    if c == b'~' then b'~' ∷ b'0' ∷ rest else if c == b'/' then b'~' ∷ b'1' ∷ rest else c ∷ rest

-- A slash and a segment, for each of them.
unfoldable pub pointer_to : List Bytes → Bytes
pointer_to [] = []
pointer_to (segment ∷ segments) = b'/' ∷ (escape segment ++ pointer_to segments)

-- The value at the end of a path of segments, each a name or an index.
unfoldable pub follow : Json → List Bytes → Json
follow current [] = current
follow current (segment ∷ segments) = follow (step_into current segment) segments

replace_skip :
    (a b by c : ℕ) (s : Bytes)
    → (c == a) ≡ false
    → replace_pair a b by (c ∷ s) ≡ c ∷ replace_pair a b by s
unfolding replace_pair
replace_skip a b by c [] h = refl
replace_skip a b by c (d ∷ s) h = ground arith

replace_hit :
    (a b by : ℕ) (s : Bytes) → replace_pair a b by (a ∷ b ∷ s) ≡ by ∷ replace_pair a b by s
unfolding replace_pair
replace_hit a b by s = ground arith

replace_miss :
    (a b by d : ℕ) (s : Bytes)
    → (d == b) ≡ false
    → replace_pair a b by (a ∷ d ∷ s) ≡ a ∷ replace_pair a b by (d ∷ s)
unfolding replace_pair
replace_miss a b by d s h = ground arith

-- What is left after the slashes are back.
half : Bytes → Bytes
half [] = []
half (c ∷ s) = let rest = half s in if c == b'~' then b'~' ∷ b'0' ∷ rest else c ∷ rest

replace-escape : (s : Bytes) → replace_pair b'~' b'1' b'/' (escape s) ≡ half s
unfolding escape half replace_pair
replace-escape [] = refl
replace-escape (c ∷ s) = elim (Bool-cases (c == b'~')) [
  | inl tilde ↦
      rw (tilde, escape, half)
        (replace_miss b'~' b'1' b'/' b'0' (escape s) refl
          ∙ ap (λ t. b'~' ∷ t)
              (replace_skip b'~' b'1' b'/' b'0' (escape s) refl
                ∙ ap (λ t. b'0' ∷ t) (replace-escape s)))
  | inr other ↦ elim (Bool-cases (c == b'/')) [
    | inl slash ↦
        rw (other, slash, escape, half)
          (replace_hit b'~' b'1' b'/' (escape s)
            ∙ rw ((==_iff c b'/').0 slash) (ap (λ t. b'/' ∷ t) (replace-escape s)))
    | inr plain ↦
        rw (other, plain, escape, half)
          (replace_skip b'~' b'1' b'/' c (escape s) other ∙ ap (λ t. c ∷ t) (replace-escape s))
  ]
]

replace-half : (s : Bytes) → replace_pair b'~' b'0' b'~' (half s) ≡ s
unfolding half replace_pair
replace-half [] = refl
replace-half (c ∷ s) = elim (Bool-cases (c == b'~')) [
  | inl tilde ↦
      rw (tilde, half)
        (replace_hit b'~' b'0' b'~' (half s)
          ∙ rw ((==_iff c b'~').0 tilde) (ap (λ t. b'~' ∷ t) (replace-half s)))
  | inr other ↦
      rw (other, half)
        (replace_skip b'~' b'0' b'~' c (half s) other ∙ ap (λ t. c ∷ t) (replace-half s))
]

pub unescape-escape : (s : Bytes) → unescape (escape s) ≡ s
unfolding unescape
unescape-escape s = ap (replace_pair b'~' b'0' b'~') (replace-escape s) ∙ replace-half s

escape-no_slash : (s : Bytes) → contains_byte b'/' (escape s) ≡ false
unfolding escape contains_byte
escape-no_slash [] = refl
escape-no_slash (c ∷ s) = ground (arith, escape-no_slash s)

split-piece :
    (w t : Bytes) → contains_byte b'/' w ≡ false → split b'/' (w ++ b'/' ∷ t) ≡ w ∷ split b'/' t
unfolding split contains_byte push_byte
split-piece [] t h = refl
split-piece (c ∷ w) t h = ground (arith, split-piece w t)

pub split-last : (w : Bytes) → contains_byte b'/' w ≡ false → split b'/' w ≡ w ∷ []
unfolding split contains_byte push_byte
split-last [] h = refl
split-last (c ∷ w) h = ground (arith, split-last w)

split-slash : (t : Bytes) → split b'/' (b'/' ∷ t) ≡ [] ∷ split b'/' t
unfolding split
split-slash t = refl

split-pointer :
    (segment : Bytes) (segments : List Bytes)
    → split b'/' (escape segment ++ pointer_to segments) ≡ map escape (segment ∷ segments)
unfolding pointer_to
split-pointer segment [] =
    rw (append-nil (escape segment)) (split-last (escape segment) (escape-no_slash segment))
split-pointer segment (next ∷ segments) =
    split-piece (escape segment) (escape next ++ pointer_to segments) (escape-no_slash segment)
    ∙ ap (λ t. escape segment ∷ t) (split-pointer next segments)

walk_segments-follow :
    (document : Json) (segments : List Bytes)
    → walk_segments document (map escape segments) ≡ follow document segments
unfolding walk_segments follow
walk_segments-follow document [] = refl
walk_segments-follow document (segment ∷ segments) =
    ap (λ t. walk_segments (step_into document t) (map escape segments)) (unescape-escape segment)
    ∙ walk_segments-follow (step_into document segment) segments

-- A pointer that is written from segments, with tildes and slashes escaped as RFC 6901 says,
-- resolves to the value at the end of the path of those segments, whatever bytes they hold.
pub at_pointer-pointer_to :
    (document : Json) (segments : List Bytes)
    → at_pointer document (pointer_to segments) ≡ follow document segments
unfolding at_pointer pointer_to follow
at_pointer-pointer_to document [] = refl
at_pointer-pointer_to document (segment ∷ segments) =
    ap (λ parts. walk_segments document (rest_of parts))
      (split-slash (escape segment ++ pointer_to segments))
    ∙ ap (walk_segments document) (split-pointer segment segments)
    ∙ walk_segments-follow document (segment ∷ segments)
