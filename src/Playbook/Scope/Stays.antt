-- ===== src/Playbook/Scope/Stays.antt =====
-- playbook/validate.go: where a scope that is accepted lies, in a working directory of any name.
use gronin.Prelude.{
  ℕ, Bool, true, false, ◌||◌, ◌&&◌, not, List, [], ◌∷◌, ◌++◌, ◌≡◌, refl, sym, ap, ◌∙◌, arith, ◌==◌,
  Bool-cases, inl, inr, ◌⊎◌, append_assoc, append-nil,
}
use gronin.Prelude.Bytes.{Bytes, codes, same, same_refl, has_prefix, member, contains_byte}
use gronin.Playbook.Pointer.{split, push_byte}
use gronin.Playbook.Scope.{up, clean_step, clean_from, path_of}

abbrev pub run : Bytes
run = codes "run"

-- A segment holds no slash.
unfoldable pub no_slashes : List Bytes → Bool
no_slashes [] = true
no_slashes (s ∷ ss) = not (contains_byte b'/' s) && no_slashes ss

true-ne-false : true ≡ false → ⊥
true-ne-false e = cc

-- A path whose text begins with a segment begins with that segment.
pub same-segment :
    (w f rest : Bytes)
    → contains_byte b'/' w ≡ false
    → (rest ≡ []) ⊎ ((r : Bytes) × (rest ≡ b'/' ∷ r))
    → same (f ++ rest) w ≡ true
    → f ≡ w
unfolding same contains_byte
same-segment [] [] rest h k e = refl
same-segment [] (c ∷ f) rest h k e = ground arith
same-segment (a ∷ w) [] rest h (inl k) e = ground arith
same-segment (a ∷ w) [] rest h (inr (r, k)) e = ground arith
same-segment (a ∷ w) (c ∷ f) rest h k e = ground (arith, same-segment w f rest)

pub prefix-segment :
    (w f rest : Bytes)
    → contains_byte b'/' w ≡ false
    → contains_byte b'/' f ≡ false
    → (rest ≡ []) ⊎ ((r : Bytes) × (rest ≡ b'/' ∷ r))
    → has_prefix (w ++ b'/' ∷ []) (f ++ rest) ≡ true
    → f ≡ w
unfolding has_prefix contains_byte
prefix-segment [] [] rest h g k e = refl
prefix-segment [] (c ∷ f) rest h g k e = ground arith
prefix-segment (a ∷ w) [] rest h g (inl k) e = ground arith
prefix-segment (a ∷ w) [] rest h g (inr (r, k)) e = ground arith
prefix-segment (a ∷ w) (c ∷ f) rest h g k e = ground (arith, prefix-segment w f rest)

-- The text of a path, by its first segment.
pub record First (stack : List Bytes) : Type 0 where
  pub segment : Bytes
  pub rest : Bytes
  pub there : member segment stack ≡ true
  pub bare : contains_byte b'/' segment ≡ false
  pub path : path_of stack ≡ b'/' ∷ (segment ++ rest)
  pub ends : (rest ≡ []) ⊎ ((r : Bytes) × (rest ≡ b'/' ∷ r))

ends-append :
    (rest s : Bytes)
    → (rest ≡ []) ⊎ ((r : Bytes) × (rest ≡ b'/' ∷ r))
    → (r : Bytes) × (rest ++ b'/' ∷ s ≡ b'/' ∷ r)
ends-append rest s (inl e) = (s, rw e refl)
ends-append rest s (inr (r, e)) = (r ++ b'/' ∷ s, rw e refl)

pub path-First : (s : Bytes) (ss : List Bytes) → no_slashes (s ∷ ss) ≡ true → First (s ∷ ss)
unfolding no_slashes path_of member
path-First s [] h = record {
  segment = s;
  rest = [];
  there = rw (same_refl s) refl;
  bare = ground arith;
  path = ap (λ t. b'/' ∷ t) (sym (append-nil s));
  ends = inl refl;
}
path-First s (t ∷ ss) h =
    let f = path-First t ss (ground arith) in
    record {
      segment = f.segment;
      rest = f.rest ++ b'/' ∷ s;
      there = ground (arith, f.there);
      bare = f.bare;
      path =
          ap (λ u. u ++ b'/' ∷ s) f.path
          ∙ ap (λ u. b'/' ∷ u) (append_assoc f.segment f.rest (b'/' ∷ s));
      ends = inr (ends-append f.rest s f.ends);
    }

module _ (w : List Bytes) where
  -- From a directory `w` the resolution moves as it does from `/run`, as long as it stays below.
  clean_step-below :
      (segment : Bytes) (p : List Bytes)
      → (clean_step segment (p ++ run ∷ []) ≡ [])
        ⊎ ((q : List Bytes) × (clean_step segment (p ++ run ∷ []) ≡ q ++ run ∷ [])
            × (clean_step segment (p ++ w) ≡ q ++ w))
  unfolding clean_step up
  clean_step-below segment p = elim (Bool-cases (same segment [] || same segment (codes "."))) [
    | inl stays ↦ inr (p, rw stays refl, rw stays refl)
    | inr moves ↦ elim (Bool-cases (same segment (codes ".."))) [
      | inl above ↦ parent p above moves
      | inr into ↦ inr (segment ∷ p, rw (moves, into) refl, rw (moves, into) refl)
    ]
  ]
    where
      parent :
          (p : List Bytes)
          → same segment (codes "..") ≡ true
          → (same segment [] || same segment (codes ".")) ≡ false
          → (clean_step segment (p ++ run ∷ []) ≡ [])
            ⊎ ((q : List Bytes) × (clean_step segment (p ++ run ∷ []) ≡ q ++ run ∷ [])
                × (clean_step segment (p ++ w) ≡ q ++ w))
      parent [] above moves = inl (rw (moves, above) refl)
      parent (x ∷ p') above moves = inr (p', rw (moves, above) refl, rw (moves, above) refl)

-- Without the segment `run`, a path that has left `/run` does not come back.
clean_step-gone :
    (segment : Bytes) (stack : List Bytes)
    → same segment run ≡ false
    → member run stack ≡ false
    → member run (clean_step segment stack) ≡ false
unfolding clean_step up member
clean_step-gone segment [] h k = ground arith
clean_step-gone segment (s ∷ ss) h k = ground arith

clean_from-gone :
    (segments stack : List Bytes)
    → member run segments ≡ false
    → member run stack ≡ false
    → member run (clean_from stack segments) ≡ false
unfolding clean_from member
clean_from-gone [] stack h k = k
clean_from-gone (segment ∷ segments) stack h k =
    clean_from-gone segments (clean_step segment stack) (ground arith)
      (clean_step-gone segment stack (ground arith) k)

clean_step-no_slashes :
    (segment : Bytes) (stack : List Bytes)
    → contains_byte b'/' segment ≡ false
    → no_slashes stack ≡ true
    → no_slashes (clean_step segment stack) ≡ true
unfolding clean_step up no_slashes
clean_step-no_slashes segment [] h k = ground arith
clean_step-no_slashes segment (s ∷ ss) h k = ground arith

pub clean_from-no_slashes :
    (segments stack : List Bytes)
    → no_slashes segments ≡ true
    → no_slashes stack ≡ true
    → no_slashes (clean_from stack segments) ≡ true
unfolding clean_from no_slashes
clean_from-no_slashes [] stack h k = k
clean_from-no_slashes (segment ∷ segments) stack h k =
    clean_from-no_slashes segments (clean_step segment stack) (ground arith)
      (clean_step-no_slashes segment stack (ground arith) k)

push_byte-no_slashes :
    (c : ℕ) (ss : List Bytes)
    → (c == b'/') ≡ false
    → no_slashes ss ≡ true
    → no_slashes (push_byte c ss) ≡ true
unfolding push_byte no_slashes contains_byte
push_byte-no_slashes c [] h k = ground arith
push_byte-no_slashes c (s ∷ ss) h k = ground arith

pub split-no_slashes : (s : Bytes) → no_slashes (split b'/' s) ≡ true
unfolding split no_slashes contains_byte
split-no_slashes [] = refl
split-no_slashes (c ∷ s) = ground (arith, split-no_slashes s, push_byte-no_slashes c (split b'/' s))

module _ (w : List Bytes) where
  pub clean_from-below :
      (segments p : List Bytes)
      → member run segments ≡ false
      → member run (clean_from (p ++ run ∷ []) segments) ≡ true
      → (q : List Bytes) × (clean_from (p ++ w) segments ≡ q ++ w)
  unfolding clean_from member
  clean_from-below [] p h k = (p, refl)
  clean_from-below (segment ∷ segments) p h k = elim (clean_step-below w segment p) [
    | inl gone ↦ absurd (
        true-ne-false (
          sym k
          ∙ ap (λ t. member run (clean_from t segments)) gone
          ∙ clean_from-gone segments [] (ground arith) refl))
    | inr (q, here, there) ↦
        let (rest, e) =
          clean_from-below segments q (ground arith)
            (ap (λ t. member run (clean_from t segments)) (sym here) ∙ k) in
        (rest, ap (λ t. clean_from t segments) there ∙ e)
  ]
