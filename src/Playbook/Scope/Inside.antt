-- ===== src/Playbook/Scope/Inside.antt =====
-- playbook/validate.go: what a scope that `insideWorkingDirectory` accepts resolves to.
use gronin.Prelude.{
  Bool, true, false, ◌||◌, List, [], ◌∷◌, ◌++◌, ◌≡◌, refl, sym, ap, ◌∙◌, arith, if◌then◌else◌,
  Bool-cases, inl, inr, ◌⊎◌,
}
use gronin.Prelude.Bytes.{Bytes, codes, same, has_prefix, member, contains_byte}
use gronin.Playbook.Pointer.{split, push_byte}
use gronin.Playbook.Pointer.RoundTrip.{split-last}
use gronin.Playbook.Scope.{
  up, clean_step, clean_from, path_of, rooted, root, resolved, inside_working_directory,
}
use gronin.Playbook.Scope.Stays.{
  run, path-First, same-segment, prefix-segment, no_slashes, clean_from-no_slashes,
  split-no_slashes, clean_from-below,
}

at_root :
    (t : Bytes)
    → (same (b'/' ∷ t) root || has_prefix (root ++ codes "/") (b'/' ∷ t)) ≡ true
    → (same t run ≡ true) ⊎ (has_prefix (run ++ b'/' ∷ []) t ≡ true)
unfolding same has_prefix
at_root t h = elim (Bool-cases (same t run)) [ inl p ↦ inl p | inr p ↦ inr (ground arith) ]

rooted-run :
    (stack : List Bytes)
    → no_slashes stack ≡ true
    → (same (rooted (path_of stack)) root
        || has_prefix (root ++ codes "/") (rooted (path_of stack)))
      ≡ true
    → member run stack ≡ true
unfolding contains_byte rooted path_of same has_prefix
rooted-run [] h e = ground arith
rooted-run (s ∷ ss) h e =
    let f = path-First s ss h in
    elim (at_root (f.segment ++ f.rest) (
      ap (λ t. same (rooted t) root || has_prefix (root ++ codes "/") (rooted t)) (sym f.path)
      ∙ e)) [
        | inl p ↦
            ap (λ t. member t (s ∷ ss)) (sym (same-segment run f.segment f.rest refl f.ends p))
            ∙ f.there
        | inr p ↦
            ap (λ t. member t (s ∷ ss))
              (sym (prefix-segment run f.segment f.rest refl f.bare f.ends p))
            ∙ f.there
      ]

third : (a b c : Bool) → (if a then false else if b then false else c) ≡ true → c ≡ true
third a b c h = ground arith

-- A scope that is accepted, and of which no segment is `run`, resolves below the working
-- directory from a directory of any name.
pub inside-below :
    (scope : Bytes) (w : List Bytes)
    → inside_working_directory scope ≡ true
    → member run (split b'/' scope) ≡ false
    → (q : List Bytes) × (clean_from w (split b'/' scope) ≡ q ++ w)
unfolding inside_working_directory resolved no_slashes contains_byte
inside-below scope w accepted no_run = clean_from-below w (split b'/' scope) [] no_run (
    rooted-run (clean_from (run ∷ []) (split b'/' scope))
      (clean_from-no_slashes (split b'/' scope) (run ∷ []) (split-no_slashes scope) refl)
      (third (has_prefix (codes "/") scope) (has_prefix (codes "~") scope) _ accepted))

-- A scope that leaves the working directory and goes on into a sibling named `run` is accepted.
pub inside_sibling :
    (w : List Bytes) (d s : Bytes)
    → contains_byte b'/' s ≡ false
    → (same s [] || same s (codes ".")) ≡ false
    → same s (codes "..") ≡ false
    → (inside_working_directory (codes "../run/" ++ s) ≡ true)
      × (clean_from (d ∷ w) (split b'/' (codes "../run/" ++ s)) ≡ s ∷ run ∷ w)
unfolding inside_working_directory resolved split push_byte has_prefix clean_from clean_step up
    rooted path_of same
inside_sibling w d s bare moves into =
    (rw (split-last s bare) (rw (moves, into) refl), rw (split-last s bare) (rw (moves, into) refl))
