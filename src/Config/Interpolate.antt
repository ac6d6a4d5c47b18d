-- ===== src/Config/Interpolate.antt =====
-- config/interpolate.go: `Interpolate`, which puts the values of the references into a text.
use gronin.Prelude.{
  Bool, false, ◌||◌, List, [], ◌∷◌, ◌++◌, map, none, some, if◌then◌else◌, Result, ok, err,
}
use gronin.Prelude.Bytes.{Bytes, Entries, has_prefix}
use gronin.Config.Reference.{
  Piece, text, ref, pieces, opening, written, unterminated, namespace_key,
}
use gronin.Config.Shell.{Refused, resolve}

-- strings.Contains(name, "${")
unfoldable pub holds_opening : Bytes → Bool
holds_opening [] = false
holds_opening (c ∷ s) = has_prefix opening (c ∷ s) || holds_opening s

-- Why one reference is refused.
pub data Problem : Type 0 where
  unclosed nested : Bytes → Problem
  refused : Refused → Problem

-- The text of a match, or why it stays.
unfoldable pub filled : Entries Bytes → Entries Bytes → Bytes → Result Problem Bytes
filled values payload name =
    if holds_opening name then err (Problem.nested name) else elim (namespace_key name) [
      | none ↦ err (Problem.refused (Refused.no_source name))
      | some (namespace, key) ↦ elim (resolve values payload namespace key name) [
        | err why ↦ err (Problem.refused why)
        | ok value ↦ ok value
      ]
    ]

unfoldable pub add_filled :
    Bytes → Result Problem Bytes → List Problem × Bytes → List Problem × Bytes
add_filled name (err why) (problems, out) = (why ∷ problems, written name ++ out)
add_filled name (ok value) (problems, out) = (problems, value ++ out)

-- reference.ReplaceAllStringFunc, with the problems in the order of the matches.
unfoldable pub fill_each : Entries Bytes → Entries Bytes → List Piece → List Problem × Bytes
fill_each values payload [] = ([], [])
fill_each values payload (text c ∷ ps) =
    let (problems, out) = fill_each values payload ps in (problems, c ∷ out)
fill_each values payload (ref name ∷ ps) =
    add_filled name (filled values payload name) (fill_each values payload ps)

unfoldable pub unless_refused : List Problem → Bytes → Result (List Problem) Bytes
unless_refused [] out = ok out
unless_refused (why ∷ more) out = err (why ∷ more)

unfoldable pub interpolate : Entries Bytes → Entries Bytes → Bytes → Result (List Problem) Bytes
interpolate values payload body =
    let (problems, out) = fill_each values payload (pieces body) in
    unless_refused (map Problem.unclosed (unterminated (pieces body)) ++ problems) out
