-- ===== src/Playbook/Scope.antt =====
-- playbook/validate.go: `insideWorkingDirectory`, which resolves the scope of a file tool against a
-- notional working directory.
pub mod Stays
pub mod Inside
use gronin.Prelude.{ℕ, Bool, true, false, ◌||◌, ◌&&◌, not, List, [], ◌∷◌, ◌++◌, ◌==◌, if◌then◌else◌}
use gronin.Prelude.Bytes.{Bytes, codes, same, has_prefix}
use gronin.Playbook.Pointer.{split}

-- The directory above, which the root has not.
unfoldable pub up : List Bytes → List Bytes
up [] = []
up (s ∷ ss) = ss

-- How one segment of a rooted path moves what is resolved so far, the last segment first.
unfoldable pub clean_step : Bytes → List Bytes → List Bytes
clean_step segment stack =
    if same segment [] || same segment (codes ".")
    then stack
    else if same segment (codes "..")
    then up stack
    else segment ∷ stack

unfoldable pub clean_from : List Bytes → List Bytes → List Bytes
clean_from stack [] = stack
clean_from stack (segment ∷ segments) = clean_from (clean_step segment stack) segments

-- A rooted path, from its segments with the last first.
unfoldable pub path_of : List Bytes → Bytes
path_of [] = []
path_of (s ∷ ss) = path_of ss ++ (b'/' ∷ s)

unfoldable pub rooted : Bytes → Bytes
rooted [] = codes "/"
rooted (c ∷ s) = c ∷ s

abbrev pub root : Bytes
root = codes "/run"

-- filepath.Clean(filepath.Join(root, scope))
unfoldable pub resolved : Bytes → Bytes
resolved scope = rooted (path_of (clean_from (codes "run" ∷ []) (split b'/' scope)))

unfoldable pub inside_working_directory : Bytes → Bool
inside_working_directory scope =
    if has_prefix (codes "/") scope
    then false
    else if has_prefix (codes "~") scope
    then false
    else same (resolved scope) root || has_prefix (root ++ codes "/") (resolved scope)
