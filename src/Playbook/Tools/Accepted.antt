-- ===== src/Playbook/Tools/Accepted.antt =====
-- playbook/validate.go: what an agent may use that the gate does not refuse.
use gronin.Prelude.{true, false, List, ◌++◌, some, ◌≡◌, ◌⊎◌}
use gronin.Prelude.Bytes.{Bytes, member}
use gronin.Playbook.Pointer.{split}
use gronin.Playbook.Scope.{clean_from}
use gronin.Playbook.Scope.Stays.{run}
use gronin.Playbook.Tools.{read_only_tools, mcp_shape, scoped_tool}

-- An entry names one tool of a server that the deployment provides.
abbrev pub NamesTool : List Bytes → Bytes → Type 0
NamesTool servers entry =
    (server : Bytes) × (mcp_shape entry ≡ some (server, false)) × (member server servers ≡ true)

-- An entry scopes a tool that only reads to below any working directory, but for a scope that
-- names a directory `run`.
abbrev pub ScopesBelow : Bytes → Type 0
ScopesBelow entry =
    (tool : Bytes) × (scope : Bytes) × (scoped_tool entry ≡ some (tool, scope))
    × (member tool read_only_tools ≡ true)
    × ((member run (split b'/' scope) ≡ true)
        ⊎ ((w : List Bytes) → (q : List Bytes) × (clean_from w (split b'/' scope) ≡ q ++ w)))
