-- ===== src/Playbook/Tools.antt =====
-- playbook/validate.go: what the gate says of the tools, the allowed entries and the servers of an
-- agent.
pub mod Accepted
use gronin.Prelude.{
  ℕ, suc, ◌+◌, Bool, true, false, ◌||◌, ◌&&◌, not, List, [], ◌∷◌, ◌++◌, Option, none, some, ◌==◌,
  leb, if◌then◌else◌,
}
use gronin.Prelude.Bytes.{Bytes, codes, cut, same, member, contains_byte}
use gronin.Config.Reference.{is_key_byte, all_key_bytes}
use gronin.Playbook.Pointer.{push_byte}
use gronin.Playbook.Scope.{inside_working_directory}

-- Why the gate refuses an entry.
pub data Reason : Type 0 where
  shell writes unknown_tool whole_server unprovided not_a_form scopes_unknown scopes_nothing
        outside :
      Reason

pub data Field : Type 0 where
  tools allow mcp : ℕ → Field

pub record Problem : Type 0 where
  pub field : Field
  pub reason : Reason

pub record Agent : Type 0 where
  pub tools : List Bytes
  pub allow : List Bytes
  pub mcp : List Bytes

abbrev pub read_only_tools : List Bytes
read_only_tools =
    codes "Read" ∷ codes "Grep" ∷ codes "Glob" ∷ codes "WebFetch" ∷ codes "WebSearch" ∷ []

abbrev pub shells : List Bytes
shells =
    codes "Bash"
    ∷ codes "Shell"
    ∷ codes "PowerShell"
    ∷ codes "Zsh"
    ∷ codes "Sh"
    ∷ codes "BashOutput"
    ∷ codes "KillShell"
    ∷ []

abbrev pub writing_tools : List Bytes
writing_tools =
    codes "Write"
    ∷ codes "Edit"
    ∷ codes "MultiEdit"
    ∷ codes "NotebookEdit"
    ∷ codes "Task"
    ∷ codes "Agent"
    ∷ []

-- strings.Split by two bytes that are alike
unfoldable pub split_twice : ℕ → Bytes → List Bytes
split_twice mark [] = [] ∷ []
split_twice mark (c ∷ []) = (c ∷ []) ∷ []
split_twice mark (c ∷ d ∷ s) =
    let past = split_twice mark s in
    let next = split_twice mark (d ∷ s) in
    if c == mark && d == mark then [] ∷ past else push_byte c next

-- strings.Join by two bytes that are alike
unfoldable pub join_twice : ℕ → List Bytes → Bytes
join_twice mark [] = []
join_twice mark (s ∷ []) = s
join_twice mark (s ∷ t ∷ ss) = s ++ (mark ∷ mark ∷ join_twice mark (t ∷ ss))

unfoldable pub is_letter : ℕ → Bool
is_letter c = (leb b'A' c && leb c b'Z') || (leb b'a' c && leb c b'z')

unfoldable pub is_figure : ℕ → Bool
is_figure c = leb b'0' c && leb c b'9'

-- ^[A-Za-z0-9][A-Za-z0-9_-]*$
unfoldable pub is_tool_name : Bytes → Bool
is_tool_name [] = false
is_tool_name (c ∷ s) = (is_letter c || is_figure c) && all_key_bytes s

unfoldable pub shape_of : List Bytes → Option (Bytes × Bool)
shape_of [] = none
shape_of (first ∷ []) = none
shape_of (first ∷ server ∷ rest) =
    if same first (codes "mcp") && not (same server [])
    then some (server, not (is_tool_name (join_twice b'_' rest)))
    else none

-- The server that an entry names, and whether it names all of it; `none` where it is no such entry.
unfoldable pub mcp_shape : Bytes → Option (Bytes × Bool)
mcp_shape entry = shape_of (split_twice b'_' entry)

unfoldable pub mcp_problem : List Bytes → Bytes × Bool → Option Reason
mcp_problem servers (server, whole) =
    if whole then some whole_server else if member server servers then none else some unprovided

unfoldable pub all_word_bytes : Bytes → Bool
all_word_bytes [] = true
all_word_bytes (c ∷ s) = (is_letter c || is_figure c || c == b'_') && all_word_bytes s

unfoldable pub is_word : Bytes → Bool
is_word [] = false
is_word (c ∷ s) = is_letter c && all_word_bytes s

-- The bytes before a last bracket that closes.
unfoldable pub before_bracket : Bytes → Option Bytes
before_bracket [] = none
before_bracket (c ∷ []) = if c == b')' then some [] else none
before_bracket (c ∷ d ∷ s) = elim (before_bracket (d ∷ s)) [ none ↦ none | some t ↦ some (c ∷ t) ]

unfoldable pub scope_in : Bytes → Option Bytes → Option (Bytes × Bytes)
scope_in name none = none
scope_in name (some scope) =
    if is_word name && not (contains_byte b'\n' scope) then some (name, scope) else none

unfoldable pub scoped_after : Option (Bytes × Bytes) → Option (Bytes × Bytes)
scoped_after none = none
scoped_after (some (name, rest)) = scope_in name (before_bracket rest)

-- ^([A-Za-z][A-Za-z0-9_]*)\((.*)\)$
unfoldable pub scoped_tool : Bytes → Option (Bytes × Bytes)
scoped_tool entry = scoped_after (cut b'(' entry)

unfoldable pub scope_problem : Bytes → Option (Bytes × Bytes) → Option Reason
scope_problem entry none = if member entry read_only_tools then none else some not_a_form
scope_problem entry (some (tool, scope)) =
    if not (member tool read_only_tools)
    then some scopes_unknown
    else if same scope []
    then some scopes_nothing
    else if not (inside_working_directory scope)
    then some outside
    else none

unfoldable pub default_tool : Bytes → Option Reason
default_tool tool = if member tool read_only_tools then none else some unknown_tool

unfoldable pub tool_problem : List Bytes → Bytes → Option Reason
tool_problem servers tool =
    if member tool shells
    then some shell
    else if member tool writing_tools
    then some writes
    else elim (mcp_shape tool) [ some shape ↦ mcp_problem servers shape | none ↦ default_tool tool ]

unfoldable pub allow_problem : List Bytes → Bytes → Option Reason
allow_problem servers entry = elim (mcp_shape entry) [
  | some shape ↦ mcp_problem servers shape
  | none ↦ scope_problem entry (scoped_tool entry)
]

unfoldable pub server_problem : List Bytes → Bytes → Option Reason
server_problem servers name = if member name servers then none else some unprovided

unfoldable pub add_reason : Field → Option Reason → List Problem → List Problem
add_reason field none rest = rest
add_reason field (some reason) rest = (record { field = field; reason = reason }) ∷ rest

-- A loop over entries, with their places.
unfoldable pub problems_of : (ℕ → Field) → (Bytes → Option Reason) → ℕ → List Bytes → List Problem
problems_of field rule at [] = []
problems_of field rule at (entry ∷ entries) =
    add_reason (field at) (rule entry) (problems_of field rule (at + 1) entries)

-- The loops of `validateAgent`, for the servers that a deployment provides.
unfoldable pub agent_problems : List Bytes → Agent → List Problem
agent_problems servers agent =
    problems_of Field.tools (tool_problem servers) 0 agent.tools
    ++ (problems_of Field.allow (allow_problem servers) 0 agent.allow
        ++ problems_of Field.mcp (server_problem servers) 0 agent.mcp)
