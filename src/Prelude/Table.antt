-- ===== src/Prelude/Table.antt =====
-- The program's maps from names: lists of entries, of which a name has one.
use Prim.Native.String.{String}
use mathlib.Core.List.{List, [], ◌∷◌}
use text.Mathlib.Text.{◌==◌ as same}
use gronin.Prelude.Tests.{if◌then◌else◌}

abbrev pub Table {ℓ} : Type ℓ → Type ℓ
Table V = List (String × V)

-- entries[name] = value
unfoldable pub set_entry {ℓ} : {V : Type ℓ} → String → V → Table V → Table V
set_entry name value [] = (name, value) ∷ []
set_entry name value (entry ∷ entries) =
    let rest = set_entry name value entries in
    if same entry.0 name then (name, value) ∷ entries else entry ∷ rest
