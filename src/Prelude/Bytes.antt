-- ===== src/Prelude/Bytes.antt =====
-- Go's strings as their bytes: comparison, order, prefixes, and maps keyed by them.
use Prim.Native.Nat.{ℕ}
use Prim.Native.Char.{code}
use Prim.Native.String.{String}
use mathlib.Core.Path.{◌≡◌, refl}
use mathlib.Core.Logic.{◌↔◌}
use mathlib.Core.Bool.{Bool, true, false, ◌&&◌, ◌||◌}
use mathlib.Core.Option.{Option, none, some}
use mathlib.Core.List.{List, [], ◌∷◌, ◌++◌, map}
use native.Mathlib.Omega.{arith}
use gronin.Prelude.Tests.{ltb, ◌==◌, if◌then◌else◌}

abbrev pub Bytes : Type 0
Bytes = List ℕ

-- The bytes of an ASCII text.
abbrev pub codes : String → Bytes
codes String.[] = []
codes (String.◌∷◌ c s) = code c ∷ codes s

unfoldable pub same : Bytes → Bytes → Bool
same [] [] = true
same [] (_ ∷ _) = false
same (_ ∷ _) [] = false
same (a ∷ s) (b ∷ t) = a == b && same s t

pub same_refl : (s : Bytes) → same s s ≡ true
unfolding same
same_refl [] = refl
same_refl (a ∷ s) = ground (arith, same_refl s)

pub same-eq : (s t : Bytes) → same s t ≡ true → s ≡ t
unfolding same
same-eq [] [] e = refl
same-eq [] (b ∷ t) e = ground arith
same-eq (a ∷ s) [] e = ground arith
same-eq (a ∷ s) (b ∷ t) e = ground (arith, same-eq s t)

pub same_iff : (s t : Bytes) → (same s t ≡ true) ↔ (s ≡ t)
same_iff s t = (same-eq s t, λ e. rw e (same_refl t))

-- strings.HasPrefix
unfoldable pub has_prefix : Bytes → Bytes → Bool
has_prefix [] s = true
has_prefix (_ ∷ _) [] = false
has_prefix (a ∷ p) (b ∷ s) = a == b && has_prefix p s

-- strings.Cut at a separator of one byte.
unfoldable pub cut : ℕ → Bytes → Option (Bytes × Bytes)
cut mark [] = none
cut mark (c ∷ s) =
    if c == mark
    then some ([], s)
    else elim (cut mark s) [ none ↦ none | some (before, after) ↦ some (c ∷ before, after) ]

-- Whether a byte occurs.
unfoldable pub contains_byte : ℕ → Bytes → Bool
contains_byte mark [] = false
contains_byte mark (c ∷ s) = c == mark || contains_byte mark s

-- s <= t, in the order of `sort.Strings`.
unfoldable pub at_most : Bytes → Bytes → Bool
at_most [] t = true
at_most (_ ∷ _) [] = false
at_most (a ∷ s) (b ∷ t) = ltb a b || (a == b && at_most s t)

unfoldable pub place : Bytes → List Bytes → List Bytes
place s [] = s ∷ []
place s (t ∷ ts) = let rest = place s ts in if at_most s t then s ∷ t ∷ ts else t ∷ rest

-- sort.Strings
unfoldable pub sort : List Bytes → List Bytes
sort [] = []
sort (s ∷ ss) = place s (sort ss)

unfoldable pub member : Bytes → List Bytes → Bool
member s [] = false
member s (t ∷ ts) = same t s || member s ts

pub member-place :
    (s t : Bytes) (ts : List Bytes) → member s (place t ts) ≡ (same t s || member s ts)
unfolding member place
member-place s t [] = refl
member-place s t (u ∷ us) = ground (arith, member-place s t us)

-- Sorting keeps what there is.
pub member-sort : (s : Bytes) (ts : List Bytes) → member s (sort ts) ≡ member s ts
unfolding member sort
member-sort s [] = refl
member-sort s (t ∷ ts) = ground (arith, member-place s t (sort ts), member-sort s ts)

pub member-append :
    (s : Bytes) (ts us : List Bytes) → member s (ts ++ us) ≡ (member s ts || member s us)
unfolding member
member-append s [] us = refl
member-append s (t ∷ ts) us = ground (arith, member-append s ts us)

-- A map from strings: of the entries of a key the first counts.
abbrev pub Entries {ℓ} : Type ℓ → Type ℓ
Entries V = List (Bytes × V)

module _ {ℓ} {V : Type ℓ} where
  -- value, ok := entries[key]
  unfoldable pub value_of : Bytes → Entries V → Option V
  value_of key [] = none
  value_of key ((name, value) ∷ entries) =
      let rest = value_of key entries in if same name key then some value else rest

  -- entries[key] = value
  unfoldable pub put_value : Bytes → V → Entries V → Entries V
  put_value key value [] = (key, value) ∷ []
  put_value key value ((name, old) ∷ entries) =
      let rest = put_value key value entries in
      if same name key then (name, value) ∷ entries else (name, old) ∷ rest

  pub value_of-put_value :
      (key other : Bytes) (value : V) (entries : Entries V)
      → value_of other (put_value key value entries)
        ≡ (if same key other then some value else value_of other entries)
  unfolding value_of put_value
  value_of-put_value key other value [] = refl
  value_of-put_value key other value ((name, old) ∷ entries) = ground (
    arith,
    same_iff key other,
    same_iff name key,
    same_iff name other,
    value_of-put_value key other value entries,
  )

-- A value that is found is written among the entries.
pub member-map-entry :
    (write : Bytes → Bytes → Bytes) (key value : Bytes) (entries : Entries Bytes)
    → value_of key entries ≡ some value
    → member (write key value) (map (λ e. write e.0 e.1) entries) ≡ true
unfolding value_of member
member-map-entry write key value [] e = ground arith
member-map-entry write key value ((name, v) ∷ entries) e = ground (
  arith,
  same_iff name key,
  same_iff (write name v) (write key value),
  member-map-entry write key value entries,
)
