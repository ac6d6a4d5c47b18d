-- ===== src/Playbook/Pointer.antt =====
-- playbook/values.go: `AtPointer`, which resolves a JSON pointer against a decoded document, and
-- `SingleValue`.
pub mod RoundTrip
use gronin.Prelude.{
  ℕ, zero, suc, ◌+◌, ◌*◌, ◌-◌, ◌^◌, Bool, true, false, ◌&&◌, not, List, [], ◌∷◌, ◌++◌, map, Option,
  none, some, ltb, leb, ◌==◌, if◌then◌else◌,
}
use gronin.Prelude.Int.{ℤ, pos, negsuc}
use gronin.Prelude.Bytes.{Bytes, codes, same}

-- A decoded document. A number is its literal; an object has each name once.
mutual
  pub data Json : Type 0 where
    null : Json
    text : Bytes → Json
    number : Bytes → Json
    boolean : Bool → Json
    array : Items → Json
    object : Fields → Json

  pub data Items : Type 0 where
    nil : Items
    cons : Json → Items → Items

  pub data Fields : Type 0 where
    end : Fields
    field : Bytes → Json → Fields → Fields

-- node[segment], nil where it is not found
unfoldable pub member_of : Bytes → Fields → Json
member_of name end = null
member_of name (field key value rest) =
    let other = member_of name rest in if same key name then value else other

-- node[index], nil out of range
unfoldable pub item_at : ℕ → Items → Json
item_at i nil = null
item_at zero (cons v vs) = v
item_at (suc i) (cons v vs) = item_at i vs

unfoldable pub push_byte : ℕ → List Bytes → List Bytes
push_byte c [] = (c ∷ []) ∷ []
push_byte c (s ∷ ss) = (c ∷ s) ∷ ss

-- strings.Split by one byte
unfoldable pub split : ℕ → Bytes → List Bytes
split mark [] = [] ∷ []
split mark (c ∷ s) = let rest = split mark s in if c == mark then [] ∷ rest else push_byte c rest

-- strings.ReplaceAll of two bytes by one
unfoldable pub replace_pair : ℕ → ℕ → ℕ → Bytes → Bytes
replace_pair a b by [] = []
replace_pair a b by (c ∷ []) = c ∷ []
replace_pair a b by (c ∷ d ∷ s) =
    let past = replace_pair a b by s in
    let next = replace_pair a b by (d ∷ s) in if c == a && d == b then by ∷ past else c ∷ next

unfoldable pub unescape : Bytes → Bytes
unescape segment = replace_pair b'~' b'0' b'~' (replace_pair b'~' b'1' b'/' segment)

unfoldable pub is_digit : ℕ → Bool
is_digit c = leb b'0' c && leb c b'9'

-- The number that digits write; `none` where a byte is no digit.
unfoldable pub digits : ℕ → Bytes → Option ℕ
digits n [] = some n
digits n (c ∷ s) = let rest = digits (n * 10 + (c - b'0')) s in if is_digit c then rest else none

unfoldable pub digits_of : Bytes → Option ℕ
digits_of [] = none
digits_of (c ∷ s) = digits 0 (c ∷ s)

unfoldable pub within_int : Bool → Option ℕ → Option ℤ
within_int minus none = none
within_int false (some n) = if ltb n (2 ^ 63) then some (pos n) else none
within_int true (some zero) = some (pos zero)
within_int true (some (suc n)) = if ltb n (2 ^ 63) then some (negsuc n) else none

-- strconv.Atoi
unfoldable pub atoi : Bytes → Option ℤ
atoi [] = none
atoi (c ∷ s) =
    if c == b'-'
    then within_int true (digits_of s)
    else if c == b'+'
    then within_int false (digits_of s)
    else within_int false (digits_of (c ∷ s))

unfoldable pub indexed : Items → Option ℤ → Json
indexed items none = null
indexed items (some (negsuc n)) = null
indexed items (some (pos n)) = item_at n items

-- One segment of a pointer.
unfoldable pub step_into : Json → Bytes → Json
step_into (object fields) segment = member_of segment fields
step_into (array items) segment = indexed items (atoi segment)
step_into null segment = null
step_into (text s) segment = null
step_into (number s) segment = null
step_into (boolean b) segment = null

unfoldable pub walk_segments : Json → List Bytes → Json
walk_segments current [] = current
walk_segments current (segment ∷ segments) =
    walk_segments (step_into current (unescape segment)) segments

abbrev pub rest_of : List Bytes → List Bytes
rest_of [] = []
rest_of (s ∷ ss) = ss

unfoldable pub at_pointer : Json → Bytes → Json
at_pointer document [] = document
at_pointer document (c ∷ s) = walk_segments document (rest_of (split b'/' (c ∷ s)))

unfoldable pub single_value : Json → Option Bytes
single_value (text s) = some s
single_value (number s) = some s
single_value (boolean true) = some (codes "true")
single_value (boolean false) = some (codes "false")
single_value null = none
single_value (array items) = none
single_value (object fields) = none
