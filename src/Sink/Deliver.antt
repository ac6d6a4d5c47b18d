-- ===== src/Sink/Deliver.antt =====
-- sink/sink.go: `CheckCap` and `DeliverAll`. What lies outside the program is a state `W` that the
-- gate and the sinks may change; the texts of a report are not looked into.
pub mod Gated
use Prim.Native.String.{◌++◌ as str_append}
use gronin.Prelude.{
  Bool, true, false, not, List, [], ◌∷◌, Option, none, some, String, str_eq, if◌then◌else◌,
}
use gronin.Prelude.Int.{ℤ, pos, leb_ℤ}

-- `unset` is the empty status.
pub data Status : Type 0 where
  unset delivered created skipped capped failed : Status

pub record Outcome : Type 0 where
  pub sink : String
  pub status : Status
  pub items_created : ℤ
  pub items_skipped : ℤ
  pub detail : String

-- A sink: its delivery gives an outcome, perhaps an error, and what it leaves outside.
pub record Sink (W : Type 0) : Type 0 where
  pub name : String
  pub creates : Bool
  pub cap : Option ℤ
  pub deliver : W → Outcome × Option String × W

pub data CapError : Type 0 where
  no_cap not_a_ceiling : CapError

-- `CheckCap`
unfoldable pub check_cap : {W : Type 0} → Sink W → Option CapError
check_cap sink = if not sink.creates then none else elim sink.cap [
  | none ↦ some no_cap
  | some ceiling ↦ if leb_ℤ ceiling (pos 0) then some not_a_ceiling else none
]

abbrev pub or_skipped : Status → Status
or_skipped Status.unset = Status.skipped
or_skipped Status.delivered = Status.delivered
or_skipped Status.created = Status.created
or_skipped Status.skipped = Status.skipped
or_skipped Status.capped = Status.capped
or_skipped Status.failed = Status.failed

-- The outcome that is recorded of a delivery.
unfoldable pub outcome_of : String → Outcome → Option String → Outcome
outcome_of name o none = record o { sink = name; status = or_skipped o.status }
outcome_of name o (some e) = record o {
  sink = name;
  status = Status.failed;
  detail = if str_eq o.detail "" then e else str_append o.detail (str_append ": " e);
}

-- The gate of a round: `none` is a nil gate.
abbrev pub ask : {W : Type 0} → Option (W → Option String × W) → W → Option String × W
ask none w = (none, w)
ask (some gate) w = gate w

-- What `DeliverAll` returns, and what it leaves outside.
pub record Delivered (W : Type 0) : Type 0 where
  pub outcomes : List Outcome
  pub refused : Option String
  pub world : W

-- `DeliverAll`
unfoldable pub deliver_all :
    {W : Type 0} → Option (W → Option String × W) → List (Sink W) → W → Delivered W
unfolding outcome_of
deliver_all gate [] w = record { outcomes = []; refused = none; world = w }
deliver_all gate (sink ∷ sinks) w =
    let (refusal, asked) = ask gate w in
    let (o, e, after) = sink.deliver asked in
    let rest = deliver_all gate sinks after in
    elim refusal [
      | some why ↦ record { outcomes = []; refused = some why; world = asked }
      | none ↦ record rest { outcomes = outcome_of sink.name o e ∷ rest.outcomes }
    ]
