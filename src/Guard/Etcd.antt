-- ===== src/Guard/Etcd.antt =====
-- guard/etcd/etcd.go: claims, ticks and rate slots as keys of etcd. The server is an argument
-- (Server), and so are the codecs of Go's library; the rounds of an acquisition are explicit.
pub mod Server
pub mod Take
pub mod Acquire
pub mod Revisions
pub mod Sent
pub mod Keys
pub mod Once
pub mod Fenced
pub mod Slots
pub mod Tests
use gronin.Prelude.{
  ℕ, zero, suc, ◌+◌, ◌*◌, ◌/◌, ◌%◌, Bool, true, false, ◌&&◌, ◌||◌, not, List, [], ◌∷◌, ◌++◌, Option,
  none, some, String, ltb, leb, ◌==◌, ◌≡◌, if◌then◌else◌, Result, ok, err, ◌>>=◌,
}
use gronin.Prelude.Bytes.{Bytes, codes}
use gronin.Record.Types.{Time}
use gronin.Guard.Coordinator.{Holder, RateLimit, AcquireRequest, AcquireError, is_schedule, refuses}
use gronin.Guard.Etcd.Server.{Entry, View, Condition, Write, Etcd, modified}

pub record HolderValue : Type 0 where
  pub holder : Holder
  pub taken : Time

pub record TickValue : Type 0 where
  pub due_at : Time
  pub holder : Holder

-- encoding/json of the two values, and `%d`. What is encoded can be decoded.
pub record Codec : Type 0 where
  pub encode_holder : HolderValue → String
  pub decode_holder : String → Option HolderValue
  pub encode_tick : TickValue → String
  pub decode_tick : String → Option TickValue
  pub decimal : ℕ → Bytes
  pub decode_tick-encode_tick : (t : TickValue) → decode_tick (encode_tick t) ≡ some t

-- Why an acquisition fails: a refusal or a failure of the contract, or a value that is not decoded.
pub data TakeError : Type 0 where
  failed : AcquireError → TakeError
  undecoded : TakeError

pub record Claim : Type 0 where
  pub name : String
  pub lease : ℕ
  pub token : ℕ
  pub granted : ℕ

-- `state`: the claim, the last tick and the rate slots of one name, read together.
pub record Reading : Type 0 where
  pub holder : Option HolderValue
  pub tick : Option TickValue
  pub tick_rev : ℕ
  pub slot_free : List Bool

-- One round of `take`: whether its deadline is past, the server that the read finds (`none` where
-- the read fails), the server that the transaction meets, whether the client hears the answer, and
-- whether a transaction whose answer is not heard was applied.
pub record Round (S : Type 0) : Type 0 where
  pub expired : Bool
  pub reading : Option S
  pub arrives : S
  pub answered : Bool
  pub applied : Bool

-- How a round ends, with the server after a transaction that was applied.
pub data Decision (S : Type 0) : Type 0 where
  decided : Result TakeError Claim → Option S → Decision S
  again : Decision S

abbrev pub is_absent {ℓ} : {A : Type ℓ} → Option A → Bool
is_absent none = true
is_absent (some a) = false

-- !req.Trigger.DueAt.After(recorded.DueAt)
unfoldable pub tick_ran : AcquireRequest → Option TickValue → Bool
tick_ran req none = false
tick_ran req (some t) = is_schedule req.kind && leb req.due_at t.due_at

unfoldable pub free_from : ℕ → List Bool → Option ℕ
free_from i [] = none
free_from i (free ∷ rest) = let later = free_from (suc i) rest in if free then some i else later

unfoldable pub free_slot : List Bool → Option ℕ
free_slot = free_from 0

unfoldable pub choose_slot : Option RateLimit → List Bool → Result TakeError (Option ℕ)
choose_slot none slots = ok none
choose_slot (some limit) slots = elim (free_slot slots) [
  | none ↦ err (TakeError.failed (AcquireError.rate_limited limit))
  | some i ↦ ok (some i)
]

unfoldable pub held_by : HolderValue → TakeError
held_by h = TakeError.failed (AcquireError.held_by (some h.holder))

unfoldable pub ran_as : Option TickValue → TakeError
ran_as none = TakeError.failed AcquireError.unavailable
ran_as (some t) = TakeError.failed (AcquireError.tick_ran t.due_at t.holder)

-- The refusal of a tick that ran names the holder where there is one.
unfoldable pub refuse_tick : Reading → TakeError
refuse_tick read = elim read.holder [ some h ↦ held_by h | none ↦ ran_as read.tick ]

-- What is decided before anything is sent.
unfoldable pub before_sending : AcquireRequest → Reading → Result TakeError (Option ℕ)
before_sending req read =
    if tick_ran req read.tick then err (refuse_tick read) else choose_slot req.rate read.slot_free

-- What a transaction that failed read back decides.
unfoldable pub after_refusal : {S : Type 0} → AcquireRequest → Result TakeError Reading → Decision S
after_refusal req (err why) = Decision.decided (err why) none
after_refusal req (ok fresh) = elim fresh.holder [
  | some h ↦ Decision.decided (err (held_by h)) none
  | none ↦
      if tick_ran req fresh.tick
      then Decision.decided (err (ran_as fresh.tick)) none
      else Decision.again
]

module _ (codec : Codec) (prefix : Bytes) where
  unfoldable pub claim_key : String → Bytes
  claim_key name = prefix ++ (codes "claims/" ++ codes name)

  unfoldable pub tick_key : String → Bytes
  tick_key name = prefix ++ (codes "ticks/" ++ codes name)

  unfoldable pub rate_key : String → ℕ → Bytes
  rate_key name i = prefix ++ (codes "rate/" ++ (codes name ++ (codes "/" ++ codec.decimal i)))

  unfoldable pub read_holder : Option Entry → Result TakeError (Option HolderValue)
  read_holder none = ok none
  read_holder (some e) = elim (codec.decode_holder e.value) [
    | none ↦ err TakeError.undecoded
    | some h ↦ ok (some h)
  ]

  unfoldable pub read_tick : Bool → Option Entry → Result TakeError (Option TickValue)
  read_tick false entry = ok none
  read_tick true none = ok none
  read_tick true (some e) = elim (codec.decode_tick e.value) [
    | none ↦ err TakeError.undecoded
    | some t ↦ ok (some t)
  ]

  unfoldable pub slots_from : View → String → ℕ → ℕ → List Bool
  slots_from view name i zero = []
  slots_from view name i (suc left) =
      is_absent (view (rate_key name i)) ∷ slots_from view name (suc i) left

  unfoldable pub slots_of : View → String → Option RateLimit → List Bool
  slots_of view name none = []
  slots_of view name (some limit) = slots_from view name 0 limit.runs

  -- `ops` at one revision, and `stateOf`.
  unfoldable pub state_of : View → AcquireRequest → Result TakeError Reading
  state_of view req = read_holder (view (claim_key req.name)) >>= λ holder.
      read_tick (is_schedule req.kind) (view (tick_key req.name)) >>= λ tick. ok (record {
        holder = holder;
        tick = tick;
        tick_rev = if is_schedule req.kind then modified (view (tick_key req.name)) else 0;
        slot_free = slots_of view req.name req.rate;
      })
