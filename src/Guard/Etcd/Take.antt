-- ===== src/Guard/Etcd/Take.antt =====
-- guard/etcd/etcd.go: `take`, the transaction that makes the claim, the tick and a rate slot one step.
use gronin.Prelude.{
  ℕ, Bool, ◌&&◌, not, List, [], ◌∷◌, Option, none, some, String, if◌then◌else◌, Result, ok, err,
}
use gronin.Prelude.Bytes.{Bytes}
use gronin.Record.Types.{Time}
use gronin.Guard.Coordinator.{AcquireRequest, AcquireError, is_schedule}
use gronin.Guard.Etcd.Server.{Condition, Write, Etcd}
use gronin.Guard.Etcd.{
  Codec, TakeError, Claim, Reading, Round, Decision, decided, again, before_sending, after_refusal,
  claim_key, tick_key, rate_key, state_of,
}

-- What an acquisition brings to its transaction: the request, when it is taken, the lease of the
-- claim with what was granted, and the lease of a rate slot.
pub record Ask : Type 0 where
  pub req : AcquireRequest
  pub taken : Time
  pub lease : ℕ
  pub granted : ℕ
  pub rate_lease : Option ℕ

module _ (codec : Codec) (prefix : Bytes) where
  unfoldable pub slot_conditions : String → Option ℕ → List Condition
  slot_conditions name none = []
  slot_conditions name (some i) = Condition.created_at (rate_key codec prefix name i) 0 ∷ []

  unfoldable pub conditions : AcquireRequest → ℕ → Option ℕ → List Condition
  conditions req tick_rev slot =
      let rest = slot_conditions req.name slot in
      Condition.created_at (claim_key codec prefix req.name) 0
      ∷ (if is_schedule req.kind
          then Condition.modified_at (tick_key codec prefix req.name) tick_rev ∷ rest
          else rest)

  unfoldable pub slot_writes : Ask → Option ℕ → List Write
  slot_writes ask none = []
  slot_writes ask (some i) =
      (record {
        key = rate_key codec prefix ask.req.name i;
        value = ask.req.holder.run_id;
        lease = ask.rate_lease;
      })
      ∷ []

  unfoldable pub tick_write : Ask → Write
  tick_write ask = record {
    key = tick_key codec prefix ask.req.name;
    value = codec.encode_tick (record { due_at = ask.req.due_at; holder = ask.req.holder });
    lease = none;
  }

  unfoldable pub writes : Ask → Option ℕ → List Write
  writes ask slot =
      let rest = slot_writes ask slot in
      (record {
        key = claim_key codec prefix ask.req.name;
        value = codec.encode_holder (record { holder = ask.req.holder; taken = ask.taken });
        lease = some ask.lease;
      })
      ∷ (if is_schedule ask.req.kind then tick_write ask ∷ rest else rest)

module _ {S : Type 0} (etcd : Etcd S) (codec : Codec) (prefix : Bytes) where
  -- A transaction that committed gives the claim its revision as the token.
  unfoldable pub granted_claim : Ask → S → Claim
  granted_claim ask after = record {
    name = ask.req.name;
    lease = ask.lease;
    token = etcd.revision after;
    granted = ask.granted;
  }

  unfoldable pub on_answer : Ask → Round S → Bool × S → Decision S
  on_answer ask r (succeeded, after) =
      if not r.answered
      then Decision.decided (err (TakeError.failed AcquireError.unavailable))
          (if r.applied && succeeded then some after else none)
      else if succeeded
      then Decision.decided (ok (granted_claim ask after)) (some after)
      else after_refusal ask.req (state_of codec prefix (etcd.get r.arrives) ask.req)

  unfoldable pub send : Ask → Round S → Reading → Option ℕ → Decision S
  send ask r read slot = on_answer ask r (
      etcd.txn (conditions codec prefix ask.req read.tick_rev slot) (writes codec prefix ask slot)
        r.arrives)

  unfoldable pub on_reading : Ask → Round S → Result TakeError Reading → Decision S
  on_reading ask r (err why) = Decision.decided (err why) none
  on_reading ask r (ok read) = elim (before_sending ask.req read) [
    | err why ↦ Decision.decided (err why) none
    | ok slot ↦ send ask r read slot
  ]

  unfoldable pub take_round : Ask → Round S → Decision S
  take_round ask r =
      if r.expired
      then Decision.decided (err (TakeError.failed AcquireError.unavailable)) none
      else elim r.reading [
        | none ↦ Decision.decided (err (TakeError.failed AcquireError.unavailable)) none
        | some s ↦ on_reading ask r (state_of codec prefix (etcd.get s) ask.req)
      ]

  unfoldable pub after_round :
      S
      → Decision S
      → Option (Result TakeError Claim × Option (S × S))
      → Option (Result TakeError Claim × Option (S × S))
  after_round arrives (decided result none) rest = some (result, none)
  after_round arrives (decided result (some after)) rest = some (result, some (arrives, after))
  after_round arrives again rest = rest

  -- `take`, with the servers before and after the transaction that it had applied. `none` where
  -- the rounds end before it does.
  unfoldable pub take : Ask → List (Round S) → Option (Result TakeError Claim × Option (S × S))
  take ask [] = none
  take ask (r ∷ rs) = let rest = take ask rs in after_round r.arrives (take_round ask r) rest
