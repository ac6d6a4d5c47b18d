-- ===== src/Guard/Etcd/Acquire.antt =====
-- guard/etcd/etcd.go: `Acquire`, with the leases that it asks for and gives back, and `Fence`.
use gronin.Prelude.{
  ℕ, ◌*◌, ◌%◌, Bool, ◌||◌, not, List, [], ◌∷◌, Option, none, some, ltb, ◌==◌, if◌then◌else◌, Result,
  ok, err,
}
use gronin.Prelude.Bytes.{Bytes}
use gronin.Record.Types.{Time}
use gronin.Guard.Coordinator.{AcquireRequest, AcquireError, refuses}
use gronin.Guard.Etcd.Server.{Condition, Etcd}
use gronin.Guard.Etcd.{Codec, TakeError, Claim, Round, claim_key}
use gronin.Guard.Etcd.Take.{Ask, take}

-- What the server answers an acquisition before `take`: the claim's lease with its seconds, and a
-- rate slot's lease.
pub record Grants : Type 0 where
  pub lease : Option (ℕ × ℕ)
  pub rate_lease : Option ℕ

-- What an acquisition did: its result, the leases it was granted and those it revoked, and the
-- servers about its transaction.
pub record Acquired (S : Type 0) : Type 0 where
  pub result : Result TakeError Claim
  pub granted : List ℕ
  pub revoked : List ℕ
  pub change : Option (S × S)

abbrev pub second : ℕ
second = 1000000000

-- `CheckGrant`, as whether it refuses.
unfoldable pub check_grant : ℕ → ℕ → Bool
check_grant asked granted = ltb granted asked

unfoldable pub gives_up : {S : Type 0} → TakeError → List ℕ → Acquired S
gives_up why leases = record { result = err why; granted = leases; revoked = leases; change = none }

unfoldable pub leases_of : ℕ → Option ℕ → List ℕ
leases_of lease none = lease ∷ []
leases_of lease (some id) = lease ∷ id ∷ []

unfoldable pub settled :
    {S : Type 0} → List ℕ → Result TakeError Claim × Option (S × S) → Acquired S
settled leases (ok claim, change) = record {
  result = ok claim;
  granted = leases;
  revoked = [];
  change = change;
}
settled leases (err why, change) = record {
  result = err why;
  granted = leases;
  revoked = leases;
  change = change;
}

pub data FenceError : Type 0 where
  unavailable lost : FenceError

module _ {S : Type 0} (etcd : Etcd S) (codec : Codec) (prefix : Bytes) where
  unfoldable pub take_settled : Ask → List (Round S) → Option (Acquired S)
  take_settled ask rounds = elim (take etcd codec prefix ask rounds) [
    | none ↦ none
    | some taken ↦ some (settled (leases_of ask.lease ask.rate_lease) taken)
  ]

  unfoldable pub with_rate_lease :
      AcquireRequest → Time → ℕ → ℕ → Option ℕ → List (Round S) → Option (Acquired S)
  with_rate_lease req taken lease granted rate_lease rounds = elim req.rate [
    | none ↦
        take_settled
          (record { req = req; taken = taken; lease = lease; granted = granted; rate_lease = none })
          rounds
    | some limit ↦ elim rate_lease [
      | none ↦ some (gives_up (TakeError.failed AcquireError.unavailable) (lease ∷ []))
      | some id ↦
          take_settled
            (record {
              req = req;
              taken = taken;
              lease = lease;
              granted = granted;
              rate_lease = some id;
            })
            rounds
    ]
  ]

  unfoldable pub with_lease :
      AcquireRequest → ℕ → Time → Grants → List (Round S) → Option (Acquired S)
  with_lease req expiry taken grants rounds = elim grants.lease [
    | none ↦ some (gives_up (TakeError.failed AcquireError.unavailable) [])
    | some (lease, ttl) ↦
        if check_grant expiry (ttl * second)
        then some (gives_up (TakeError.failed AcquireError.unavailable) (lease ∷ []))
        else with_rate_lease req taken lease (ttl * second) grants.rate_lease rounds
  ]

  -- `Acquire`, for an expiry in nanoseconds.
  unfoldable pub acquire : AcquireRequest → ℕ → Time → Grants → List (Round S) → Option (Acquired S)
  acquire req expiry taken grants rounds =
      if refuses req
      then some (gives_up (TakeError.failed AcquireError.bad_request) [])
      else if expiry == 0 || not (expiry % second == 0)
      then some (gives_up (TakeError.failed AcquireError.bad_request) [])
      else with_lease req expiry taken grants rounds

  -- `claim.Fence`, of the server that its transaction meets; `none` where it is not answered.
  unfoldable pub fence : Claim → Option S → Option FenceError
  fence c none = some FenceError.unavailable
  fence c (some s) =
      let held = Condition.created_at (claim_key codec prefix c.name) c.token ∷ [] in
      if (etcd.txn held [] s).0 then none else some FenceError.lost
