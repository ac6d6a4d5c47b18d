-- ===== src/Guard/Etcd/Slots.antt =====
-- guard/etcd/etcd.go: the rate slot of a run.
use gronin.Prelude.{
  ℕ, zero, suc, ◌+◌, String, Bool, true, false, List, [], ◌∷◌, Option, none, some, ◌≡◌, refl, sym,
  ap, ◌∙◌, arith, ◌<◌, Result, ok, err, >>=-eq-ok, All, Bool-cases, inl, inr, length,
}
use gronin.Prelude.Bytes.{Bytes, same, same_refl}
use gronin.Guard.Coordinator.{RateLimit, AcquireRequest, AcquireError, is_schedule}
use gronin.Guard.Etcd.Server.{View, Etcd, created, holds, all_hold, written}
use gronin.Guard.Etcd.Revisions.{no_entry, Later-IsNumbered}
use gronin.Guard.Etcd.{
  Codec, TakeError, Claim, Reading, Round, free_from, free_slot, choose_slot, before_sending,
  claim_key, tick_key, rate_key, read_holder, read_tick, slots_from, slots_of, state_of,
}
use gronin.Guard.Etcd.Take.{Ask, slot_conditions, conditions, slot_writes, tick_write, writes, take}
use gronin.Guard.Etcd.Keys.{same-prefix}
use gronin.Guard.Etcd.Sent.{Follows, take-Sent}

free_from-lt :
    (i : ℕ) (slots : List Bool) (j : ℕ) → free_from i slots ≡ some j → j < i + length slots
unfolding free_from
free_from-lt i [] j e = ground arith
free_from-lt i (true ∷ slots) j e = ground arith
free_from-lt i (false ∷ slots) j e = ground (arith, free_from-lt (suc i) slots j e)

-- What is chosen under a limit is one of the slots.
choose_slot-lt :
    (limit : RateLimit) (slots : List Bool) (slot : Option ℕ)
    → choose_slot (some limit) slots ≡ ok slot
    → (i : ℕ) × (slot ≡ some i) × (i < length slots)
unfolding choose_slot free_slot
choose_slot-lt limit slots slot e = by_slot (free_from 0 slots) refl e
  where
    by_slot :
        (o : Option ℕ)
        → free_from 0 slots ≡ o
        → elim o [
          | none ↦ err (TakeError.failed (AcquireError.rate_limited limit))
          | some i ↦ ok (some i)
        ]
          ≡ ok slot
        → (i : ℕ) × (slot ≡ some i) × (i < length slots)
    by_slot none p h = absurd (ground arith)
    by_slot (some i) p h = (i, ground arith, omega (arith, free_from-lt 0 slots i p))

before_sending-slot :
    (req : AcquireRequest) (reading : Reading) (slot : Option ℕ)
    → before_sending req reading ≡ ok slot
    → choose_slot req.rate reading.slot_free ≡ ok slot
unfolding before_sending
before_sending-slot req reading slot e = ground arith

module _ (codec : Codec) (prefix : Bytes) where
  length-slots_from :
      (view : View) (name : String) (i left : ℕ)
      → length (slots_from codec prefix view name i left) ≡ left
  unfolding slots_from
  length-slots_from view name i zero = refl
  length-slots_from view name i (suc left) = omega (arith, length-slots_from view name (suc i) left)

  claim-ne-rate :
      (m n : String) (i : ℕ) → same (claim_key codec prefix m) (rate_key codec prefix n i) ≡ false
  unfolding rate_key claim_key same
  claim-ne-rate m n i = same-prefix prefix _ _

  tick-ne-rate :
      (m n : String) (i : ℕ) → same (tick_key codec prefix m) (rate_key codec prefix n i) ≡ false
  unfolding rate_key tick_key same
  tick-ne-rate m n i = same-prefix prefix _ _

  state_of-slots :
      (view : View) (req : AcquireRequest) (reading : Reading)
      → state_of codec prefix view req ≡ ok reading
      → reading.slot_free ≡ slots_of codec prefix view req.name req.rate
  unfolding state_of
  state_of-slots view req reading reads =
      let (h, _, rest) = >>=-eq-ok (read_holder codec prefix _) _ reads in
      let (t, _, last) = >>=-eq-ok (read_tick codec prefix (is_schedule req.kind) _) _ rest in
      ground arith

  -- A slot that is chosen for a request with a limit is below the limit.
  chosen-lt :
      (view : View) (req : AcquireRequest) (limit : RateLimit) (reading : Reading) (slot : Option ℕ)
      → req.rate ≡ some limit
      → state_of codec prefix view req ≡ ok reading
      → before_sending req reading ≡ ok slot
      → (i : ℕ) × (slot ≡ some i) × (i < limit.runs)
  unfolding slots_of
  chosen-lt view req limit reading slot limited reads decides =
      let slots = slots_from codec prefix view req.name 0 limit.runs in
      let free =
        state_of-slots view req reading reads ∙ ap (slots_of codec prefix view req.name) limited in
      let (i, is, below) = choose_slot-lt limit slots slot (
        ap (choose_slot (some limit)) (sym free)
        ∙ ap (λ r. choose_slot r reading.slot_free) (sym limited)
        ∙ before_sending-slot req reading slot decides) in
      (i, is, omega (arith, below, length-slots_from view req.name 0 limit.runs))

  conditions-slot :
      (ask : Ask) (rev i : ℕ) (view : View)
      → all_hold view (conditions codec prefix ask.req rev (some i)) ≡ true
      → created (view (rate_key codec prefix ask.req.name i)) ≡ 0
  unfolding all_hold conditions slot_conditions holds
  conditions-slot ask rev i view h = elim (Bool-cases (is_schedule ask.req.kind)) [
    | inl scheduled ↦ ground arith
    | inr manual ↦ ground arith
  ]

  written-slot :
      (ask : Ask) (i at : ℕ) (view : View)
      → view (rate_key codec prefix ask.req.name i) ≡ none
      → written at (writes codec prefix ask (some i)) view (rate_key codec prefix ask.req.name i)
        ≡ some (record {
          value = ask.req.holder.run_id;
          lease = ask.rate_lease;
          create_revision = at;
          mod_revision = at;
        })
  unfolding written writes slot_writes tick_write
  written-slot ask i at view absent =
      let key = rate_key codec prefix ask.req.name i in
      elim (Bool-cases (is_schedule ask.req.kind)) [
        | inl scheduled ↦
            rw
              (
                scheduled,
                claim-ne-rate ask.req.name ask.req.name i,
                tick-ne-rate ask.req.name ask.req.name i,
                same_refl key,
                absent,
              )
              refl
        | inr manual ↦
            rw (manual, claim-ne-rate ask.req.name ask.req.name i, same_refl key, absent) refl
      ]

-- A transaction that was applied for a trigger under a limit took one slot, below the limit, that was
-- free when the transaction came: the slot's key then holds the run, under the slot's lease.
pub take-slot :
    {S : Type 0} (etcd : Etcd S) (codec : Codec) (prefix : Bytes) (ask : Ask)
    (rounds : List (Round S)) (result : Result TakeError Claim) (limit : RateLimit) {s t : S}
    → All (Follows etcd codec prefix) rounds
    → take etcd codec prefix ask rounds ≡ some (result, some (s, t))
    → ask.req.rate ≡ some limit
    → (i : ℕ) × (i < limit.runs)
      × (etcd.get s (rate_key codec prefix ask.req.name i) ≡ none)
      × (etcd.get t (rate_key codec prefix ask.req.name i)
          ≡ some (record {
            value = ask.req.holder.run_id;
            lease = ask.rate_lease;
            create_revision = suc (etcd.revision s);
            mod_revision = suc (etcd.revision s);
          }))
take-slot etcd codec prefix ask rounds result limit {s} {t} follow e limited =
    let x = (take-Sent etcd codec prefix ask rounds result s t follow e).0 in
    let (i, is, below) =
      chosen-lt codec prefix (etcd.get x.found) ask.req limit x.reading x.slot limited x.reads
        x.decides in
    let key = rate_key codec prefix ask.req.name i in
    let absent = no_entry etcd s key (Later-IsNumbered etcd x.numbered x.before) (
      conditions-slot codec prefix ask x.reading.tick_rev i (etcd.get s) (
        ap (λ o. all_hold (etcd.get s) (conditions codec prefix ask.req x.reading.tick_rev o))
          (sym is)
        ∙ x.holding)) in
    (
      i,
      below,
      absent,
      ap (λ u. etcd.get u key) x.wrote
          ∙ etcd.commit-get _ _ s x.holding key
          ∙ ap (λ o. written (suc (etcd.revision s)) (writes codec prefix ask o) (etcd.get s) key)
              is
          ∙ written-slot codec prefix ask i (suc (etcd.revision s)) (etcd.get s) absent,
    )
