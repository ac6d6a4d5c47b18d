-- ===== src/Guard/Etcd/Keys.antt =====
-- guard/etcd/etcd.go: the keys of a claim, a tick and a rate slot, and what a transaction of `take`
-- puts under them.
use gronin.Prelude.{
  ℕ, true, false, ◌&&◌, [], ◌∷◌, ◌++◌, Option, none, some, String, ◌≡◌, refl, arith, if◌then◌else◌,
  Bool-cases, inl, inr,
}
use gronin.Prelude.Bytes.{Bytes, same}
use gronin.Guard.Coordinator.{is_schedule}
use gronin.Guard.Etcd.Server.{
  View, Condition, created, modified, holds, all_hold, put_entry, written,
}
use gronin.Guard.Etcd.{Codec, claim_key, tick_key, rate_key}
use gronin.Guard.Etcd.Take.{Ask, slot_conditions, conditions, slot_writes, tick_write, writes}

pub same-prefix : (p s t : Bytes) → same (p ++ s) (p ++ t) ≡ same s t
unfolding same
same-prefix [] s t = refl
same-prefix (c ∷ p) s t = ground (arith, same-prefix p s t)

module _ (codec : Codec) (prefix : Bytes) where
  pub claim-ne-tick :
      (m n : String) → same (claim_key codec prefix m) (tick_key codec prefix n) ≡ false
  unfolding claim_key tick_key same
  claim-ne-tick m n = same-prefix prefix _ _

  pub tick-ne-claim :
      (m n : String) → same (tick_key codec prefix m) (claim_key codec prefix n) ≡ false
  unfolding claim_key tick_key same
  tick-ne-claim m n = same-prefix prefix _ _

  pub rate-ne-tick :
      (m n : String) (i : ℕ) → same (rate_key codec prefix m i) (tick_key codec prefix n) ≡ false
  unfolding rate_key tick_key same
  rate-ne-tick m n i = same-prefix prefix _ _

  pub rate-ne-claim :
      (m n : String) (i : ℕ) → same (rate_key codec prefix m i) (claim_key codec prefix n) ≡ false
  unfolding rate_key claim_key same
  rate-ne-claim m n i = same-prefix prefix _ _

  slot-other :
      (ask : Ask) (slot : Option ℕ) (at : ℕ) (view : View) (key : Bytes)
      → ((i : ℕ) → same (rate_key codec prefix ask.req.name i) key ≡ false)
      → written at (slot_writes codec prefix ask slot) view key ≡ view key
  unfolding slot_writes written
  slot-other ask none at view key h = refl
  slot-other ask (some i) at view key h = rw (h i) refl

  -- What a transaction leaves under a tick's key.
  pub written-tick :
      (ask : Ask) (slot : Option ℕ) (at : ℕ) (view : View) (n : String)
      → written at (writes codec prefix ask slot) view (tick_key codec prefix n) ≡ (
          if is_schedule ask.req.kind
            && same (tick_key codec prefix ask.req.name) (tick_key codec prefix n)
          then some (put_entry at (tick_write codec prefix ask) (view (tick_key codec prefix n)))
          else view (tick_key codec prefix n))
  unfolding written writes tick_write
  written-tick ask slot at view n =
      let slots =
        slot-other ask slot at view (tick_key codec prefix n) (rate-ne-tick ask.req.name n) in
      elim (Bool-cases (is_schedule ask.req.kind)) [
        | inl scheduled ↦ rw (scheduled, claim-ne-tick ask.req.name n, slots) refl
        | inr manual ↦ rw (manual, claim-ne-tick ask.req.name n, slots) refl
      ]

  -- What a transaction leaves under a claim's key.
  pub written-claim :
      (ask : Ask) (slot : Option ℕ) (at : ℕ) (view : View) (n : String)
      → same (claim_key codec prefix ask.req.name) (claim_key codec prefix n) ≡ false
      → written at (writes codec prefix ask slot) view (claim_key codec prefix n)
        ≡ view (claim_key codec prefix n)
  unfolding written writes tick_write
  written-claim ask slot at view n other =
      let slots =
        slot-other ask slot at view (claim_key codec prefix n) (rate-ne-claim ask.req.name n) in
      elim (Bool-cases (is_schedule ask.req.kind)) [
        | inl scheduled ↦ rw (scheduled, other, tick-ne-claim ask.req.name n, slots) refl
        | inr manual ↦ rw (manual, other, slots) refl
      ]

  -- Where its conditions hold, no claim is there, and the tick is at the revision that was read.
  pub conditions-absent :
      (ask : Ask) (rev : ℕ) (slot : Option ℕ) (view : View)
      → all_hold view (conditions codec prefix ask.req rev slot) ≡ true
      → created (view (claim_key codec prefix ask.req.name)) ≡ 0
  unfolding all_hold conditions holds
  conditions-absent ask rev slot view h = ground arith

  pub conditions-tick :
      (ask : Ask) (rev : ℕ) (slot : Option ℕ) (view : View)
      → is_schedule ask.req.kind ≡ true
      → all_hold view (conditions codec prefix ask.req rev slot) ≡ true
      → modified (view (tick_key codec prefix ask.req.name)) ≡ rev
  unfolding all_hold conditions holds
  conditions-tick ask rev slot view scheduled h = by_kind (rw scheduled at h)
    where
      by_kind :
          all_hold view (
              Condition.created_at (claim_key codec prefix ask.req.name) 0
              ∷ (if true
                  then Condition.modified_at (tick_key codec prefix ask.req.name) rev
                    ∷ slot_conditions codec prefix ask.req.name slot
                  else slot_conditions codec prefix ask.req.name slot))
            ≡ true
          → modified (view (tick_key codec prefix ask.req.name)) ≡ rev
      by_kind k = ground arith
