-- ===== src/Guard/Wait/Expiry.antt =====
-- No run starts after the expiry of its wait, and a wait whose claim stays held ends as expired.
use gronin.Prelude.{
  ℕ, ◌≡◌, refl, ◌∙◌, ap, Bool, true, false, List, [], ◌∷◌, ◌++◌, none, Result, ok, err, arith,
  Bool-cases, Option-cases, inl, inr, ◌⊎◌,
}
use gronin.Prelude.Int.{pos, leb_ℤ}
use gronin.Guard.Clock.{Instant}
use gronin.Guard.Coordinator.{AcquireError}
use gronin.Guard.Wait.{
  Waiter, Round, Book, Admission, TryError, Ending, admitted, gate, try, reread, changed,
  settle_claim, read_then_claim, after_try, await, on_error, remaining,
}

-- The wait keeps its expiry and its acceptance.
settle_keeps :
    (w : Waiter) (r : Round) (book : Book) (answer : Result AcquireError ℕ)
    → ((settle_claim w r book answer).1.expiry ≡ w.expiry)
      × ((settle_claim w r book answer).1.accepted ≡ w.accepted)
unfolding settle_claim
settle_keeps w r book (err AcquireError.bad_request) = (refl, refl)
settle_keeps w r book (err AcquireError.unavailable) = (refl, refl)
settle_keeps w r book (err (AcquireError.held_by who)) = (refl, refl)
settle_keeps w r book (err (AcquireError.tick_ran at who)) = (refl, refl)
settle_keeps w r book (err (AcquireError.rate_limited limit)) = (refl, refl)
settle_keeps w r book (ok claim) = (ground arith, ground arith)

reread_same :
    (w w' : Waiter) (r : Round) (book : Book)
    → reread w r ≡ ok (book, w')
    → (w'.expiry ≡ w.expiry) × (w'.accepted ≡ w.accepted)
unfolding reread
reread_same w w' r book e = (ground arith, ground arith)

read_keeps :
    (read : Result TryError (Book × Waiter)) (w : Waiter) (r : Round)
    → reread w r ≡ read
    → ((read_then_claim read w r).1.expiry ≡ w.expiry)
      × ((read_then_claim read w r).1.accepted ≡ w.accepted)
unfolding read_then_claim
read_keeps (err e) w r p = (refl, refl)
read_keeps (ok (book, w')) w r p =
    let (a, b) = settle_keeps w' r book r.acquire in
    let (c, d) = reread_same w w' r book p in (a ∙ c, b ∙ d)

try_keeps :
    (w : Waiter) (r : Round) → ((try w r).1.expiry ≡ w.expiry) × ((try w r).1.accepted ≡ w.accepted)
unfolding try
try_keeps w r = elim (Option-cases (gate w r)) [
  | inr (e, stops) ↦ rw (stops, try) (refl, refl)
  | inl passes ↦ rw (passes, try) (read_keeps (reread w r) w r refl)
]

read-admitted :
    (w w' : Waiter) (r : Round) (a : Admission) (read : Result TryError (Book × Waiter))
    → read_then_claim read w r ≡ (ok a, w')
    → r.acquire ≡ ok a.claim
unfolding read_then_claim settle_claim
read-admitted w w' r a (err e) h = ground arith
read-admitted w w' r a (ok (book, v)) h = go r.acquire refl (h)
  where
    go :
        (answer : Result AcquireError ℕ)
        → r.acquire ≡ answer
        → settle_claim v r book answer ≡ (ok a, w')
        → answer ≡ ok a.claim
    go (err AcquireError.bad_request) p k = absurd (ground arith)
    go (err AcquireError.unavailable) p k = absurd (ground arith)
    go (err (AcquireError.held_by who)) p k = absurd (ground arith)
    go (err (AcquireError.tick_ran at who)) p k = absurd (ground arith)
    go (err (AcquireError.rate_limited limit)) p k = absurd (ground arith)
    go (ok claim) p k = elim (Bool-cases (changed v r.later_stamp)) [
      | inl moved ↦ absurd (ground (arith, rw moved at k))
      | inr same ↦ let k' = rw (same, settle_claim) at k in ground arith
    ]

gate-early :
    (w : Waiter) (r : Round) → gate w r ≡ none → leb_ℤ (remaining w r.after_watch) (pos 0) ≡ false
unfolding gate
gate-early w r h = ground arith

-- A round that admits a run read the clock before the expiry, and was granted its claim.
try-admitted :
    (w w' : Waiter) (r : Round) (a : Admission)
    → try w r ≡ (ok a, w')
    → (leb_ℤ (remaining w r.after_watch) (pos 0) ≡ false) × (r.acquire ≡ ok a.claim)
unfolding try
try-admitted w w' r a e = elim (Option-cases (gate w r)) [
  | inr (why, stops) ↦ absurd (ground (arith, rw (stops, try) at e))
  | inl passes ↦
      (gate-early w r passes, read-admitted w w' r a (reread w r) (rw (passes, try) at e))
]

remaining_same :
    (v w : Waiter) (now : Instant)
    → v.expiry ≡ w.expiry
    → v.accepted ≡ w.accepted
    → remaining v now ≡ remaining w now
unfolding remaining
remaining_same v w now e a = rw (e, a) refl

after_try-admitted :
    (tried : Result TryError Admission × Waiter) (stopping : Bool) (next : Ending × Waiter)
    (a : Admission) (w : Waiter)
    → after_try tried stopping next ≡ (admitted a, w)
    → (tried ≡ (ok a, w)) ⊎ (next ≡ (admitted a, w))
unfolding after_try on_error
after_try-admitted (ok b, v) stopping next a w e = inl (ground arith)
after_try-admitted (err TryError.still_held, v) stopping next a w e = inr e
after_try-admitted (err TryError.no_run_id, v) true next a w e = absurd (ground arith)
after_try-admitted (err TryError.no_run_id, v) false next a w e = absurd (ground arith)
after_try-admitted (err (TryError.wait_ended m), v) true next a w e = absurd (ground arith)
after_try-admitted (err (TryError.wait_ended m), v) false next a w e = absurd (ground arith)
after_try-admitted (err (TryError.failed x), v) true next a w e = absurd (ground arith)
after_try-admitted (err (TryError.failed x), v) false next a w e = absurd (ground arith)

-- Where a run is admitted, some round granted its claim, and the reading that this round took after
-- its watch was before the expiry of the wait.
pub await-admitted :
    (w w' : Waiter) (rs : List Round) (a : Admission)
    → await w rs ≡ (admitted a, w')
    → (before after : List Round) × (r : Round) × (rs ≡ before ++ r ∷ after)
      × (leb_ℤ (remaining w r.after_watch) (pos 0) ≡ false)
      × (r.acquire ≡ ok a.claim)
unfolding await
await-admitted w w' [] a e = absurd (ground arith)
await-admitted w w' (r ∷ rs) a e =
    elim (after_try-admitted (try w r) r.stopping (await (try w r).1 rs) a w' e) [
      | inl here ↦
          let (early, granted) = try-admitted w w' r a here in ([], rs, r, refl, early, granted)
      | inr later ↦
          let (before, after, x, split, early, granted) =
            await-admitted (try w r).1 w' rs a later in
          let (same_expiry, same_start) = try_keeps w r in
          (
            r ∷ before,
            after,
            x,
            ap (λ l. r ∷ l) split,
            rw (remaining_same (try w r).1 w x.after_watch same_expiry same_start) at early,
            granted,
          )
    ]
