-- ===== src/Guard/Wait/Balance.antt =====
-- A wait keeps no claim but the one that it is admitted with.
use gronin.Prelude.{
  ℕ, ◌≡◌, refl, sym, ◌∙◌, Bool, true, false, List, [], ◌∷◌, Result, ok, err, arith, Bool-cases,
  Option-cases, inl, inr,
}
use gronin.Guard.Coordinator.{AcquireError}
use gronin.Guard.Wait.{
  Waiter, Round, Book, Admission, TryError, Ending, admitted, ended, left, waiting, try, gate,
  reread, changed, settle_claim, read_then_claim, after_try, await, on_error,
}

-- The claims that are granted and not given back.
abbrev pub IsBalanced : Ending → Waiter → Type 0
IsBalanced (admitted a) w = w.granted ≡ a.claim ∷ w.given_back
IsBalanced (ended m) w = w.granted ≡ w.given_back
IsBalanced left w = w.granted ≡ w.given_back
IsBalanced waiting w = w.granted ≡ w.given_back

abbrev IsBalancedTry : Result TryError Admission × Waiter → Type 0
IsBalancedTry (ok a, w) = w.granted ≡ a.claim ∷ w.given_back
IsBalancedTry (err e, w) = w.granted ≡ w.given_back

settle_claim-IsBalancedTry :
    (w : Waiter) (r : Round) (book : Book) (answer : Result AcquireError ℕ)
    → w.granted ≡ w.given_back
    → IsBalancedTry (settle_claim w r book answer)
unfolding settle_claim
settle_claim-IsBalancedTry w r book (err AcquireError.bad_request) h = h
settle_claim-IsBalancedTry w r book (err AcquireError.unavailable) h = h
settle_claim-IsBalancedTry w r book (err (AcquireError.held_by who)) h = h
settle_claim-IsBalancedTry w r book (err (AcquireError.tick_ran at who)) h = h
settle_claim-IsBalancedTry w r book (err (AcquireError.rate_limited limit)) h = h
settle_claim-IsBalancedTry w r book (ok claim) h = elim (Bool-cases (changed w r.later_stamp)) [
  | inl moved ↦ rw moved (rw h refl)
  | inr same ↦ rw same (rw h refl)
]

reread_keeps :
    (w w' : Waiter) (r : Round) (book : Book)
    → reread w r ≡ ok (book, w')
    → (w'.granted ≡ w.granted) × (w'.given_back ≡ w.given_back)
unfolding reread
reread_keeps w w' r book e = (ground arith, ground arith)

read-IsBalancedTry :
    (read : Result TryError (Book × Waiter)) (w : Waiter) (r : Round)
    → reread w r ≡ read
    → w.granted ≡ w.given_back
    → IsBalancedTry (read_then_claim read w r)
unfolding read_then_claim
read-IsBalancedTry (err e) w r p h = h
read-IsBalancedTry (ok (book, w')) w r p h =
    let (g, b) = reread_keeps w w' r book p in
    settle_claim-IsBalancedTry w' r book r.acquire (g ∙ h ∙ sym b)

try-IsBalancedTry : (w : Waiter) (r : Round) → w.granted ≡ w.given_back → IsBalancedTry (try w r)
unfolding try
try-IsBalancedTry w r h = elim (Option-cases (gate w r)) [
  | inr (e, stops) ↦ rw (stops, try) h
  | inl passes ↦ rw (passes, try) (read-IsBalancedTry (reread w r) w r refl h)
]

after_try-IsBalanced :
    (tried : Result TryError Admission × Waiter) (stopping : Bool) (next : Ending × Waiter)
    → IsBalancedTry tried
    → (tried.1.granted ≡ tried.1.given_back → IsBalanced next.0 next.1)
    → IsBalanced (after_try tried stopping next).0 (after_try tried stopping next).1
unfolding after_try on_error
after_try-IsBalanced (ok a, w) stopping next h k = h
after_try-IsBalanced (err TryError.still_held, w) stopping next h k = k h
after_try-IsBalanced (err TryError.no_run_id, w) true next h k = h
after_try-IsBalanced (err TryError.no_run_id, w) false next h k = h
after_try-IsBalanced (err (TryError.wait_ended m), w) true next h k = h
after_try-IsBalanced (err (TryError.wait_ended m), w) false next h k = h
after_try-IsBalanced (err (TryError.failed e), w) true next h k = h
after_try-IsBalanced (err (TryError.failed e), w) false next h k = h

-- However a wait goes, and in every round: from a waiter that holds no claim, each claim that it is
-- granted is given back, but the one that an admission ends with, which is not.
pub await-IsBalanced :
    (w : Waiter) (rs : List Round)
    → w.granted ≡ w.given_back
    → IsBalanced (await w rs).0 (await w rs).1
unfolding await
await-IsBalanced w [] h = h
await-IsBalanced w (r ∷ rs) h =
    after_try-IsBalanced (try w r) r.stopping (await (try w r).1 rs) (try-IsBalancedTry w r h)
      (λ k. await-IsBalanced (try w r).1 rs k)
