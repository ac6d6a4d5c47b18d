-- ===== src/Guard/Hold.antt =====
-- guard/holder.go: the renewal loop of a held claim, its stop decision, and the fence. The
-- environment of the loop is explicit: each turn says how late the timer fired, how long the
-- renewal took, and what it answered.
pub mod Steps
pub mod Safety
use gronin.Prelude.{
  ◌&&◌, ◌==◌, ℕ, ◌+◌, ◌≡◌, Bool, true, false, not, List, [], ◌∷◌, Option, none, some, if◌then◌else◌,
  String,
}
use gronin.Prelude.Int.{ℤ, pos, pos_part, neg_part, ltb_ℤ, min_ℤ}
use gronin.Guard.Clock.{Duration, Instant, add, sub, before}
use gronin.Guard.Config.{Config, stop_deadline}

-- What one renewal answers: nil, an error that is ErrLost, any other error.
pub data Renewal : Type 0 where
  renewed lost failed : Renewal

-- One round of the select: the timer fires so late, and the attempt takes so long; or the run is
-- over while the loop waits.
pub data Turn : Type 0 where
  fires : ℕ → ℕ → Renewal → Turn
  ends : Turn

pub data Reason : Type 0 where
  unproven gone : Reason

-- How the loop ends: a stop decision at a reading, with the `sent` it had proven; the run over; or
-- the loop still going when the turns run out.
pub data Verdict : Type 0 where
  stopped : Instant → Instant → Reason → Verdict
  over renewing : Verdict

-- A timer of a duration that is not positive fires at once.
unfoldable pub timer_length : Duration → Duration
timer_length d = if ltb_ℤ d (pos 0) then pos 0 else d

-- How long the loop waits: until the next attempt is due, or the deadline.
unfoldable pub wait_of : Config → Instant → Instant → Instant → Duration
wait_of c deadline attempt now = min_ℤ (sub (add attempt c.renew_every) now) (sub deadline now)

-- `h.now()` after the timer, which is when the attempt is sent.
unfoldable pub fired_at : Config → Instant → Instant → Instant → ℕ → Instant
unfolding timer_length wait_of
fired_at c deadline attempt now late =
    add now (add (timer_length (wait_of c deadline attempt now)) (pos late))

-- `sent` after an attempt: a renewal that succeeded moves it to when the attempt was sent.
unfoldable pub sent_after : Renewal → Instant → Instant → Instant
sent_after renewed sent attempt = attempt
sent_after lost sent attempt = sent
sent_after failed sent attempt = sent

-- `Hold.renew`, from the head of its loop.
unfoldable pub renew : Config → Duration → Instant → Instant → Instant → List Turn → Verdict
unfolding fired_at sent_after before
renew c expiry sent attempt now [] =
    if not (before now (stop_deadline c sent expiry)) then stopped now sent unproven else renewing
renew c expiry sent attempt now (ends ∷ turns) =
    if not (before now (stop_deadline c sent expiry)) then stopped now sent unproven else over
renew c expiry sent attempt now (fires late took lost ∷ turns) =
    let deadline = stop_deadline c sent expiry in
    if not (before now deadline)
    then stopped now sent unproven
    else stopped (add (fired_at c deadline attempt now late) (pos took)) sent gone
renew c expiry sent attempt now (fires late took answer ∷ turns) =
    let deadline = stop_deadline c sent expiry in
    let fired = fired_at c deadline attempt now late in
    let rest = renew c expiry (sent_after answer sent fired) fired (add fired (pos took)) turns in
    if not (before now deadline) then stopped now sent unproven else rest

-- `Expiry() == 0`: a claim that ends with the process that holds it.
unfoldable pub never_expires : Duration → Bool
never_expires d = (pos_part d == 0) && (neg_part d == 0)

-- `Guard.Hold`: the loop runs only for a claim that expires, and starts at the grant.
unfoldable pub hold : Config → Duration → Instant → Instant → List Turn → Option Verdict
unfolding never_expires
hold c expiry sent now turns =
    if never_expires expiry then none else some (renew c expiry sent sent now turns)
