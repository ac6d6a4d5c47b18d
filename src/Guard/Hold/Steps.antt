-- ===== src/Guard/Hold/Steps.antt =====
-- The loop's arithmetic for durations that a deployment can arm: no sum wraps, so that the deadline
-- and the next attempt are the plain sums.
use gronin.Prelude.{
  ℕ, ◌+◌, ◌-◌, ◌*◌, ◌^◌, ◌≤◌, ◌<◌, min, ◌≡◌, refl, List, [], ◌∷◌, arith, ltb, ap, ◌∙◌, Bool-cases,
  inl, inr, ltb→lt,
}
use gronin.Prelude.Int.{pos, negsuc, pos_part, ◌+ℤ◌, ◌-ℤ◌, min_ℤ}
use gronin.Guard.Clock.{Duration, second, add, sub, add-exact, sub-exact}
use gronin.Guard.Config.{Config, check, stop_deadline}
use gronin.Guard.Hold.{
  fired_at, timer_length, Turn, fires, ends, renewed, lost, failed, stopped, over, renewing,
  unproven, gone, renew,
}

-- A duration that `LoadConfig` can have read, and that is not past 36 years.
abbrev pub IsDeclared : Duration → Type 0
IsDeclared d = (0 < pos_part d) × (pos_part d ≤ 2 ^ 60)

-- The durations of a deployment that passed the check, and the expiry of a claim granted to it.
pub record IsArmed (c : Config) (expiry : Duration) : Type 0 where
  pub passes : check c ≡ []
  pub every : IsDeclared c.renew_every
  pub bound : IsDeclared c.renew_bound
  pub stop : IsDeclared c.stop_bound
  pub claim : IsDeclared c.claim_expiry
  pub granted : pos_part c.claim_expiry ≤ pos_part expiry
  pub long : pos_part expiry ≤ 2 ^ 61

pub add_pos : (a b : ℕ) → a + b < 2 ^ 63 → add (pos a) (pos b) ≡ pos (a + b)
unfolding ◌+ℤ◌
add_pos a b h = add-exact (pos a) (pos b) (omega arith) (omega arith) ∙ ground arith

pub sub_pos : (a b : ℕ) → b ≤ a → a < 2 ^ 63 → sub (pos a) (pos b) ≡ pos (a - b)
unfolding ◌-ℤ◌
sub_pos a b h k = sub-exact (pos a) (pos b) (omega arith) (omega arith) ∙ ground arith

pub pos-of-declared : (d : Duration) → 0 < pos_part d → d ≡ pos (pos_part d)
pos-of-declared (pos n) h = refl
pos-of-declared (negsuc n) h = absurd (omega arith)

-- What the check says of durations that a deployment can arm.
pub armed_fits :
    {c : Config} {expiry : Duration}
    → IsArmed c expiry
    → (pos_part c.renew_every + pos_part c.renew_bound + pos_part c.stop_bound + 2 * second
        ≤ pos_part c.claim_expiry)
      × (pos_part c.renew_bound < pos_part c.renew_every)
unfolding check
armed_fits {c} v = ground (
  arith,
  v.passes,
  pos-of-declared c.renew_every v.every.0,
  pos-of-declared c.renew_bound v.bound.0,
  pos-of-declared c.stop_bound v.stop.0,
  pos-of-declared c.claim_expiry v.claim.0,
  add_pos (pos_part c.renew_every) (pos_part c.renew_bound) (omega (arith, v.every.1, v.bound.1)),
  add_pos (pos_part c.renew_every + pos_part c.renew_bound) (pos_part c.stop_bound)
      (omega (arith, v.every.1, v.bound.1, v.stop.1)),
  add_pos (pos_part c.renew_every + pos_part c.renew_bound + pos_part c.stop_bound) (2 * second)
      (omega (arith, v.every.1, v.bound.1, v.stop.1)),
)

-- How long after `sent` the stop deadline falls.
abbrev pub slack : Config → Duration → ℕ
slack c expiry = pos_part expiry - pos_part c.stop_bound - 2 * second

pub stop_deadline_lem :
    {c : Config} {expiry : Duration} (sent : ℕ)
    → IsArmed c expiry
    → sent ≤ 2 ^ 62
    → stop_deadline c (pos sent) expiry ≡ pos (sent + slack c expiry)
unfolding stop_deadline
stop_deadline_lem {c} {expiry} sent v h =
    let fits = armed_fits v in
    rw
      (
        pos-of-declared expiry (omega (arith, v.claim.0, v.granted)),
        pos-of-declared c.stop_bound v.stop.0,
        sub_pos (pos_part expiry) (pos_part c.stop_bound) (omega (arith, v.granted))
            (omega (arith, v.long)),
        sub_pos (pos_part expiry - pos_part c.stop_bound) (2 * second) (omega (arith, v.granted))
            (omega (arith, v.long)),
        add_pos sent (slack c expiry) (omega (arith, v.long)),
      )
      refl

min_pos : (a b : ℕ) → min_ℤ (pos a) (pos b) ≡ pos (min a b)
unfolding min_ℤ
min_pos a b = ground arith

timer_length_pos : (n : ℕ) → timer_length (pos n) ≡ pos n
unfolding timer_length
timer_length_pos n = ground arith

sub_neg : (a b : ℕ) → a < b → b < 2 ^ 62 → sub (pos a) (pos b) ≡ negsuc (b - a - 1)
unfolding ◌-ℤ◌
sub_neg a b h k = sub-exact (pos a) (pos b) (omega arith) (omega arith) ∙ ground arith

-- The timer's length with the wait in plain numbers: a next attempt already due fires it at once.
timer-wait :
    (next deadline now : ℕ)
    → now < deadline
    → next < 2 ^ 63
    → deadline ≤ 2 ^ 62
    → timer_length (min_ℤ (sub (pos next) (pos now)) (sub (pos deadline) (pos now)))
      ≡ pos (min next deadline - now)
timer-wait next deadline now h n d = elim (Bool-cases (ltb next now)) [
  | inl due ↦
      rw
        (
          sub_neg next now (ltb→lt _ _ due) (omega arith),
          sub_pos deadline now (omega arith) (omega arith),
        )
        (unfold timer_length min_ℤ in ground arith)
  | inr early ↦
      let le : now ≤ next = ground arith in
      rw
        (
          sub_pos next now le n,
          sub_pos deadline now (omega arith) (omega arith),
          min_pos (next - now) (deadline - now),
          timer_length_pos (min (next - now) (deadline - now)),
        )
        (ap pos (omega arith))
]

-- When the timer fires: at the next attempt or the deadline, whichever is first, and so late.
abbrev pub firing : ℕ → ℕ → ℕ → ℕ → ℕ
firing next deadline now late = now + (min next deadline - now + late)

pub fired_at_lem :
    {c : Config} {expiry : Duration} (deadline attempt now late : ℕ)
    → IsArmed c expiry
    → now < deadline
    → deadline ≤ 2 ^ 62
    → attempt ≤ 2 ^ 62
    → late ≤ 2 ^ 61
    → fired_at c (pos deadline) (pos attempt) (pos now) late
      ≡ pos (firing (attempt + pos_part c.renew_every) deadline now late)
unfolding fired_at
fired_at_lem {c} deadline attempt now late v h d a l =
    let every = pos_part c.renew_every in
    rw
      (
        pos-of-declared c.renew_every v.every.0,
        add_pos attempt every (omega (arith, v.every.1)),
        timer-wait (attempt + every) deadline now h (omega (arith, v.every.1)) d,
        add_pos (min (attempt + every) deadline - now) late (omega arith),
        add_pos now (min (attempt + every) deadline - now + late) (omega arith),
      )
      refl

-- Past the deadline the loop decides to stop, whatever would come.
pub renew_late :
    {c : Config} {expiry : Duration} (sent attempt now : ℕ) (turns : List Turn)
    → IsArmed c expiry
    → sent ≤ 2 ^ 62
    → sent + slack c expiry ≤ now
    → renew c expiry (pos sent) (pos attempt) (pos now) turns
      ≡ stopped (pos now) (pos sent) unproven
unfolding renew
renew_late sent attempt now [] v s h = rw (stop_deadline_lem sent v s) (ground arith)
renew_late sent attempt now (ends ∷ turns) v s h = rw (stop_deadline_lem sent v s) (ground arith)
renew_late sent attempt now (fires late took lost ∷ turns) v s h =
    rw (stop_deadline_lem sent v s) (ground arith)
renew_late sent attempt now (fires late took renewed ∷ turns) v s h =
    rw (stop_deadline_lem sent v s) (ground arith)
renew_late sent attempt now (fires late took failed ∷ turns) v s h =
    rw (stop_deadline_lem sent v s) (ground arith)

-- Before it, with no turn left, the loop goes on; and ends with the run.
pub renew_early :
    {c : Config} {expiry : Duration} (sent attempt now : ℕ) (turns : List Turn)
    → IsArmed c expiry
    → sent ≤ 2 ^ 62
    → now < sent + slack c expiry
    → (renew c expiry (pos sent) (pos attempt) (pos now) [] ≡ renewing)
      × (renew c expiry (pos sent) (pos attempt) (pos now) (ends ∷ turns) ≡ over)
unfolding renew
renew_early sent attempt now turns v s h =
    (rw (stop_deadline_lem sent v s) (ground arith), rw (stop_deadline_lem sent v s) (ground arith))

module _ {c : Config} {expiry : Duration} (sent attempt now late took : ℕ) (v : IsArmed c expiry)
    (s : sent ≤ 2 ^ 61) (a : attempt ≤ 2 ^ 61)
    (n : now + pos_part c.renew_every + late + took ≤ 2 ^ 61)
    (h : now < sent + slack c expiry) where
  abbrev pub fired : ℕ
  fired = firing (attempt + pos_part c.renew_every) (sent + slack c expiry) now late

  fired_lem : fired_at c (pos (sent + slack c expiry)) (pos attempt) (pos now) late ≡ pos fired
  fired_lem =
      fired_at_lem (sent + slack c expiry) attempt now late v h (omega (arith, v.long))
        (omega arith) (omega arith)

  pub renew_lost :
      (turns : List Turn)
      → attempt ≤ now
      → renew c expiry (pos sent) (pos attempt) (pos now) (fires late took lost ∷ turns)
        ≡ stopped (pos (fired + took)) (pos sent) gone
  unfolding renew
  renew_lost turns k =
      rw (stop_deadline_lem sent v (omega arith), fired_lem, add_pos fired took (omega arith))
        (ground arith)

  pub renew_failed :
      (turns : List Turn)
      → attempt ≤ now
      → renew c expiry (pos sent) (pos attempt) (pos now) (fires late took failed ∷ turns)
        ≡ renew c expiry (pos sent) (pos fired) (pos (fired + took)) turns
  unfolding renew
  renew_failed turns k =
      rw (stop_deadline_lem sent v (omega arith), fired_lem, add_pos fired took (omega arith))
        (ground arith)

  pub renew_renewed :
      (turns : List Turn)
      → attempt ≤ now
      → renew c expiry (pos sent) (pos attempt) (pos now) (fires late took renewed ∷ turns)
        ≡ renew c expiry (pos fired) (pos fired) (pos (fired + took)) turns
  unfolding renew
  renew_renewed turns k =
      rw (stop_deadline_lem sent v (omega arith), fired_lem, add_pos fired took (omega arith))
        (ground arith)
