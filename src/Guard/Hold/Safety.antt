-- ===== src/Guard/Hold/Safety.antt =====
-- When the renewal loop decides to stop, when it does not, and how far past its deadline it can be.
use gronin.Prelude.{
  ℕ, ◌+◌, ◌*◌, ◌^◌, ◌≤◌, ◌<◌, ◌≡◌, ◌⊎◌, inl, inr, List, [], ◌∷◌, All, arith, length, le_or_lt,
}
use gronin.Prelude.Int.{pos, pos_part, neg_part}
use gronin.Guard.Clock.{Duration, second}
use gronin.Guard.Config.{Config}
use gronin.Guard.Hold.{
  Turn, fires, ends, renewed, lost, failed, Verdict, stopped, over, renewing, unproven, renew,
}
use gronin.Guard.Hold.Steps.{
  IsArmed, armed_fits, slack, firing, renew_late, renew_early, renew_lost, renew_failed,
  renew_renewed,
}

-- At most how much time the turns take.
abbrev pub span : Config → List Turn → ℕ
span c [] = 0
span c (ends ∷ turns) = 0
span c (fires late took answer ∷ turns) = pos_part c.renew_every + late + took + span c turns

-- A renewal that succeeds within its bound.
abbrev pub IsAnswered : Config → Turn → Type 0
IsAnswered c (fires late took renewed) = took ≤ pos_part c.renew_bound
IsAnswered c (fires late took lost) = ⊥
IsAnswered c (fires late took failed) = ⊥
IsAnswered c ends = Unit

-- A timer at most so late, and an attempt that takes at most so long.
abbrev pub IsTimely : ℕ → ℕ → Turn → Type 0
IsTimely lateness longest (fires late took answer) = (late ≤ lateness) × (took ≤ longest)
IsTimely lateness longest ends = Unit

-- An attempt that does not succeed, and does not find the claim gone.
abbrev pub IsFailing : Turn → Type 0
IsFailing (fires late took failed) = Unit
IsFailing (fires late took renewed) = ⊥
IsFailing (fires late took lost) = ⊥
IsFailing ends = ⊥

-- A stop decision falls at most so long after the last proven `sent`.
abbrev pub StopsWithin : ℕ → Verdict → Type 0
StopsWithin k (stopped decided sent why) =
    pos_part decided + neg_part sent ≤ pos_part sent + neg_part decided + k
StopsWithin k over = Unit
StopsWithin k renewing = Unit

module _ {c : Config} {expiry : Duration} (v : IsArmed c expiry) where
  -- Wherever the loop stands before its deadline, and however late its timers fire: if every
  -- attempt succeeds within the renewal bound, the loop never decides to stop the run.
  renew_keeps :
      (sent attempt now : ℕ) (turns : List Turn)
      → sent ≤ attempt
      → attempt ≤ now
      → now < sent + slack c expiry
      → now + span c turns ≤ 2 ^ 61
      → All (IsAnswered c) turns
      → (renew c expiry (pos sent) (pos attempt) (pos now) turns ≡ renewing)
        ⊎ (renew c expiry (pos sent) (pos attempt) (pos now) turns ≡ over)
  renew_keeps sent attempt now [] sa an h t p =
      inl (renew_early sent attempt now [] v (omega arith) h).0
  renew_keeps sent attempt now (ends ∷ turns) sa an h t p =
      inr (renew_early sent attempt now turns v (omega arith) h).1
  renew_keeps sent attempt now (fires late took lost ∷ turns) sa an h t p = absurd p.0
  renew_keeps sent attempt now (fires late took failed ∷ turns) sa an h t p = absurd p.0
  renew_keeps sent attempt now (fires late took renewed ∷ turns) sa an h t p =
      let f = firing (attempt + pos_part c.renew_every) (sent + slack c expiry) now late in
      rw
        (renew_renewed sent attempt now late took v (omega arith) (omega arith) (omega arith) h
          turns an)
        (renew_keeps f f (f + took) turns (omega arith) (omega arith)
          (omega (arith, armed_fits v, v.granted, v.every.0)) (omega arith) p.1)

  -- Timers at most `lateness` late, attempts of at most `longest`, and a loop that is no further
  -- past its deadline than these: a stop decision falls at most `lateness + longest` after the
  -- deadline that follows from the last `sent` that it had proven.
  pub renew-StopsWithin :
      (lateness longest sent attempt now : ℕ) (turns : List Turn)
      → sent ≤ attempt
      → attempt ≤ now
      → now ≤ sent + slack c expiry + lateness + longest
      → now + span c turns ≤ 2 ^ 61
      → All (IsTimely lateness longest) turns
      → StopsWithin
          (slack c expiry + lateness + longest)
          (renew c expiry (pos sent) (pos attempt) (pos now) turns)
  renew-StopsWithin lateness longest sent attempt now [] sa an h t p =
      elim (le_or_lt (sent + slack c expiry) now) [
        | inl past ↦ rw (renew_late sent attempt now [] v (omega arith) past) (omega arith)
        | inr early ↦ rw (renew_early sent attempt now [] v (omega arith) early).0 tt
      ]
  renew-StopsWithin lateness longest sent attempt now (ends ∷ turns) sa an h t p =
      elim (le_or_lt (sent + slack c expiry) now) [
        | inl past ↦
            rw (renew_late sent attempt now (ends ∷ turns) v (omega arith) past) (omega arith)
        | inr early ↦ rw (renew_early sent attempt now turns v (omega arith) early).1 tt
      ]
  renew-StopsWithin lateness longest sent attempt now (fires late took lost ∷ turns) sa an h t p =
      elim (le_or_lt (sent + slack c expiry) now) [
        | inl past ↦
            rw (renew_late sent attempt now (fires late took lost ∷ turns) v (omega arith) past)
              (omega arith)
        | inr early ↦
            rw
              (renew_lost sent attempt now late took v (omega arith) (omega arith) (omega arith)
                early turns an)
              (omega (arith, p.0))
      ]
  renew-StopsWithin lateness longest sent attempt now (fires late took failed ∷ turns) sa an h t p =
      let f = firing (attempt + pos_part c.renew_every) (sent + slack c expiry) now late in
      elim (le_or_lt (sent + slack c expiry) now) [
        | inl past ↦
            rw (renew_late sent attempt now (fires late took failed ∷ turns) v (omega arith) past)
              (omega arith)
        | inr early ↦
            rw
              (renew_failed sent attempt now late took v (omega arith) (omega arith) (omega arith)
                early turns an)
              (renew-StopsWithin lateness longest sent f (f + took) turns (omega arith)
                (omega arith) (omega (arith, p.0)) (omega arith) p.1)
      ]
  renew-StopsWithin lateness longest sent attempt now (fires late took renewed ∷ turns) sa an h t
        p =
      let f = firing (attempt + pos_part c.renew_every) (sent + slack c expiry) now late in
      elim (le_or_lt (sent + slack c expiry) now) [
        | inl past ↦
            rw (renew_late sent attempt now (fires late took renewed ∷ turns) v (omega arith) past)
              (omega arith)
        | inr early ↦
            rw
              (renew_renewed sent attempt now late took v (omega arith) (omega arith) (omega arith)
                early turns an)
              (renew-StopsWithin lateness longest f f (f + took) turns (omega arith) (omega arith)
                (omega (arith, p.0)) (omega arith) p.1)
      ]

  -- A run whose renewals all fail is stopped as unproven, once the turns are enough to reach the
  -- deadline by the renewal interval alone.
  pub renew_failing-stops :
      (sent attempt now : ℕ) (turns : List Turn)
      → sent ≤ attempt
      → attempt ≤ now
      → now + span c turns ≤ 2 ^ 61
      → All IsFailing turns
      → sent + slack c expiry ≤ attempt + length turns * pos_part c.renew_every
      → (decided : ℕ) × (renew c expiry (pos sent) (pos attempt) (pos now) turns
          ≡ stopped (pos decided) (pos sent) unproven)
        × (sent + slack c expiry ≤ decided)
  renew_failing-stops sent attempt now [] sa an t p h =
      (now, renew_late sent attempt now [] v (omega arith) (omega arith), omega arith)
  renew_failing-stops sent attempt now (ends ∷ turns) sa an t p h = absurd p.0
  renew_failing-stops sent attempt now (fires late took renewed ∷ turns) sa an t p h = absurd p.0
  renew_failing-stops sent attempt now (fires late took lost ∷ turns) sa an t p h = absurd p.0
  renew_failing-stops sent attempt now (fires late took failed ∷ turns) sa an t p h =
      elim (le_or_lt (sent + slack c expiry) now) [
        | inl past ↦ (
          now,
          renew_late sent attempt now (fires late took failed ∷ turns) v (omega arith) past,
          past,
        )
        | inr early ↦
            let f = firing (attempt + pos_part c.renew_every) (sent + slack c expiry) now late in
            rw
              (renew_failed sent attempt now late took v (omega arith) (omega arith) (omega arith)
                early turns an)
              (renew_failing-stops sent f (f + took) turns (omega arith) (omega arith) (omega arith)
                p.1 (grind arith))
      ]

  -- With durations that passed the check, and a reading of at most 2^60 nanoseconds: where the
  -- renewal bound is longer than the margin of two seconds, and the deadline is still ahead and
  -- comes no later than the next attempt is due, a timer on time and an attempt that uses its
  -- whole bound and fails put the stop decision a renewal bound past the deadline, and the stop bound
  -- then ends after the claim's expiry.
  pub renew_hanging-overruns :
      (sent attempt now : ℕ)
      → sent ≤ attempt
      → attempt ≤ now
      → now < sent + slack c expiry
      → sent + slack c expiry ≤ attempt + pos_part c.renew_every
      → now ≤ 2 ^ 60
      → 2 * second < pos_part c.renew_bound
      → (renew c expiry
            (pos sent)
            (pos attempt)
            (pos now)
            (fires 0 (pos_part c.renew_bound) failed ∷ [])
          ≡ stopped (pos (sent + slack c expiry + pos_part c.renew_bound)) (pos sent) unproven)
        × (sent + pos_part expiry
            < sent + slack c expiry + pos_part c.renew_bound + pos_part c.stop_bound)
  renew_hanging-overruns sent attempt now sa an early due near b =
      let bound = pos_part c.renew_bound in
      let f = firing (attempt + pos_part c.renew_every) (sent + slack c expiry) now 0 in
      let at : f + bound ≡ sent + slack c expiry + bound = omega arith in
      (
        rw
            (renew_failed sent attempt now 0 bound v (omega arith) (omega arith)
              (omega (arith, armed_fits v, v.claim.1)) early [] an)
            (rw at
              (renew_late sent f (sent + slack c expiry + bound) [] v (omega arith) (omega arith))),
        omega (arith, armed_fits v, v.granted),
      )
