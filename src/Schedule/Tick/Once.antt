-- ===== src/Schedule/Tick/Once.antt =====
-- schedule/schedule.go: one tick of an armed playbook, as a whole.
use gronin.Prelude.{
  ℕ, zero, suc, ◌+◌, ◌-◌, length-append, ◌≤◌, ◌<◌, true, List, [], ◌∷◌, ◌++◌, none, some, ltb,
  length, ◌≡◌, refl, ap, ◌∙◌, arith, inl, inr, Bool-cases, All,
}
use gronin.Prelude.Bytes.{at_most}
use gronin.Schedule.Tick.{
  Entry, Handlers, Walk, walk, note_due, Told, fire, tell, settle_tick, no_walk, tick_one,
  place_entry, sort_entries, tick_each, tick,
}
use gronin.Schedule.Tick.Accounts.{Dues, take, walk-Dues, note_all-kept}
use gronin.Schedule.Tick.Calls.{missed_calls, further_calls, unfired_calls, tell-calls}

module _ (fuel : ℕ) (h : Handlers) (now : ℕ) (e : Entry) (t : Told) where
  tick_one-walked :
      (w : Walk)
      → walk fuel e.next now (e.next e.seen_to) no_walk ≡ some w
      → tick_one fuel h now e t ≡ some (settle_tick h now e t w)
  unfolding tick_one
  tick_one-walked w p = rw (p, tick_one) refl

  tick_one-none :
      walk fuel e.next now (e.next e.seen_to) no_walk ≡ none → tick_one fuel h now e t ≡ none
  unfolding tick_one
  tick_one-none p = rw (p, tick_one) refl

  settle_tick-tell :
      (w : Walk)
      → 0 < length w.due
      → settle_tick h now e t w ≡ (record e { seen_to = now }, tell h e.name w.due w.overflow t)
  unfolding settle_tick
  settle_tick-tell w pos = cases w.due w.overflow pos
    where
      cases :
          (due : List ℕ) (overflow : ℕ)
          → 0 < length due
          → settle_tick h now e t (record { due = due; overflow = overflow })
            ≡ (record e { seen_to = now }, tell h e.name due overflow t)
      cases [] overflow p = absurd (omega arith)
      cases (d ∷ ds) overflow p = refl

length-append-pos : (ds : List ℕ) (at : ℕ) → 0 < length (ds ++ at ∷ [])
length-append-pos ds at = omega (arith, length-append ds (at ∷ []))

-- Where the occurrences due are some earlier ones and a last one, a tick of a scheduler that
-- records missed ones ends within a round for each of them and one more, and brings the entry up
-- to now. It calls, in this order: for each of the first 49 of the earlier ones, a record that it
-- was missed; where there are more, one record of how many, at the nanosecond before the last; the
-- firing of the last; and where that fails, a record that the last was not fired.
pub tick_one-accounted :
    (fuel : ℕ) (h : Handlers) (now : ℕ) (e : Entry) (t : Told) (earlier : List ℕ) (last : ℕ)
    → Dues e.next now (e.next e.seen_to) (earlier ++ last ∷ [])
    → length (earlier ++ last ∷ []) < fuel
    → h.has_missed ≡ true
    → (told : Told) × (tick_one fuel h now e t ≡ some (record e { seen_to = now }, told))
      × (told.calls
          ≡ t.calls
            ++ (missed_calls e.name (take 49 earlier)
                ++ (further_calls e.name last (length earlier - 49)
                    ++ fire e.name last ∷ unfired_calls e.name last (h.fire_error e.name last))))
tick_one-accounted fuel h now e t earlier last dues enough told =
    let before = take 49 earlier in
    let n = length earlier - 49 in
    let w : Walk = record { due = before ++ last ∷ []; overflow = n } in
    (
      tell h e.name (before ++ last ∷ []) n t,
      tick_one-walked fuel h now e t w (
            walk-Dues fuel e.next now (e.next e.seen_to) (earlier ++ last ∷ []) no_walk dues enough
            ∙ ap some (note_all-kept earlier last))
          ∙ ap some (settle_tick-tell fuel h now e t w (length-append-pos before last)),
      tell-calls h e.name told before last n t,
    )

-- A walk from an instant that comes after no occurrence does not end.
walk-stuck :
    (fuel : ℕ) (next : ℕ → ℕ) (now : ℕ) (w : Walk) → next 0 ≡ 0 → walk fuel next now 0 w ≡ none
unfolding walk
walk-stuck zero next now w stuck = refl
walk-stuck (suc fuel) next now w stuck =
    ground (arith, walk-stuck fuel next now (note_due 0 w) stuck)

-- Where the cron library finds no occurrence after the instant that an entry has seen to, nor after
-- the zero time, and answers with the zero time, as it documents, the tick of the entry does not
-- end: no fuel is enough.
pub tick_one-unending :
    (fuel : ℕ) (h : Handlers) (now : ℕ) (e : Entry) (t : Told)
    → e.next e.seen_to ≡ 0
    → e.next 0 ≡ 0
    → tick_one fuel h now e t ≡ none
tick_one-unending fuel h now e t none_left none_ever = tick_one-none fuel h now e t (
    ap (λ at. walk fuel e.next now at no_walk) none_left
    ∙ walk-stuck fuel e.next now no_walk none_ever)

-- The cron library's promise, for a schedule that always has a next occurrence.
abbrev pub IsLater : Entry → Type 0
IsLater e = (at : ℕ) → at < e.next at

walk-ends :
    (fuel : ℕ) (next : ℕ → ℕ) (now at : ℕ) (w : Walk)
    → ((t : ℕ) → t < next t)
    → now < at + fuel
    → (last : Walk) × (walk (suc fuel) next now at w ≡ some last)
unfolding walk
walk-ends zero next now at w later enough = (w, ground arith)
walk-ends (suc fuel) next now at w later enough = elim (Bool-cases (ltb now at)) [
  | inl over ↦ (w, rw over refl)
  | inr due ↦
      let (last, rest) =
        walk-ends fuel next now (next at) (note_due at w) later (omega (arith, later at)) in
      (last, rw due rest)
]

tick_each-total :
    (fuel : ℕ) (h : Handlers) (now : ℕ) (es : List Entry) (t : Told)
    → All IsLater es
    → now ≤ fuel
    → (last : List Entry × Told) × (tick_each (suc fuel) h now es t ≡ some last)
unfolding tick_each
tick_each-total fuel h now [] t later enough = (([], t), refl)
tick_each-total fuel h now (e ∷ es) t (one, later) enough =
    let (w, walked) =
      walk-ends fuel e.next now (e.next e.seen_to) no_walk one (omega (arith, one e.seen_to)) in
    let (e', t') = settle_tick h now e t w in
    let ((es', last), rest) = tick_each-total fuel h now es t' later enough in
    (
      (e' ∷ es', last),
      rw (tick_one-walked (suc fuel) h now e t w walked, tick_each) (rw (rest, tick_each) refl),
    )

All-place_entry :
    (e : Entry) (es : List Entry) → IsLater e → All IsLater es → All IsLater (place_entry e es)
unfolding place_entry
All-place_entry e [] one all = (one, tt)
All-place_entry e (f ∷ fs) one (first, all) = elim (Bool-cases (at_most e.name f.name)) [
  | inl below ↦ rw (below, place_entry) (one, (first, all))
  | inr above ↦ rw (above, place_entry) (first, All-place_entry e fs one all)
]

All-sort_entries : (es : List Entry) → All IsLater es → All IsLater (sort_entries es)
unfolding sort_entries
All-sort_entries [] all = tt
All-sort_entries (e ∷ es) (one, all) =
    All-place_entry e (sort_entries es) one (All-sort_entries es all)

-- Where each armed schedule always has a next occurrence, a tick ends, for whatever entries.
pub tick-total :
    (fuel : ℕ) (h : Handlers) (now : ℕ) (es : List Entry)
    → All IsLater es
    → now ≤ fuel
    → (last : List Entry × Told) × (tick (suc fuel) h now es ≡ some last)
unfolding tick
tick-total fuel h now es later enough =
    tick_each-total fuel h now (sort_entries es) _ (All-sort_entries es later) enough
