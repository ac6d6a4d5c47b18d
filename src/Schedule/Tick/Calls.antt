-- ===== src/Schedule/Tick/Calls.antt =====
-- schedule/schedule.go: the calls that `tickOne` makes for the occurrences that it walked.
use gronin.Prelude.{
  ℕ, zero, suc, ◌-◌, true, List, [], ◌∷◌, ◌++◌, map, Option, none, some, false, ◌==◌, ◌≡◌, refl,
  sym, Option-cases, inl, inr, ap, ◌∙◌, arith, append_assoc, append-nil,
}
use gronin.Prelude.Bytes.{Bytes}
use gronin.Schedule.Tick.{
  Reason, Call, fire, missed, Handlers, Told, record_missed, record_each, all_but_last, last_of,
  record_further, fire_last, tell,
}

-- One record of the occurrences that were not kept one by one, if there are any.
abbrev pub further_calls : Bytes → ℕ → ℕ → List Call
further_calls name last zero = []
further_calls name last (suc n) = missed name (last - 1) (Reason.further (suc n)) ∷ []

-- The record of an occurrence whose firing failed.
abbrev pub unfired_calls : Bytes → ℕ → Option ℕ → List Call
unfired_calls name last none = []
unfired_calls name last (some e) = missed name last (Reason.not_fired e) ∷ []

abbrev pub missed_calls : Bytes → List ℕ → List Call
missed_calls name = map (λ at. missed name at Reason.not_running)

last_of-append : (z at : ℕ) (ds : List ℕ) → last_of z (ds ++ at ∷ []) ≡ at
unfolding last_of
last_of-append z at [] = refl
last_of-append z at (d ∷ ds) = last_of-append d at ds

all_but_last-append : (at : ℕ) (ds : List ℕ) → all_but_last (ds ++ at ∷ []) ≡ ds
unfolding all_but_last
all_but_last-append at [] = refl
all_but_last-append at (d ∷ []) = refl
all_but_last-append at (d ∷ e ∷ ds) = ap (λ l. d ∷ l) (all_but_last-append at (e ∷ ds))

module _ (h : Handlers) (name : Bytes) (told : h.has_missed ≡ true) where
  record_missed-calls :
      (at : ℕ) (why : Reason) (t : Told)
      → (record_missed h name at why t).calls ≡ t.calls ++ missed name at why ∷ []
  unfolding record_missed
  record_missed-calls at why t = rw told refl

  record_each-calls :
      (ats : List ℕ) (t : Told)
      → (record_each h name ats t).calls ≡ t.calls ++ missed_calls name ats
  unfolding record_each
  record_each-calls [] t = sym (append-nil t.calls)
  record_each-calls (at ∷ ats) t =
      record_each-calls ats (record_missed h name at Reason.not_running t)
      ∙ ap (λ l. l ++ missed_calls name ats) (record_missed-calls at Reason.not_running t)
      ∙ append_assoc t.calls (missed name at Reason.not_running ∷ []) (missed_calls name ats)

  record_further-calls :
      (last n : ℕ) (t : Told)
      → (record_further h name last n t).calls ≡ t.calls ++ further_calls name last n
  unfolding record_further
  record_further-calls last zero t = sym (append-nil t.calls)
  record_further-calls last (suc n) t =
      let some_more : (suc n == 0) ≡ false = ground arith in
      rw some_more (record_missed-calls (last - 1) (Reason.further (suc n)) t)

  fire_last-calls :
      (last : ℕ) (t : Told)
      → (fire_last h name last t).calls
        ≡ t.calls ++ fire name last ∷ unfired_calls name last (h.fire_error name last)
  unfolding fire_last
  fire_last-calls last t = elim (Option-cases (h.fire_error name last)) [
    | inl well ↦ rw (well, fire_last) refl
    | inr (e, bad) ↦
        rw (bad, fire_last)
          (record_missed-calls last (Reason.not_fired e)
              (record t { calls = t.calls ++ fire name last ∷ [] })
            ∙ append_assoc t.calls (fire name last ∷ [])
                (missed name last (Reason.not_fired e) ∷ []))
  ]

  pub tell-calls :
      (before : List ℕ) (last n : ℕ) (t : Told)
      → (tell h name (before ++ last ∷ []) n t).calls
        ≡ t.calls
          ++ (missed_calls name before
              ++ (further_calls name last n
                  ++ fire name last ∷ unfired_calls name last (h.fire_error name last)))
  unfolding tell
  tell-calls before last n t =
      rw (last_of-append 0 last before, all_but_last-append last before)
        (let each = record_each h name before t in
          let end = fire name last ∷ unfired_calls name last (h.fire_error name last) in
          fire_last-calls last (record_further h name last n each)
          ∙ ap (λ l. l ++ end)
              (record_further-calls last n each
                ∙ ap (λ l. l ++ further_calls name last n) (record_each-calls before t)
                ∙ append_assoc t.calls (missed_calls name before) (further_calls name last n))
          ∙ append_assoc t.calls (missed_calls name before ++ further_calls name last n) end
          ∙ ap (λ l. t.calls ++ l)
              (append_assoc (missed_calls name before) (further_calls name last n) end))
