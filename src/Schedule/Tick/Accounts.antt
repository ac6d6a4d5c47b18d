-- ===== src/Schedule/Tick/Accounts.antt =====
-- schedule/schedule.go: what the walk of `tickOne` keeps of the occurrences that have come due.
use gronin.Prelude.{
  false, ltb, Bool-cases, ◌==◌, ℕ, zero, suc, ◌+◌, ◌-◌, ◌≤◌, ◌<◌, true, List, [], ◌∷◌, ◌++◌, some,
  length, length-append, ◌≡◌, refl, sym, ap, ◌∙◌, arith, append_assoc, append-nil, inl, inr,
}
use gronin.Schedule.Tick.{set_last, Walk, note_due, walk, no_walk, catch_up_limit}

-- The occurrences from `at` on that are due at `now`, in order.
abbrev pub Dues : (ℕ → ℕ) → ℕ → ℕ → List ℕ → Type 0
Dues next now at [] = now < at
Dues next now at (d ∷ ds) = (d ≡ at) × (at ≤ now) × Dues next now (next at) ds

unfoldable pub note_all : List ℕ → Walk → Walk
note_all [] w = w
note_all (d ∷ ds) w = note_all ds (note_due d w)

-- With a round for each occurrence that is due and one more, the walk ends.
pub walk-Dues :
    (fuel : ℕ) (next : ℕ → ℕ) (now at : ℕ) (ds : List ℕ) (w : Walk)
    → Dues next now at ds
    → length ds < fuel
    → walk fuel next now at w ≡ some (note_all ds w)
unfolding walk note_all
walk-Dues zero next now at ds w h k = absurd (omega arith)
walk-Dues (suc fuel) next now at [] w h k = ground arith
walk-Dues (suc fuel) next now at (d ∷ ds) w (e, due, later) k =
    ground (arith, walk-Dues fuel next now (next at) ds (note_due at w) later (omega arith))

-- The first so many of a list.
unfoldable pub take {ℓ} : {A : Type ℓ} → ℕ → List A → List A
take n [] = []
take zero (x ∷ xs) = []
take (suc n) (x ∷ xs) = x ∷ take n xs

take-all {ℓ} : {A : Type ℓ} (n : ℕ) (xs : List A) → length xs ≤ n → take n xs ≡ xs
unfolding take
take-all n [] h = refl
take-all zero (x ∷ xs) h = absurd (omega arith)
take-all (suc n) (x ∷ xs) h = ap (λ l. x ∷ l) (take-all n xs (omega arith))

-- A list that is longer has one more after those, and a rest.
take-split {ℓ} :
    {A : Type ℓ} (n : ℕ) (xs : List A)
    → n < length xs
    → (x : A) × (rest : List A) × (xs ≡ take n xs ++ x ∷ rest)
      × (length (take n xs) ≡ n)
      × (length xs ≡ n + 1 + length rest)
unfolding take
take-split n [] h = absurd (omega arith)
take-split zero (x ∷ xs) h = (x, xs, refl, refl, omega arith)
take-split (suc n) (x ∷ xs) h =
    let (y, rest, split, here, all) = take-split n xs (omega arith) in
    (y, rest, ap (λ l. x ∷ l) split, omega (arith, here), omega (arith, all))

set_last-append : (at x : ℕ) (ds : List ℕ) → set_last at (ds ++ x ∷ []) ≡ ds ++ at ∷ []
unfolding set_last
set_last-append at x [] = refl
set_last-append at x (d ∷ []) = refl
set_last-append at x (d ∷ e ∷ ds) = ap (λ l. d ∷ l) (set_last-append at x (e ∷ ds))

note_all-append : (ds es : List ℕ) (w : Walk) → note_all (ds ++ es) w ≡ note_all es (note_all ds w)
unfolding note_all
note_all-append [] es w = refl
note_all-append (d ∷ ds) es w = note_all-append ds es (note_due d w)

-- Below the limit, the walk keeps every occurrence.
note_all_within :
    (ds due : List ℕ) (overflow : ℕ)
    → length due + length ds ≤ catch_up_limit
    → note_all ds (record { due = due; overflow = overflow })
      ≡ record { due = due ++ ds; overflow = overflow }
unfolding note_all note_due
note_all_within [] due overflow h =
    ap (λ l. record { due = l; overflow = overflow }) (sym (append-nil due))
note_all_within (d ∷ ds) due overflow h =
    let below : (length due == catch_up_limit) ≡ false = ground arith in
    rw below (
      note_all_within ds (due ++ d ∷ []) overflow (omega (arith, length-append due (d ∷ [])))
      ∙ ap (λ l. record { due = l; overflow = overflow }) (append_assoc due (d ∷ []) ds))

note_due_full :
    (before : List ℕ) (at x overflow : ℕ)
    → length before + 1 ≡ catch_up_limit
    → note_due at (record { due = before ++ x ∷ []; overflow = overflow })
      ≡ record { due = before ++ at ∷ []; overflow = overflow + 1 }
unfolding note_due
note_due_full before at x overflow h =
    let full : (length (before ++ x ∷ []) == catch_up_limit) ≡ true =
      ground (arith, length-append before (x ∷ [])) in
    rw full (rw (set_last-append at x before) refl)

-- At the limit, it replaces the last one that it keeps, and counts.
note_all_beyond :
    (ds before : List ℕ) (x last overflow : ℕ)
    → length before + 1 ≡ catch_up_limit
    → note_all (ds ++ last ∷ []) (record { due = before ++ x ∷ []; overflow = overflow })
      ≡ record { due = before ++ last ∷ []; overflow = overflow + length ds + 1 }
unfolding note_all
note_all_beyond [] before x last overflow full =
    note_due_full before last x overflow full
    ∙ ap (λ n. record { due = before ++ last ∷ []; overflow = n }) (omega arith)
note_all_beyond (d ∷ ds) before x last overflow full =
    ap (note_all (ds ++ last ∷ [])) (note_due_full before d x overflow full)
    ∙ note_all_beyond ds before d last (overflow + 1) full
    ∙ ap (λ n. record { due = before ++ last ∷ []; overflow = n }) (omega arith)

-- What the walk keeps of the occurrences: the last one, those before it as far as the limit leaves
-- room, and how many more there were.
pub note_all-kept :
    (earlier : List ℕ) (last : ℕ)
    → note_all (earlier ++ last ∷ []) no_walk
      ≡ record { due = take 49 earlier ++ last ∷ []; overflow = length earlier - 49 }
note_all-kept earlier last = elim (Bool-cases (ltb 49 (length earlier))) [
  | inr few ↦
      note_all_within (earlier ++ last ∷ []) [] 0
        (ground (arith, few, length-append earlier (last ∷ [])))
      ∙ rw (take-all 49 earlier (ground (arith, few)))
          (ap (λ n. record { due = earlier ++ last ∷ []; overflow = n }) (ground (arith, few)))
  | inl many ↦
      let (x, rest, split, here, all) = take-split 49 earlier (ground (arith, many)) in
      let kept = take 49 earlier in
      let join : earlier ++ last ∷ [] ≡ (kept ++ x ∷ []) ++ (rest ++ last ∷ []) =
        ap (λ l. l ++ last ∷ []) split
        ∙ append_assoc kept (x ∷ rest) (last ∷ [])
        ∙ sym (append_assoc kept (x ∷ []) (rest ++ last ∷ [])) in
      ap (λ l. note_all l no_walk) join
      ∙ note_all-append (kept ++ x ∷ []) (rest ++ last ∷ []) no_walk
      ∙ ap (note_all (rest ++ last ∷ []))
          (note_all_within (kept ++ x ∷ []) [] 0 (omega (arith, here, length-append kept (x ∷ []))))
      ∙ note_all_beyond rest kept x last 0 (omega (arith, here))
      ∙ ap (λ n. record { due = kept ++ last ∷ []; overflow = n }) (omega (arith, all))
]
