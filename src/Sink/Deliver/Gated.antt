-- ===== src/Sink/Deliver/Gated.antt =====
-- sink/sink.go: a sink that fails stops no other, and a gate that refuses stops every later one.
use Prim.Native.String.{◌++◌ as str_append}
use gronin.Prelude.{
  subst, ◌≡◌, refl, ap, List, [], ◌∷◌, ◌++◌, Option, none, some, String, str_eq, Option-cases,
  Bool-cases, if◌then◌else◌, inl, inr, ◌⊎◌,
}
use gronin.Sink.Deliver.{Sink, Status, Outcome, Delivered, ask, or_skipped, outcome_of, deliver_all}

-- What the gate answers before a sink, and what it leaves outside: a nil gate passes and leaves all
-- as it was.
pub data Answers {W : Type 0} (w : W)
    : Option (W → Option String × W) → Option String → W → Type 0 where
  ungated : Answers w none none w
  asked : (gate : W → Option String × W) → Answers w (some gate) (gate w).0 (gate w).1

-- What is recorded of a sink by its name, from its outcome and its error: one that returned an error
-- is recorded as failed, with the error in the detail; another with the status that it gave, or as
-- skipped where it gave none.
abbrev pub IsRecorded : String → Outcome → Option String → Outcome → Type 0
IsRecorded name o none noted =
    (noted.sink ≡ name)
    × (noted.items_created ≡ o.items_created)
    × (noted.items_skipped ≡ o.items_skipped)
    × (noted.detail ≡ o.detail)
    × ((noted.status ≡ o.status) ⊎ ((o.status ≡ Status.unset) × (noted.status ≡ Status.skipped)))
IsRecorded name o (some e) noted =
    (noted.sink ≡ name)
    × (noted.items_created ≡ o.items_created)
    × (noted.items_skipped ≡ o.items_skipped)
    × (noted.status ≡ Status.failed)
    × ((noted.detail ≡ e) ⊎ (noted.detail ≡ str_append o.detail (str_append ": " e)))

module _ {W : Type 0} (gate : Option (W → Option String × W)) where
  -- Sinks delivered one after the other, each after the gate passed, from a state outside to
  -- another: whatever error a sink returns, the next one is delivered from what it leaves.
  pub data Ran : List (Sink W) → W → List Outcome → W → Type 0 where
    stop : (w : W) → Ran [] w [] w
    round :
        (sink : Sink W) (sinks : List (Sink W)) (noted : Outcome) (os : List Outcome) (w v u : W)
        → Answers w gate none v
        → IsRecorded sink.name (sink.deliver v).0 (sink.deliver v).1 noted
        → Ran sinks (sink.deliver v).2 os u
        → Ran (sink ∷ sinks) w (noted ∷ os) u

  ask-Answers : (w : W) → Answers w gate (ask gate w).0 (ask gate w).1
  ask-Answers w = cases gate
    where
      cases : (g : Option (W → Option String × W)) → Answers w g (ask g w).0 (ask g w).1
      cases none = Answers.ungated
      cases (some g) = Answers.asked g

or_skipped_either :
    (s : Status) → (or_skipped s ≡ s) ⊎ ((s ≡ Status.unset) × (or_skipped s ≡ Status.skipped))
or_skipped_either Status.unset = inr (refl, refl)
or_skipped_either Status.delivered = inl refl
or_skipped_either Status.created = inl refl
or_skipped_either Status.skipped = inl refl
or_skipped_either Status.capped = inl refl
or_skipped_either Status.failed = inl refl

detail_either :
    (detail e : String)
    → ((if str_eq detail "" then e else str_append detail (str_append ": " e)) ≡ e)
      ⊎ ((if str_eq detail "" then e else str_append detail (str_append ": " e))
          ≡ str_append detail (str_append ": " e))
detail_either detail e = elim (Bool-cases (str_eq detail "")) [
  | inl bare ↦ inl (rw bare refl)
  | inr more ↦ inr (rw more refl)
]

outcome_of-IsRecorded :
    (name : String) (o : Outcome) (e : Option String) → IsRecorded name o e (outcome_of name o e)
unfolding outcome_of
outcome_of-IsRecorded name o none = (refl, refl, refl, refl, or_skipped_either o.status)
outcome_of-IsRecorded name o (some e) = (refl, refl, refl, refl, detail_either o.detail e)

module _ {W : Type 0} (gate : Option (W → Option String × W)) where
  -- How a delivery ends from the state that the sinks before left: with no sink left; or at the
  -- first sink before which the gate refused, with the reason that it gave.
  abbrev pub Ended : List (Sink W) → W → Delivered W → Type 0
  Ended kept v d =
      ((kept ≡ []) × (d.refused ≡ none) × (d.world ≡ v))
      ⊎ ((sink : Sink W) × (later : List (Sink W)) × (why : String) × (kept ≡ sink ∷ later)
          × (d.refused ≡ some why)
          × Answers v gate (some why) d.world)

  -- Whatever the gate answers and whatever errors the sinks return: a first part of the sinks is
  -- delivered, each after the gate passed and from the state that this left, each recorded under its
  -- name, as failed with its error where it returned one, and the next is delivered from the state
  -- that it leaves; and no sink is left, or the gate refused before the next, which is not delivered
  -- nor any after it, and its reason is returned.
  pub deliver_all-gated :
      (sinks : List (Sink W)) (w : W)
      → (passed kept : List (Sink W)) × (v : W) × (sinks ≡ passed ++ kept)
        × Ran gate passed w (deliver_all gate sinks w).outcomes v
        × Ended kept v (deliver_all gate sinks w)
  unfolding deliver_all
  deliver_all-gated [] w = ([], [], w, refl, Ran.stop w, inl (refl, refl, refl))
  deliver_all-gated (sink ∷ sinks) w = elim (Option-cases (ask gate w).0) [
    | inr (why, refuses) ↦ (
      [],
      sink ∷ sinks,
      w,
      refl,
      rw (refuses, deliver_all) (Ran.stop w),
      rw (refuses, deliver_all)
          (inr (
            sink,
            sinks,
            why,
            refl,
            refl,
            subst (λ a. Answers w gate a (ask gate w).1) refuses (ask-Answers gate w),
          )),
    )
    | inl passes ↦
        let v = (ask gate w).1 in
        let (passed, kept, u, split, ran, ends) = deliver_all-gated sinks (sink.deliver v).2 in
        (
          sink ∷ passed,
          kept,
          u,
          ap (λ l. sink ∷ l) split,
          rw (passes, deliver_all)
              (Ran.round sink passed (outcome_of sink.name (sink.deliver v).0 (sink.deliver v).1) _
                w v u (subst (λ a. Answers w gate a v) passes (ask-Answers gate w))
                (outcome_of-IsRecorded sink.name (sink.deliver v).0 (sink.deliver v).1) ran),
          rw (passes, deliver_all) ends,
        )
  ]
