-- ===== src/Sink/Tests.antt =====
-- Two sinks, the first of which fails, and a gate that refuses the second.
use gronin.Prelude.{
  ℕ, suc, ◌≡◌, refl, List, [], ◌∷◌, ◌++◌, Option, none, some, String, false, ◌==◌, if◌then◌else◌,
}
use gronin.Prelude.Int.{pos}
use gronin.Sink.Deliver.{Sink, Status, deliver_all}
use gronin.Sink.Deliver.Gated.{Ran, Ended, deliver_all-gated}

-- The state outside counts the deliveries.
abbrev failing : Sink ℕ
failing = record {
  name = "github";
  creates = false;
  cap = none;
  deliver = λ n. (
    record {
      sink = "";
      status = Status.unset;
      detail = "";
      items_created = pos 0;
      items_skipped = pos 0;
    },
    some "no route",
    suc n,
  );
}

abbrev working : Sink ℕ
working = record failing {
  name = "slack";
  deliver = λ n. (
    record {
      sink = "";
      status = Status.delivered;
      detail = "";
      items_created = pos 0;
      items_skipped = pos 0;
    },
    none,
    suc n,
  );
}

abbrev once_only : ℕ → Option String × ℕ
once_only n = if n == 0 then (none, n) else (some "claim lost", n)

-- Only the first sink delivered.
stops_second : (deliver_all (some once_only) (failing ∷ working ∷ []) 0).world ≡ 1
unfolding deliver_all
stops_second = refl

deliver_all-gated_example :
    (passed kept : List (Sink ℕ)) × (v : ℕ) × (failing ∷ working ∷ [] ≡ passed ++ kept)
    × Ran
        (some once_only)
        passed
        0
        (deliver_all (some once_only) (failing ∷ working ∷ []) 0).outcomes
        v
    × Ended (some once_only) kept v (deliver_all (some once_only) (failing ∷ working ∷ []) 0)
deliver_all-gated_example = deliver_all-gated (some once_only) (failing ∷ working ∷ []) 0
