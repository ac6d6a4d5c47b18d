-- ===== src/Guard/Wait/Tests.antt =====
-- A wait of three rounds: still held; granted while the file changed; granted.
use gronin.Prelude.{◌≡◌, refl, true, false, List, [], ◌∷◌, ◌++◌, none, some, ok, err}
use gronin.Prelude.Int.{pos, leb_ℤ, int64, ◌-ℤ◌}
use gronin.Guard.Clock.{sub}
use gronin.Guard.Coordinator.{AcquireError}
use gronin.Guard.Wait.{
  Book, Round, Waiter, Admission, admitted, remaining, unchanged, reread, changed, settle_claim,
  read_then_claim, gate, try, on_error, after_try, await,
}
use gronin.Guard.Wait.Balance.{IsBalanced, await-IsBalanced}
use gronin.Guard.Wait.Expiry.{await-admitted}

abbrev book : Book
book = record { name = "deploy"; rate = none }

abbrev waiter : Waiter
waiter = record {
  book = book;
  expiry = pos 1000;
  accepted = pos 100;
  edited = none;
  granted = [];
  given_back = [];
}

abbrev held_round : Round
held_round = record {
  head = pos 100;
  release_error = none;
  watched = false;
  stopping = false;
  after_watch = pos 125;
  mints = true;
  sent = pos 126;
  stamp = some 1;
  reload = some book;
  acquire = err (AcquireError.held_by none);
  later_stamp = some 1;
  claimed = pos 127;
}

abbrev rounds : List Round
rounds =
    held_round
    ∷ record held_round { acquire = ok 7; later_stamp = some 2 }
    ∷ record held_round { acquire = ok 8; stamp = some 2; later_stamp = some 2 }
    ∷ []

abbrev admission : Admission
admission = record { claim = 8; book = book; waited = pos 27; sent = pos 126 }

abbrev after_rounds : Waiter
after_rounds = record waiter { edited = some (book, 2); granted = 8 ∷ 7 ∷ []; given_back = 7 ∷ [] }

admits : await waiter rounds ≡ (admitted admission, after_rounds)
unfolding await try gate remaining reread unchanged changed settle_claim read_then_claim on_error
    after_try sub int64 ◌-ℤ◌
admits = refl

await-IsBalanced_example : IsBalanced (await waiter rounds).0 (await waiter rounds).1
await-IsBalanced_example = await-IsBalanced waiter rounds refl

await-admitted_example :
    (before after : List Round) × (r : Round) × (rounds ≡ before ++ r ∷ after)
    × (leb_ℤ (remaining waiter r.after_watch) (pos 0) ≡ false)
    × (r.acquire ≡ ok 8)
await-admitted_example = await-admitted waiter after_rounds rounds admission admits
