-- ===== src/Guard/Etcd/Tests.antt =====
-- Tests and examples of guard/etcd/, over a server in memory.
use Prim.Native.Char.{code}
use gronin.Prelude.{
  ℕ, zero, suc, ◌+◌, String, Bool, true, false, List, [], ◌∷◌, Option, none, some, ◌==◌, ◌≡◌, refl,
  ap, subst, arith, ◌<◌, if◌then◌else◌, ok, err,
}
use gronin.Prelude.Bytes.{codes, same}
use gronin.Guard.Coordinator.{Holder, RateLimit, Kind, AcquireRequest, AcquireError}
use gronin.Guard.Etcd.Server.{
  View, Condition, Write, Etcd, all_hold, written, without, next_revision, is_under, holds,
}
use gronin.Guard.Etcd.{
  HolderValue, TickValue, Codec, TakeError, Claim, Round, tick_ran, free_from, free_slot,
  choose_slot, before_sending, refuse_tick, ran_as, claim_key, tick_key, rate_key, read_holder,
  read_tick, slots_from, slots_of, state_of,
}
use gronin.Guard.Etcd.Take.{
  Ask, slot_conditions, conditions, slot_writes, tick_write, writes, granted_claim, on_answer, send,
  on_reading, take_round, after_round, take,
}
use gronin.Guard.Etcd.Acquire.{fence, FenceError}
use gronin.Guard.Etcd.Revisions.{IsNumbered, Later, here, ended, wrote, Later-IsNumbered}
use gronin.Guard.Etcd.Sent.{Follows}
use gronin.Guard.Etcd.Once.{start, lapsed, take-once}
use gronin.Guard.Etcd.Fenced.{claim_entry, fence-held}
use gronin.Guard.Etcd.Slots.{take-slot}

-- A text, each byte after a mark, and an end.
put_text : String → String → String
put_text String.[] rest = String.◌∷◌ "." rest
put_text (String.◌∷◌ c s) rest = String.◌∷◌ "+" (String.◌∷◌ c (put_text s rest))

get_text : String → Option (String × String)
get_text String.[] = none
get_text (String.◌∷◌ m String.[]) = if code m == b'.' then some (String.[], String.[]) else none
get_text (String.◌∷◌ m (String.◌∷◌ c s)) =
    if code m == b'.'
    then some (String.[], String.◌∷◌ c s)
    else elim (get_text s) [ none ↦ none | some (t, rest) ↦ some (String.◌∷◌ c t, rest) ]

get_text-put_text : (s rest : String) → get_text (put_text s rest) ≡ some (s, rest)
unfolding get_text put_text
get_text-put_text String.[] String.[] = refl
get_text-put_text String.[] (String.◌∷◌ c rest) = refl
get_text-put_text (String.◌∷◌ c s) rest = rw (get_text-put_text s rest) refl

put_number : ℕ → String → String
put_number zero rest = String.◌∷◌ "." rest
put_number (suc n) rest = String.◌∷◌ "+" (put_number n rest)

get_number : String → Option (ℕ × String)
get_number String.[] = none
get_number (String.◌∷◌ m s) =
    if code m == b'.'
    then some (0, s)
    else elim (get_number s) [ none ↦ none | some (n, rest) ↦ some (suc n, rest) ]

get_number-put_number : (n : ℕ) (rest : String) → get_number (put_number n rest) ≡ some (n, rest)
unfolding get_number put_number
get_number-put_number zero rest = refl
get_number-put_number (suc n) rest = rw (get_number-put_number n rest) refl

put_holder : Holder → String → String
put_holder h rest = put_text h.host (put_text h.instance_id (put_text h.run_id rest))

get_holder : String → Option Holder
get_holder s = elim (get_text s) [
  | none ↦ none
  | some (host, s') ↦ elim (get_text s') [
    | none ↦ none
    | some (instance_id, s'') ↦ elim (get_text s'') [
      | none ↦ none
      | some (run_id, rest) ↦
          some (record { host = host; instance_id = instance_id; run_id = run_id })
    ]
  ]
]

get_holder-put_holder : (h : Holder) (rest : String) → get_holder (put_holder h rest) ≡ some h
unfolding get_holder put_holder
get_holder-put_holder h rest = ground (
  arith,
  get_text-put_text h.host (put_text h.instance_id (put_text h.run_id rest)),
  get_text-put_text h.instance_id (put_text h.run_id rest),
  get_text-put_text h.run_id rest,
)

encode_tick : TickValue → String
encode_tick t = put_number t.due_at (put_holder t.holder String.[])

with_due : ℕ → Option Holder → Option TickValue
with_due due none = none
with_due due (some h) = some (record { due_at = due; holder = h })

decode_tick : String → Option TickValue
decode_tick s = elim (get_number s) [
  | none ↦ none
  | some (due, rest) ↦ with_due due (get_holder rest)
]

decode_tick-encode_tick : (t : TickValue) → decode_tick (encode_tick t) ≡ some t
unfolding decode_tick encode_tick with_due
decode_tick-encode_tick t = ground (
  arith,
  get_number-put_number t.due_at (put_holder t.holder String.[]),
  get_holder-put_holder t.holder String.[],
)

taken_at : Option Holder → Option HolderValue
taken_at none = none
taken_at (some h) = some (record { holder = h; taken = 0 })

abbrev marked : Codec
marked = record {
  encode_holder = λ h. put_holder h.holder String.[];
  decode_holder = λ s. taken_at (get_holder s);
  encode_tick = encode_tick;
  decode_tick = decode_tick;
  decimal = λ i. (b'0' + i) ∷ [];
  decode_tick-encode_tick = decode_tick-encode_tick;
}

-- A server in memory.
record Memory : Type 0 where
  view : View
  at : ℕ

memory_txn : List Condition → List Write → Memory → Bool × Memory
memory_txn cs ws s =
    if all_hold s.view cs
    then (true, record { view = written (suc s.at) ws s.view; at = next_revision ws s.at })
    else (false, s)

memory_commits :
    (cs : List Condition) (ws : List Write) (s : Memory)
    → all_hold s.view cs ≡ true
    → memory_txn cs ws s
      ≡ (true, record { view = written (suc s.at) ws s.view; at = next_revision ws s.at })
unfolding memory_txn
memory_commits cs ws s h = rw h refl

memory_refuses :
    (cs : List Condition) (ws : List Write) (s : Memory)
    → all_hold s.view cs ≡ false
    → memory_txn cs ws s ≡ (false, s)
unfolding memory_txn
memory_refuses cs ws s h = rw h refl

abbrev memory : Etcd Memory
memory = record {
  get = λ s. s.view;
  revision = λ s. s.at;
  txn = memory_txn;
  revoke = λ id s. record { view = λ key. without id (s.view key); at = s.at };
  commits = λ cs ws s h. ap (λ r. r.0) (memory_commits cs ws s h);
  commit-get = λ cs ws s h key. ap (λ r. r.1.view key) (memory_commits cs ws s h);
  commit-revision = λ cs ws s h. ap (λ r. r.1.at) (memory_commits cs ws s h);
  refuses = memory_refuses;
  get-revoke = λ id s key. refl;
  revision-revoke = λ id s. omega arith;
}

abbrev empty : Memory
empty = record { view = λ key. none; at = 1 }

abbrev limit : RateLimit
limit = record { runs = 2; per = 3600000000000 }

abbrev nightly : ℕ → AcquireRequest
nightly due = record {
  name = "nightly";
  holder = record { host = "h"; instance_id = "i"; run_id = "r" };
  rate = some limit;
  kind = Kind.schedule;
  due_at = due;
}

abbrev asks : ℕ → Ask
asks due = record { req = nightly due; taken = 0; lease = due; granted = 30; rate_lease = some 7 }

abbrev round_at : Memory → Round Memory
round_at s = record {
  expired = false;
  reading = some s;
  arrives = s;
  answered = true;
  applied = true;
}

abbrev taken : Memory → ℕ → ℕ → Memory
taken s due slot =
    (memory_txn
      (conditions marked (codes "g/") (nightly due) (if s.at == 1 then 0 else 2) (some slot))
      (writes marked (codes "g/") (asks due) (some slot)) s).1

abbrev first : Memory
first = taken empty 5 0

abbrev freed : Memory
freed = memory.revoke 5 first

abbrev claim_of : ℕ → ℕ → Claim
claim_of due token = record { name = "nightly"; lease = due; token = token; granted = 30 }

first_taken :
    take memory marked (codes "g/") (asks 5) (round_at empty ∷ [])
    ≡ some (ok (claim_of 5 2), some (empty, first))
unfolding take after_round take_round on_reading send on_answer granted_claim before_sending
    choose_slot free_slot free_from tick_ran state_of read_holder read_tick slots_of slots_from
    memory_txn all_hold holds written next_revision conditions slot_conditions writes slot_writes
    tick_write claim_key tick_key rate_key same
first_taken = refl

-- After the lease of the first run ends, its tick and its rate slot stay.
abbrev second : Memory
second = taken freed 9 1

second_taken :
    take memory marked (codes "g/") (asks 9) (round_at freed ∷ [])
    ≡ some (ok (claim_of 9 3), some (freed, second))
unfolding take after_round take_round on_reading send on_answer granted_claim before_sending
    choose_slot free_slot free_from tick_ran state_of read_holder read_tick slots_of slots_from
    memory_txn all_hold holds written next_revision conditions slot_conditions writes slot_writes
    tick_write claim_key tick_key rate_key same without is_under encode_tick decode_tick with_due
    put_holder get_holder put_text get_text put_number get_number
second_taken = refl

-- The occurrence that ran is refused, naming the run that took it.
take_again :
    take memory marked (codes "g/") (asks 5) (round_at freed ∷ [])
    ≡ some (err (TakeError.failed (AcquireError.tick_ran 5 (nightly 5).holder)), none)
unfolding take after_round take_round on_reading send on_answer granted_claim before_sending
    choose_slot free_slot free_from tick_ran refuse_tick ran_as state_of read_holder read_tick
    slots_of slots_from memory_txn all_hold holds written next_revision conditions slot_conditions
    writes slot_writes tick_write claim_key tick_key rate_key same without is_under encode_tick
    decode_tick with_due put_holder get_holder put_text get_text put_number get_number
take_again = refl

empty-IsNumbered : IsNumbered memory empty
empty-IsNumbered key e h = ground arith

first-follow : Follows memory marked (codes "g/") (round_at empty)
first-follow found e =
    subst (λ s. IsNumbered memory s × Later memory s empty) (some_eq e) (empty-IsNumbered, here)
  where
    some_eq : some empty ≡ some found → empty ≡ found
    some_eq h = cc

empty-Later-freed : Later memory empty freed
empty-Later-freed =
    ended 5
      (wrote (conditions marked (codes "g/") (nightly 5) 0 (some 0))
        (writes marked (codes "g/") (asks 5) (some 0)) here refl)
      refl

second-follow : Follows memory marked (codes "g/") (round_at freed)
second-follow found e =
    subst (λ s. IsNumbered memory s × Later memory s freed) (some_eq e)
      (Later-IsNumbered memory empty-IsNumbered empty-Later-freed, here)
  where
    some_eq : some freed ≡ some found → freed ≡ found
    some_eq h = cc

take-once_example : 5 < 9
take-once_example =
    take-once memory marked (codes "g/") (asks 5) (asks 9) (round_at empty ∷ [])
      (round_at freed ∷ []) (ok (claim_of 5 2)) (ok (claim_of 9 3)) {s = empty} {t = first}
      {u = freed} {v = second} (first-follow, tt) first_taken (lapsed 5 start refl)
      (second-follow, tt) second_taken refl refl refl

fence_passes : fence memory marked (codes "g/") (claim_of 5 2) (some first) ≡ none
unfolding fence memory_txn all_hold holds written conditions slot_conditions writes slot_writes
    tick_write claim_key tick_key rate_key same
fence_passes = refl

-- Once its lease has ended the claim is lost.
fence_lapsed : fence memory marked (codes "g/") (claim_of 5 2) (some freed) ≡ some FenceError.lost
unfolding fence memory_txn all_hold holds written conditions slot_conditions writes slot_writes
    tick_write claim_key tick_key rate_key same without is_under
fence_lapsed = refl

fence-held_example :
    first.view (claim_key marked (codes "g/") "nightly")
    ≡ some (claim_entry memory marked (codes "g/") (asks 5) 2)
fence-held_example =
    fence-held memory marked (codes "g/") (asks 5) (round_at empty ∷ []) (claim_of 5 2) {s = empty}
      {t = first} {u = first} (first-follow, tt) first_taken start fence_passes

take-slot_example :
    (i : ℕ) × (i < 2)
    × (empty.view (rate_key marked (codes "g/") "nightly" i) ≡ none)
    × (first.view (rate_key marked (codes "g/") "nightly" i)
        ≡ some (record { value = "r"; lease = some 7; create_revision = 2; mod_revision = 2 }))
take-slot_example =
    take-slot memory marked (codes "g/") (asks 5) (round_at empty ∷ []) (ok (claim_of 5 2)) limit
      {s = empty} {t = first} (first-follow, tt) first_taken refl
