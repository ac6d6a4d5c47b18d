-- ===== src/Guard/Etcd/Once.antt =====
-- guard/etcd/etcd.go: a scheduled occurrence is taken at most once, by whatever hosts.
use gronin.Prelude.{
  ℕ, suc, Bool, true, false, ◌&&◌, List, Option, none, some, String, ◌≡◌, refl, sym, ap, ◌∙◌, arith,
  ◌≤◌, ◌<◌, Result, ok, >>=-eq-ok, All, Bool-cases, inl, inr,
}
use gronin.Prelude.Bytes.{Bytes, same, same-eq, same_refl}
use gronin.Guard.Coordinator.{AcquireRequest, is_schedule}
use gronin.Guard.Etcd.Server.{
  Entry, View, Write, Etcd, modified, put_entry, written, is_under, without,
}
use gronin.Guard.Etcd.Revisions.{Later, wrote, here, modified-same}
use gronin.Guard.Etcd.{
  TickValue, Codec, TakeError, Claim, Reading, Round, before_sending, tick_ran, tick_key, state_of,
  read_tick, read_holder,
}
use gronin.Guard.Etcd.Take.{Ask, conditions, writes, tick_write, take}
use gronin.Guard.Etcd.Keys.{written-tick, conditions-tick}
use gronin.Guard.Etcd.Sent.{Sent, Follows, take-Sent}

-- What a reading that succeeds holds of the tick.
state_of-tick :
    (codec : Codec) (prefix : Bytes) (view : View) (req : AcquireRequest) (reading : Reading)
    → state_of codec prefix view req ≡ ok reading
    → is_schedule req.kind ≡ true
    → (read_tick codec prefix true (view (tick_key codec prefix req.name)) ≡ ok reading.tick)
      × (reading.tick_rev ≡ modified (view (tick_key codec prefix req.name)))
unfolding state_of
state_of-tick codec prefix view req reading e scheduled =
    let (h, _, rest) = >>=-eq-ok (read_holder codec prefix _) _ e in
    let (t, is, last) = >>=-eq-ok (read_tick codec prefix (is_schedule req.kind) _) _ rest in
    (
      ap (λ k. read_tick codec prefix k (view (tick_key codec prefix req.name))) (sym scheduled)
          ∙ is
          ∙ ap ok (ground arith),
      ground arith,
    )

before_sending-tick :
    (req : AcquireRequest) (reading : Reading) (slot : Option ℕ)
    → before_sending req reading ≡ ok slot
    → tick_ran req reading.tick ≡ false
unfolding before_sending
before_sending-tick req reading slot e = ground arith

read-later :
    (codec : Codec) (prefix : Bytes) (req : AcquireRequest) (tick : Option TickValue) (e : Entry)
    (t : TickValue)
    → is_schedule req.kind ≡ true
    → read_tick codec prefix true (some e) ≡ ok tick
    → codec.decode_tick e.value ≡ some t
    → tick_ran req tick ≡ false
    → t.due_at < req.due_at
unfolding read_tick tick_ran
read-later codec prefix req tick e t scheduled read decoded fresh =
    by_tick tick (sym (rw (decoded, read_tick) at read)) fresh
  where
    by_tick :
        (o : Option TickValue)
        → ◌≡◌ {A = Result TakeError (Option TickValue)} (ok o) (ok (some t))
        → tick_ran req o ≡ false
        → t.due_at < req.due_at
    by_tick none h k = ground arith
    by_tick (some u) h k = ground arith

put_value : (at : ℕ) (w : Write) (o : Option Entry) → (put_entry at w o).value ≡ w.value
put_value at w none = refl
put_value at w (some e) = refl

put_lease : (at : ℕ) (w : Write) (o : Option Entry) → (put_entry at w o).lease ≡ w.lease
put_lease at w none = refl
put_lease at w (some e) = refl

kept : (e : Entry) (id : ℕ) → e.lease ≡ none → without id (some e) ≡ some e
unfolding without is_under
kept e id h = ground arith

weaken : {a b : ℕ} → a < b → a ≤ b
weaken h = omega arith

and-both : (a b : Bool) → (a && b) ≡ true → (a ≡ true) × (b ≡ true)
and-both a b h = (ground arith, ground arith)

module _ {S : Type 0} (etcd : Etcd S) (codec : Codec) (prefix : Bytes) where
  -- The servers of a deployment, whose hosts take claims and whose leases end.
  pub data History (s : S) : S → Type 0 where
    start : History s s
    took :
        {t u : S} (ask : Ask) (rounds : List (Round S)) (result : Result TakeError Claim)
        → History s t
        → All (Follows etcd codec prefix) rounds
        → take etcd codec prefix ask rounds ≡ some (result, some (t, u))
        → History s u
    lapsed : {t u : S} (id : ℕ) → History s t → u ≡ etcd.revoke id t → History s u

  Sent-Later : {ask : Ask} {s t : S} → Sent etcd codec prefix ask s t → Later etcd s t
  Sent-Later {ask} x =
      wrote (conditions codec prefix ask.req x.reading.tick_rev x.slot)
        (writes codec prefix ask x.slot) here x.wrote

  Sent-get :
      {ask : Ask} {s t : S} (x : Sent etcd codec prefix ask s t) (key : Bytes)
      → etcd.get t key
        ≡ written (suc (etcd.revision s)) (writes codec prefix ask x.slot) (etcd.get s) key
  Sent-get x key = ap (λ u. etcd.get u key) x.wrote ∙ etcd.commit-get _ _ _ x.holding key

  -- A tick at an occurrence or a later one, under no lease.
  pub record TickFrom (due : ℕ) (name : String) (s : S) : Type 0 where
    pub entry : Entry
    pub tick : TickValue
    pub there : etcd.get s (tick_key codec prefix name) ≡ some entry
    pub decoded : codec.decode_tick entry.value ≡ some tick
    pub unleased : entry.lease ≡ none
    pub from : due ≤ tick.due_at

  -- A transaction for a scheduled trigger met no tick of its occurrence or a later one.
  tick-rises :
      (ask : Ask) (s t : S) (due : ℕ) (name : String)
      → Sent etcd codec prefix ask s t
      → is_schedule ask.req.kind ≡ true
      → tick_key codec prefix ask.req.name ≡ tick_key codec prefix name
      → TickFrom due name s
      → due < ask.req.due_at
  unfolding read_tick tick_ran
  tick-rises ask s t due name x scheduled same_name f =
      let key = tick_key codec prefix ask.req.name in
      let (read, rev) = state_of-tick codec prefix _ ask.req x.reading x.reads scheduled in
      let unmoved =
        modified-same etcd key x.numbered x.before
          (conditions-tick codec prefix ask _ x.slot (etcd.get s) scheduled x.holding ∙ rev) in
      let is = sym unmoved ∙ ap (etcd.get s) same_name ∙ f.there in
      let rises : f.tick.due_at < ask.req.due_at =
        read-later codec prefix ask.req x.reading.tick f.entry f.tick scheduled
          (ap (read_tick codec prefix true) (sym is) ∙ read) f.decoded
          (before_sending-tick ask.req x.reading x.slot x.decides) in
      omega (arith, f.from)

  -- What a transaction for a scheduled trigger records.
  recorded : Ask → TickValue
  recorded ask = record { due_at = ask.req.due_at; holder = ask.req.holder }

  Sent-TickFrom :
      (ask : Ask) (s t : S) (due : ℕ) (name : String)
      → Sent etcd codec prefix ask s t
      → is_schedule ask.req.kind ≡ true
      → same (tick_key codec prefix ask.req.name) (tick_key codec prefix name) ≡ true
      → due ≤ ask.req.due_at
      → TickFrom due name t
  unfolding tick_write recorded
  Sent-TickFrom ask s t due name x scheduled same_name above =
      let key = tick_key codec prefix name in
      let at = suc (etcd.revision s) in
      record {
        entry = put_entry at (tick_write codec prefix ask) (etcd.get s key);
        tick = recorded ask;
        there =
            Sent-get x key
            ∙ written-tick codec prefix ask x.slot at (etcd.get s) name
            ∙ rw (scheduled, same_name) refl;
        decoded =
            ap codec.decode_tick (put_value at (tick_write codec prefix ask) (etcd.get s key))
            ∙ codec.decode_tick-encode_tick (recorded ask);
        unleased = put_lease at (tick_write codec prefix ask) (etcd.get s key);
        from = above;
      }

  TickFrom-Sent :
      (ask : Ask) (s t : S) (due : ℕ) (name : String)
      → Sent etcd codec prefix ask s t
      → TickFrom due name s
      → TickFrom due name t
  TickFrom-Sent ask s t due name x f =
      elim (Bool-cases (
        is_schedule ask.req.kind
        && same (tick_key codec prefix ask.req.name) (tick_key codec prefix name))) [
          | inl both ↦
              let scheduled = (and-both _ _ both).0 in
              let same_name = (and-both _ _ both).1 in
              Sent-TickFrom ask s t due name x scheduled same_name
                (weaken (tick-rises ask s t due name x scheduled (same-eq _ _ same_name) f))
          | inr other ↦ record {
            entry = f.entry;
            tick = f.tick;
            there =
                Sent-get x (tick_key codec prefix name)
                ∙ written-tick codec prefix ask x.slot (suc (etcd.revision s)) (etcd.get s) name
                ∙ rw other f.there;
            decoded = f.decoded;
            unleased = f.unleased;
            from = f.from;
          }
        ]

  -- Over any history of the deployment a tick stays at its occurrence or a later one.
  TickFrom-History :
      {s t : S} (due : ℕ) (name : String) → History s t → TickFrom due name s → TickFrom due name t
  TickFrom-History due name start f = f
  TickFrom-History due name (took {t} {u} ask rounds result before follow e) f =
      TickFrom-Sent ask t u due name (take-Sent etcd codec prefix ask rounds result t u follow e).0
        (TickFrom-History due name before f)
  TickFrom-History due name (lapsed {t} id before e) f =
      let g = TickFrom-History due name before f in
      record {
        entry = g.entry;
        tick = g.tick;
        there =
            ap (λ v. etcd.get v (tick_key codec prefix name)) e
            ∙ etcd.get-revoke id t (tick_key codec prefix name)
            ∙ ap (without id) g.there
            ∙ kept g.entry id g.unleased;
        decoded = g.decoded;
        unleased = g.unleased;
        from = g.from;
      }

  -- Of two transactions for scheduled triggers of one playbook that were applied, by whatever hosts,
  -- the later one is for a later occurrence, whatever was taken and whichever leases ended between.
  pub take-once :
      (ask ask' : Ask) (rounds rounds' : List (Round S)) (result result' : Result TakeError Claim)
      {s t u v : S}
      → All (Follows etcd codec prefix) rounds
      → take etcd codec prefix ask rounds ≡ some (result, some (s, t))
      → History t u
      → All (Follows etcd codec prefix) rounds'
      → take etcd codec prefix ask' rounds' ≡ some (result', some (u, v))
      → is_schedule ask.req.kind ≡ true
      → is_schedule ask'.req.kind ≡ true
      → ask'.req.name ≡ ask.req.name
      → ask.req.due_at < ask'.req.due_at
  take-once ask ask' rounds rounds' result result' {s} {t} {u} {v} follow e between follow' e' first
        second same_name =
      tick-rises ask' u v ask.req.due_at ask.req.name
        (take-Sent etcd codec prefix ask' rounds' result' u v follow' e').0 second
        (ap (tick_key codec prefix) same_name)
        (TickFrom-History ask.req.due_at ask.req.name between (
          Sent-TickFrom ask s t ask.req.due_at ask.req.name
            (take-Sent etcd codec prefix ask rounds result s t follow e).0 first
            (same_refl (tick_key codec prefix ask.req.name)) (omega arith)))
