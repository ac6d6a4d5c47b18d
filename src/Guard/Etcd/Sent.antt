-- ===== src/Guard/Etcd/Sent.antt =====
-- guard/etcd/etcd.go: what holds of a transaction that `take` had applied.
use gronin.Prelude.{
  ℕ, Bool, true, false, ◌&&◌, not, List, [], ◌∷◌, Option, none, some, ◌≡◌, refl, sym, ap, ◌∙◌,
  arith, if◌then◌else◌, subst, false≢true, Result, ok, err, All, Bool-cases, inl, inr,
}
use gronin.Prelude.Bytes.{Bytes}
use gronin.Guard.Coordinator.{AcquireError}
use gronin.Guard.Etcd.Server.{Etcd, all_hold}
use gronin.Guard.Etcd.Revisions.{IsNumbered, Later}
use gronin.Guard.Etcd.{
  Codec, TakeError, Claim, Reading, Round, Decision, decided, again, before_sending, after_refusal,
  state_of,
}
use gronin.Guard.Etcd.Take.{
  Ask, conditions, writes, granted_claim, on_answer, send, on_reading, take_round, after_round,
  take,
}

module _ {S : Type 0} (etcd : Etcd S) (codec : Codec) (prefix : Bytes) where
  -- A transaction of `take` that was applied, with the read that it rests on.
  pub record Sent (ask : Ask) (s t : S) : Type 0 where
    pub found : S
    pub reading : Reading
    pub slot : Option ℕ
    pub numbered : IsNumbered etcd found
    pub before : Later etcd found s
    pub reads : state_of codec prefix (etcd.get found) ask.req ≡ ok reading
    pub decides : before_sending ask.req reading ≡ ok slot
    pub holding :
        all_hold (etcd.get s) (conditions codec prefix ask.req reading.tick_rev slot) ≡ true
    pub wrote :
        t
        ≡ (etcd.txn
            (conditions codec prefix ask.req reading.tick_rev slot)
            (writes codec prefix ask slot)
            s).1

  -- The transaction of a round meets a server that is later than the one its read found.
  abbrev pub Follows : Round S → Type 0
  Follows r =
      (found : S) → r.reading ≡ some found → IsNumbered etcd found × Later etcd found r.arrives

  -- What a round that had a transaction applied has of it.
  abbrev Applied : Ask → Round S → Result TakeError Claim → S → Type 0
  Applied ask r result after =
      Sent ask r.arrives after
      × ((claim : Claim) → result ≡ ok claim → claim ≡ granted_claim etcd codec prefix ask after)

  after_refusal_keeps :
      (ask : Ask) (o : Result TakeError Reading) (result : Result TakeError Claim) (after : S)
      → after_refusal ask.req o ≡ decided result (some after)
      → ⊥
  unfolding after_refusal
  after_refusal_keeps ask (err why) result after e = ground arith
  after_refusal_keeps ask (ok fresh) result after e = ground arith

  answer_applied :
      (a b c : Bool) (u : TakeError) (given : Claim) (next after : S) (fresh : Decision S)
      (result : Result TakeError Claim)
      → (fresh ≡ decided result (some after) → ⊥)
      → (if not a
          then decided (err u) (if c && b then some next else none)
          else if b
          then decided (ok given) (some next)
          else fresh)
        ≡ decided result (some after)
      → (b ≡ true) × (after ≡ next) × ((claim : Claim) → result ≡ ok claim → claim ≡ given)
  answer_applied true true c u given next after fresh result not_fresh e =
      (refl, ground arith, λ claim h. ground arith)
  answer_applied true false c u given next after fresh result not_fresh e = absurd (not_fresh e)
  answer_applied false true true u given next after fresh result not_fresh e =
      (refl, ground arith, λ claim h. ground arith)
  answer_applied false true false u given next after fresh result not_fresh e = ground arith
  answer_applied false false true u given next after fresh result not_fresh e = ground arith
  answer_applied false false false u given next after fresh result not_fresh e = ground arith

  send-Applied :
      (ask : Ask) (r : Round S) (found : S) (read : Reading) (slot : Option ℕ)
      (result : Result TakeError Claim) (after : S)
      → IsNumbered etcd found × Later etcd found r.arrives
      → state_of codec prefix (etcd.get found) ask.req ≡ ok read
      → before_sending ask.req read ≡ ok slot
      → send etcd codec prefix ask r read slot ≡ decided result (some after)
      → Applied ask r result after
  unfolding send on_answer
  send-Applied ask r found read slot result after before reads decides e =
      let cs = conditions codec prefix ask.req read.tick_rev slot in
      let ws = writes codec prefix ask slot in
      let next = etcd.txn cs ws r.arrives in
      let (succeeded, is, claims) =
        answer_applied r.answered next.0 r.applied (TakeError.failed AcquireError.unavailable)
          (granted_claim etcd codec prefix ask next.1) next.1 after
          (after_refusal ask.req (state_of codec prefix (etcd.get r.arrives) ask.req)) result
          (after_refusal_keeps ask _ result after) e in
      (
        record {
          found = found;
          reading = read;
          slot = slot;
          numbered = before.0;
          before = before.1;
          reads = reads;
          decides = decides;
          holding = elim (Bool-cases (all_hold (etcd.get r.arrives) cs)) [
            | inl hold ↦ hold
            | inr lost ↦
                absurd
                  (false≢true (ap (λ x. x.0) (sym (etcd.refuses cs ws r.arrives lost)) ∙ succeeded))
          ];
          wrote = is;
        },
        λ claim h. claims claim h ∙ ap (granted_claim etcd codec prefix ask) (sym is),
      )

  take_round-Applied :
      (ask : Ask) (r : Round S) (result : Result TakeError Claim) (after : S)
      → Follows r
      → take_round etcd codec prefix ask r ≡ decided result (some after)
      → Applied ask r result after
  unfolding take_round on_reading
  take_round-Applied ask r result after follows e = unexpired r.expired r.reading follows e
    where
      decide :
          (found : S) (o : Result TakeError Reading) (d : Result TakeError (Option ℕ))
          (read : Reading)
          → IsNumbered etcd found × Later etcd found r.arrives
          → state_of codec prefix (etcd.get found) ask.req ≡ ok read
          → before_sending ask.req read ≡ d
          → elim d [
            | err why ↦ decided (err why) none
            | ok slot ↦ send etcd codec prefix ask r read slot
          ]
            ≡ decided result (some after)
          → Applied ask r result after
      decide found o (err why) read before reads d h = ground arith
      decide found o (ok slot) read before reads d h =
          send-Applied ask r found read slot result after before reads d h

      read_it :
          (found : S) (o : Result TakeError Reading)
          → IsNumbered etcd found × Later etcd found r.arrives
          → state_of codec prefix (etcd.get found) ask.req ≡ o
          → on_reading etcd codec prefix ask r o ≡ decided result (some after)
          → Applied ask r result after
      read_it found (err why) before reads h = ground arith
      read_it found (ok read) before reads h =
          decide found (ok read) (before_sending ask.req read) read before reads refl h

      unexpired :
          (expired : Bool) (found : Option S)
          → ((s : S) → found ≡ some s → IsNumbered etcd s × Later etcd s r.arrives)
          → (if expired
              then decided (err (TakeError.failed AcquireError.unavailable)) none
              else elim found [
                | none ↦ decided (err (TakeError.failed AcquireError.unavailable)) none
                | some s ↦
                    on_reading etcd codec prefix ask r (state_of codec prefix (etcd.get s) ask.req)
              ])
            ≡ decided result (some after)
          → Applied ask r result after
      unexpired true found before h = ground arith
      unexpired false none before h = ground arith
      unexpired false (some s) before h =
          read_it s (state_of codec prefix (etcd.get s) ask.req) (before s refl) refl h

  -- A transaction that `take` had applied is one of its rounds', and the claim that it returns
  -- bears the revision of that transaction.
  pub take-Sent :
      (ask : Ask) (rounds : List (Round S)) (result : Result TakeError Claim) (s t : S)
      → All Follows rounds
      → take etcd codec prefix ask rounds ≡ some (result, some (s, t))
      → Sent ask s t
        × ((claim : Claim) → result ≡ ok claim → claim ≡ granted_claim etcd codec prefix ask t)
  unfolding take after_round
  take-Sent ask [] result s t follow e = ground arith
  take-Sent ask (r ∷ rs) result s t (follows, follow) e =
      by_round (take_round etcd codec prefix ask r) refl e (take-Sent ask rs result s t follow)
    where
      applied :
          (result' : Result TakeError Claim) (after : S)
          → Applied ask r result' after
          → result' ≡ result
          → r.arrives ≡ s
          → after ≡ t
          → Sent ask s t
            × ((claim : Claim) → result ≡ ok claim → claim ≡ granted_claim etcd codec prefix ask t)
      applied result' after h p q k =
          subst
            (λ x.
              Sent ask s x
              × ((claim : Claim)
                  → result ≡ ok claim
                  → claim ≡ granted_claim etcd codec prefix ask x))
            k (subst (λ x. Sent ask x after) q h.0, λ claim g. h.1 claim (p ∙ g))

      by_round :
          (d : Decision S)
          → take_round etcd codec prefix ask r ≡ d
          → after_round etcd codec prefix r.arrives d (take etcd codec prefix ask rs)
            ≡ some (result, some (s, t))
          → (take etcd codec prefix ask rs ≡ some (result, some (s, t))
              → Sent ask s t
                × ((claim : Claim)
                    → result ≡ ok claim
                    → claim ≡ granted_claim etcd codec prefix ask t))
          → Sent ask s t
            × ((claim : Claim) → result ≡ ok claim → claim ≡ granted_claim etcd codec prefix ask t)
      by_round (decided result' none) p h later = ground arith
      by_round (decided result' (some after)) p h later =
          applied result' after (take_round-Applied ask r result' after follows p) (ground arith)
            (ground arith) (ground arith)
      by_round again p h later = later h
