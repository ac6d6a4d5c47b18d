-- ===== src/Guard/Etcd/Fenced.antt =====
-- guard/etcd/etcd.go: what a fence that passes says of the claim.
use gronin.Prelude.{
  ℕ, suc, String, List, [], ◌∷◌, Option, none, some, ◌≡◌, refl, sym, ap, subst, ◌∙◌, arith, ◌≤◌,
  ◌<◌, ok, All, Bool-cases, inl, inr, ◌⊎◌,
}
use gronin.Prelude.Bytes.{Bytes, same, same-eq, same_refl}
use gronin.Guard.Etcd.Server.{
  Entry, Condition, Etcd, created, holds, all_hold, written, without, next_revision,
}
use gronin.Guard.Etcd.Revisions.{no_entry, without-cases, Later-IsNumbered}
use gronin.Guard.Etcd.{Codec, Claim, Round, claim_key}
use gronin.Guard.Etcd.Take.{Ask, conditions, writes, granted_claim, take}
use gronin.Guard.Etcd.Acquire.{fence}
use gronin.Guard.Etcd.Keys.{written-claim, conditions-absent}
use gronin.Guard.Etcd.Sent.{Sent, Follows, take-Sent}
use gronin.Guard.Etcd.Once.{History, start, took, lapsed}

module _ {S : Type 0} (etcd : Etcd S) (codec : Codec) (prefix : Bytes) where
  -- The key of a claim as its own transaction puts it.
  abbrev pub claim_entry : Ask → ℕ → Entry
  claim_entry ask at = record {
    value = codec.encode_holder (record { holder = ask.req.holder; taken = ask.taken });
    lease = some ask.lease;
    create_revision = at;
    mod_revision = at;
  }

  Sent-claim :
      (ask : Ask) (s t : S)
      → Sent etcd codec prefix ask s t
      → (etcd.get t (claim_key codec prefix ask.req.name)
          ≡ some (claim_entry ask (suc (etcd.revision s))))
        × (etcd.revision t ≡ suc (etcd.revision s))
  unfolding written writes next_revision
  Sent-claim ask s t x =
      let key = claim_key codec prefix ask.req.name in
      let cs = conditions codec prefix ask.req x.reading.tick_rev x.slot in
      let ws = writes codec prefix ask x.slot in
      let absent =
        no_entry etcd s key (Later-IsNumbered etcd x.numbered x.before)
          (conditions-absent codec prefix ask _ x.slot (etcd.get s) x.holding) in
      (
        ap (λ u. etcd.get u key) x.wrote
            ∙ etcd.commit-get cs ws s x.holding key
            ∙ rw (same_refl key, absent) refl,
        ap etcd.revision x.wrote ∙ etcd.commit-revision cs ws s x.holding,
      )

  -- What became of a claim's key since: it is as its transaction put it, it is gone, or a later
  -- transaction created it.
  abbrev Becomes : Entry → ℕ → Option Entry → Type 0
  Becomes entry token o =
      (o ≡ some entry) ⊎ ((o ≡ none) ⊎ ((e : Entry) × (o ≡ some e) × (token < e.create_revision)))

  Becomes-Sent :
      (ask : Ask) (s t : S) (name : String) (entry : Entry) (token : ℕ)
      → Sent etcd codec prefix ask s t
      → token ≤ etcd.revision s
      → Becomes entry token (etcd.get s (claim_key codec prefix name))
      → Becomes entry token (etcd.get t (claim_key codec prefix name))
  Becomes-Sent ask s t name entry token x above b =
      elim (Bool-cases (same (claim_key codec prefix ask.req.name) (claim_key codec prefix name))) [
        | inl own ↦
            let (put, _) = Sent-claim ask s t x in
            inr (
              inr (
                claim_entry ask (suc (etcd.revision s)),
                ap (etcd.get t) (sym (same-eq _ _ own)) ∙ put,
                omega arith,
              ))
        | inr other ↦
            subst (Becomes entry token)
              (sym (
                ap (λ u. etcd.get u (claim_key codec prefix name)) x.wrote
                ∙ etcd.commit-get _ _ s x.holding (claim_key codec prefix name)
                ∙ written-claim codec prefix ask x.slot (suc (etcd.revision s)) (etcd.get s) name
                    other))
              b
      ]

  Becomes-without :
      (entry : Entry) (token id : ℕ) (o : Option Entry)
      → Becomes entry token o
      → Becomes entry token (without id o)
  Becomes-without entry token id o b = elim (without-cases id o) [
    | inl kept ↦ subst (Becomes entry token) (sym kept) b
    | inr gone ↦ inr (inl gone)
  ]

  Becomes-History :
      {s t : S} (name : String) (entry : Entry) (token : ℕ)
      → History etcd codec prefix s t
      → token ≤ etcd.revision s
      → etcd.get s (claim_key codec prefix name) ≡ some entry
      → (token ≤ etcd.revision t) × Becomes entry token (etcd.get t (claim_key codec prefix name))
  Becomes-History name entry token start above there = (above, inl there)
  Becomes-History name entry token (took {t} {u} ask rounds result before follow e) above there =
      let (grown, b) = Becomes-History name entry token before above there in
      let x = (take-Sent etcd codec prefix ask rounds result t u follow e).0 in
      (
        omega (arith, grown, (Sent-claim ask t u x).1),
        Becomes-Sent ask t u name entry token x grown b,
      )
  Becomes-History name entry token (lapsed {t} id before e) above there =
      let (grown, b) = Becomes-History name entry token before above there in
      (
        ground (arith, ap etcd.revision e, etcd.revision-revoke id t),
        subst (Becomes entry token)
            (sym (
              ap (λ u. etcd.get u (claim_key codec prefix name)) e
              ∙ etcd.get-revoke id t (claim_key codec prefix name)))
            (Becomes-without entry token id _ b),
      )

  fence-created :
      (c : Claim) (u : S)
      → fence etcd codec prefix c (some u) ≡ none
      → created (etcd.get u (claim_key codec prefix c.name)) ≡ c.token
  unfolding fence all_hold holds
  fence-created c u e =
      let held = Condition.created_at (claim_key codec prefix c.name) c.token ∷ [] in
      elim (Bool-cases (all_hold (etcd.get u) held)) [
        | inl hold ↦ ground arith
        | inr lost ↦ ground (arith, etcd.refuses held [] u lost)
      ]

  -- A claim that was granted, and whose fence passes at some later server of the deployment: its key
  -- there is the one that its own transaction put, with its holder, under its lease; nobody has
  -- taken the playbook since.
  pub fence-held :
      (ask : Ask) (rounds : List (Round S)) (claim : Claim) {s t u : S}
      → All (Follows etcd codec prefix) rounds
      → take etcd codec prefix ask rounds ≡ some (ok claim, some (s, t))
      → History etcd codec prefix t u
      → fence etcd codec prefix claim (some u) ≡ none
      → etcd.get u (claim_key codec prefix ask.req.name) ≡ some (claim_entry ask claim.token)
  unfolding granted_claim
  fence-held ask rounds claim {s} {t} {u} follow e since passes =
      let (x, claims) = take-Sent etcd codec prefix ask rounds (ok claim) s t follow e in
      let (put, revision) = Sent-claim ask s t x in
      let is = claims claim refl in
      let token = ap (λ c. c.token) is ∙ revision in
      let (above, b) =
        Becomes-History ask.req.name (claim_entry ask (suc (etcd.revision s)))
          (suc (etcd.revision s)) since (omega arith) put in
      let made =
        ap (λ c. created (etcd.get u (claim_key codec prefix c.name))) (sym is)
        ∙ fence-created claim u passes
        ∙ token in
      by_cases (etcd.get u (claim_key codec prefix ask.req.name)) refl b made token
    where
      by_cases :
          (o : Option Entry)
          → etcd.get u (claim_key codec prefix ask.req.name) ≡ o
          → Becomes (claim_entry ask (suc (etcd.revision s))) (suc (etcd.revision s)) o
          → created o ≡ suc (etcd.revision s)
          → claim.token ≡ suc (etcd.revision s)
          → o ≡ some (claim_entry ask claim.token)
      by_cases o p (inl kept) made token = kept ∙ ap (λ n. some (claim_entry ask n)) (sym token)
      by_cases o p (inr (inl gone)) made token = ground (arith, ap created gone)
      by_cases o p (inr (inr (f, put, later))) made token = ground (arith, ap created put)
