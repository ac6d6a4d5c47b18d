-- ===== src/Guard/Etcd/Revisions.antt =====
-- guard/etcd/etcd.go: what the revisions of a key say of its value, over any history of a server.
use gronin.Prelude.{
  ℕ, suc, List, [], ◌∷◌, Option, none, some, ◌≡◌, refl, sym, ap, subst, ◌∙◌, ◌≤◌, ◌<◌, ◌⊎◌, inl,
  inr, arith, Bool-cases,
}
use gronin.Prelude.Bytes.{Bytes, same}
use gronin.Guard.Etcd.Server.{
  Entry, View, Condition, Write, Etcd, created, modified, all_hold, put_entry, written, is_under,
  without, next_revision,
}

written-cases :
    (at : ℕ) (ws : List Write) (view : View) (key : Bytes)
    → (written at ws view key ≡ view key)
      ⊎ ((w : Write) × (written at ws view key ≡ some (put_entry at w (view key))))
unfolding written
written-cases at [] view key = inl refl
written-cases at (w ∷ ws) view key = elim (Bool-cases (same w.key key)) [
  | inl hit ↦ inr (w, rw hit refl)
  | inr miss ↦ rw miss (written-cases at ws view key)
]

pub without-cases : (id : ℕ) (o : Option Entry) → (without id o ≡ o) ⊎ (without id o ≡ none)
unfolding without
without-cases id none = inl refl
without-cases id (some e) = elim (Bool-cases (is_under id e.lease)) [
  | inl hit ↦ inr (rw hit refl)
  | inr miss ↦ inl (rw miss refl)
]

-- The revisions of an entry lie between 1 and another.
abbrev pub IsUpTo : ℕ → Entry → Type 0
IsUpTo at e = (1 ≤ e.create_revision) × (e.create_revision ≤ e.mod_revision) × (e.mod_revision ≤ at)

module _ {S : Type 0} (etcd : Etcd S) where
  -- The revisions of the keys lie between 1 and the server's.
  abbrev pub IsNumbered : S → Type 0
  IsNumbered s = (key : Bytes) (e : Entry) → etcd.get s key ≡ some e → IsUpTo (etcd.revision s) e

  -- A server later on: after transactions of any clients, and ends of leases.
  pub data Later (s : S) : S → Type 0 where
    here : Later s s
    wrote :
        {t u : S} (cs : List Condition) (ws : List Write)
        → Later s t
        → u ≡ (etcd.txn cs ws t).1
        → Later s u
    ended : {t u : S} (id : ℕ) → Later s t → u ≡ etcd.revoke id t → Later s u

  -- A transaction leaves a key as it was, or puts it at the next revision.
  abbrev pub Leaves : List Condition → List Write → S → Bytes → Type 0
  Leaves cs ws s key =
      (etcd.get (etcd.txn cs ws s).1 key ≡ etcd.get s key)
      ⊎ ((w : Write) × (etcd.get (etcd.txn cs ws s).1 key
            ≡ some (put_entry (suc (etcd.revision s)) w (etcd.get s key)))
          × (etcd.revision (etcd.txn cs ws s).1 ≡ suc (etcd.revision s)))

  pub txn-cases : (cs : List Condition) (ws : List Write) (s : S) (key : Bytes) → Leaves cs ws s key
  unfolding written next_revision
  txn-cases cs [] s key = elim (Bool-cases (all_hold (etcd.get s) cs)) [
    | inl hold ↦ inl (etcd.commit-get cs [] s hold key)
    | inr not_all ↦ inl (ap (λ r. etcd.get r.1 key) (etcd.refuses cs [] s not_all))
  ]
  txn-cases cs (v ∷ ws) s key = elim (Bool-cases (all_hold (etcd.get s) cs)) [
    | inl hold ↦
        put (etcd.commit-get cs (v ∷ ws) s hold key) (etcd.commit-revision cs (v ∷ ws) s hold)
          (written-cases (suc (etcd.revision s)) (v ∷ ws) (etcd.get s) key)
    | inr not_all ↦ inl (ap (λ r. etcd.get r.1 key) (etcd.refuses cs (v ∷ ws) s not_all))
  ]
    where
      put :
          etcd.get (etcd.txn cs (v ∷ ws) s).1 key
            ≡ written (suc (etcd.revision s)) (v ∷ ws) (etcd.get s) key
          → etcd.revision (etcd.txn cs (v ∷ ws) s).1 ≡ suc (etcd.revision s)
          → (written (suc (etcd.revision s)) (v ∷ ws) (etcd.get s) key ≡ etcd.get s key)
            ⊎ ((w : Write) × (written (suc (etcd.revision s)) (v ∷ ws) (etcd.get s) key
                  ≡ some (put_entry (suc (etcd.revision s)) w (etcd.get s key))))
          → Leaves cs (v ∷ ws) s key
      put g r (inl kept) = inl (g ∙ kept)
      put g r (inr (w, e)) = inr (w, g ∙ e, r)

  pub txn-grows :
      (cs : List Condition) (ws : List Write) (s : S)
      → etcd.revision s ≤ etcd.revision (etcd.txn cs ws s).1
  unfolding next_revision
  txn-grows cs ws s = elim (Bool-cases (all_hold (etcd.get s) cs)) [
    | inl hold ↦ next ws (etcd.commit-revision cs ws s hold)
    | inr not_all ↦ omega (arith, ap (λ r. etcd.revision r.1) (etcd.refuses cs ws s not_all))
  ]
    where
      next :
          (vs : List Write)
          → etcd.revision (etcd.txn cs ws s).1 ≡ next_revision vs (etcd.revision s)
          → etcd.revision s ≤ etcd.revision (etcd.txn cs ws s).1
      next [] e = omega arith
      next (v ∷ vs) e = omega arith

  -- What became of a key since a server: it is as it was, it is gone, or it was put later.
  abbrev pub Since : S → Bytes → Option Entry → Type 0
  Since s key o =
      (o ≡ etcd.get s key)
      ⊎ ((o ≡ none) ⊎ ((e : Entry) × (o ≡ some e) × (etcd.revision s < e.mod_revision)))

  put_mod : (at : ℕ) (w : Write) (o : Option Entry) → (put_entry at w o).mod_revision ≡ at
  put_mod at w none = refl
  put_mod at w (some e) = refl

  pub Later-Since :
      {s t : S} (key : Bytes)
      → Later s t
      → (etcd.revision s ≤ etcd.revision t) × Since s key (etcd.get t key)
  Later-Since key here = (omega arith, inl refl)
  Later-Since {s} key (wrote {t} cs ws before e) =
      let (grown, since) = Later-Since key before in
      (
        ground (arith, txn-grows cs ws t, ap etcd.revision e),
        subst (λ u. Since s key (etcd.get u key)) (sym e)
            (after grown since (txn-cases cs ws t key)),
      )
    where
      after :
          etcd.revision s ≤ etcd.revision t
          → Since s key (etcd.get t key)
          → Leaves cs ws t key
          → Since s key (etcd.get (etcd.txn cs ws t).1 key)
      after grown since (inl kept) = subst (Since s key) (sym kept) since
      after grown since (inr (w, put, r)) = inr (
          inr (
            put_entry (suc (etcd.revision t)) w (etcd.get t key),
            put,
            omega (arith, put_mod (suc (etcd.revision t)) w (etcd.get t key)),
          ))
  Later-Since {s} key (ended {t} id before e) =
      let (grown, since) = Later-Since key before in
      (
        ground (arith, etcd.revision-revoke id t, ap etcd.revision e),
        subst (λ u. Since s key (etcd.get u key)) (sym e)
            (after since (etcd.get-revoke id t key) (without-cases id (etcd.get t key))),
      )
    where
      after :
          Since s key (etcd.get t key)
          → etcd.get (etcd.revoke id t) key ≡ without id (etcd.get t key)
          → (without id (etcd.get t key) ≡ etcd.get t key) ⊎ (without id (etcd.get t key) ≡ none)
          → Since s key (etcd.get (etcd.revoke id t) key)
      after since g (inl kept) = subst (Since s key) (sym (g ∙ kept)) since
      after since g (inr gone) = inr (inl (g ∙ gone))

  -- A key that stands at the revision that it stood at is as it was.
  pub modified-same :
      {s t : S} (key : Bytes)
      → IsNumbered s
      → Later s t
      → modified (etcd.get t key) ≡ modified (etcd.get s key)
      → etcd.get t key ≡ etcd.get s key
  modified-same {s} {t} key numbered later e =
      by_cases (etcd.get s key) (etcd.get t key) refl e (Later-Since key later).1
    where
      by_cases :
          (o p : Option Entry)
          → etcd.get s key ≡ o
          → modified p ≡ modified o
          → Since s key p
          → p ≡ o
      by_cases o p is e (inl kept) = kept ∙ is
      by_cases none p is e (inr (inl gone)) = gone
      by_cases (some f) p is e (inr (inl gone)) =
          ground (arith, numbered key f is, ap modified gone)
      by_cases none p is e (inr (inr (g, put, later_on))) = ground (arith, ap modified put)
      by_cases (some f) p is e (inr (inr (g, put, later_on))) =
          ground (arith, numbered key f is, ap modified put)

  pub Later-IsNumbered : {s t : S} → IsNumbered s → Later s t → IsNumbered t
  Later-IsNumbered numbered here = numbered
  Later-IsNumbered numbered (wrote {t} cs ws before e) =
      let known = Later-IsNumbered numbered before in
      subst IsNumbered (sym e)
        (λ key f is. after key f is (known key) (txn-cases cs ws t key) (txn-grows cs ws t))
    where
      put :
          (w : Write) (o : Option Entry) (f : Entry)
          → ((g : Entry) → o ≡ some g → IsUpTo (etcd.revision t) g)
          → some (put_entry (suc (etcd.revision t)) w o) ≡ some f
          → IsUpTo (suc (etcd.revision t)) f
      put w none f known h = ground arith
      put w (some g) f known h = ground (arith, known g refl)

      after :
          (key : Bytes) (f : Entry)
          → etcd.get (etcd.txn cs ws t).1 key ≡ some f
          → ((g : Entry) → etcd.get t key ≡ some g → IsUpTo (etcd.revision t) g)
          → Leaves cs ws t key
          → etcd.revision t ≤ etcd.revision (etcd.txn cs ws t).1
          → IsUpTo (etcd.revision (etcd.txn cs ws t).1) f
      after key f is known (inl kept) grown = ground (arith, known f (sym kept ∙ is))
      after key f is known (inr (w, e, r)) grown =
          ground (arith, put w (etcd.get t key) f known (sym e ∙ is))
  Later-IsNumbered numbered (ended {t} id before e) =
      let known = Later-IsNumbered numbered before in
      subst IsNumbered (sym e) (λ key f is.
        after key f is (known key) (etcd.get-revoke id t key) (without-cases id (etcd.get t key))
          (etcd.revision-revoke id t))
    where
      after :
          (key : Bytes) (f : Entry)
          → etcd.get (etcd.revoke id t) key ≡ some f
          → ((g : Entry) → etcd.get t key ≡ some g → IsUpTo (etcd.revision t) g)
          → etcd.get (etcd.revoke id t) key ≡ without id (etcd.get t key)
          → (without id (etcd.get t key) ≡ etcd.get t key) ⊎ (without id (etcd.get t key) ≡ none)
          → etcd.revision t ≤ etcd.revision (etcd.revoke id t)
          → IsUpTo (etcd.revision (etcd.revoke id t)) f
      after key f is known g (inl kept) grown = ground (arith, known f (sym (g ∙ kept) ∙ is))
      after key f is known g (inr gone) grown = ground arith

  -- A key that no transaction created is not there.
  pub no_entry :
      (s : S) (key : Bytes) → IsNumbered s → created (etcd.get s key) ≡ 0 → etcd.get s key ≡ none
  no_entry s key numbered e = by_cases (etcd.get s key) refl e
    where
      by_cases : (o : Option Entry) → etcd.get s key ≡ o → created o ≡ 0 → o ≡ none
      by_cases none p h = refl
      by_cases (some f) p h = ground (arith, numbered key f p)
