-- ===== src/Run/FileLock/Claims.antt =====
-- run/filelock.go and run.go: the claims that were granted and not given back, kept apart from the
-- locks of the state.
use gronin.Prelude.{
  ℕ, ◌≤◌, Bool, str_eq, subst, leb, ◌≡◌, refl, sym, ap, ◌∙◌, true, false, not, List, [], ◌∷◌,
  String, ok, err, select, exists_row, length, ◌==◌, arith, Bool-cases, inl, inr,
}
use gronin.Guard.Coordinator.{AcquireRequest, AcquireError}
use gronin.Run.FileLock.{Lock, State, Faults, is_lock_on, unclaim, acquire, release}
use gronin.Run.FileLock.Exclusion.{
  IsExclusive, acquire-IsExclusive, release-IsExclusive, acquire-refused_keeps, acquire-granted,
  exists-fewer,
}
use gronin.Run.FileLock.History.{empty}

-- A claim, by the playbook that it was asked for and the number that it was granted as.
pub record Grant : Type 0 where
  pub name : String
  pub number : ℕ

-- Acquisitions and releases of all processes from an empty state directory: the claims that are
-- granted and not given back, the numbers granted so far, and the state. A release is of a claim
-- that was granted, once or again.
pub data Holding : List Grant → List ℕ → State → Type 0 where
  nothing : Holding [] [] empty
  granted :
      (f : Faults) (req : AcquireRequest) (c : ℕ) (held : List Grant) (ever : List ℕ) (s s' : State)
      → Holding held ever s
      → acquire f req s ≡ (ok c, s')
      → Holding (record { name = req.name; number = c } ∷ held) (c ∷ ever) s'
  denied :
      (f : Faults) (req : AcquireRequest) (why : AcquireError) (held : List Grant) (ever : List ℕ)
      (s s' : State)
      → Holding held ever s
      → acquire f req s ≡ (err why, s')
      → Holding held ever s'
  given_back :
      (c : ℕ) (held : List Grant) (ever : List ℕ) (s : State)
      → Holding held ever s
      → exists_row (λ x. x == c) ever ≡ true
      → Holding (select (λ g. not (g.number == c)) held) ever (release c s)

-- The locks of the claims, as the state has them.
unfoldable locks_of : List Grant → List Lock
locks_of [] = []
locks_of (g ∷ gs) = record { name = g.name; file = g.number } ∷ locks_of gs

abbrev is_on : String → Grant → Bool
is_on name g = str_eq g.name name

locks_of-length :
    (name : String) (gs : List Grant)
    → length (select (is_lock_on name) (locks_of gs)) ≡ length (select (is_on name) gs)
unfolding locks_of select
locks_of-length name [] = refl
locks_of-length name (g ∷ gs) = ground (arith, locks_of-length name gs)

locks_of-select :
    (c : ℕ) (gs : List Grant)
    → locks_of (select (λ g. not (g.number == c)) gs)
      ≡ select (λ l. not (l.file == c)) (locks_of gs)
unfolding locks_of select
locks_of-select c [] = refl
locks_of-select c (g ∷ gs) = ground (arith, locks_of-select c gs)

locks_of-kept :
    (c : ℕ) (gs : List Grant)
    → exists_row (λ l. l.file == c) (locks_of gs) ≡ false
    → select (λ g. not (g.number == c)) gs ≡ gs
unfolding locks_of exists_row select
locks_of-kept c [] h = refl
locks_of-kept c (g ∷ gs) h = ground (arith, locks_of-kept c gs)

record Tracks (held : List Grant) (ever : List ℕ) (s : State) : Type 0 where
  locks : s.locks ≡ locks_of held
  exclusive : IsExclusive s
  unused : (x : ℕ) → s.next ≤ x → exists_row (λ y. y == x) ever ≡ false
  known :
      (x : ℕ) → exists_row (λ y. y == x) s.released ≡ true → exists_row (λ y. y == x) ever ≡ true
  gone :
      (x : ℕ)
      → exists_row (λ y. y == x) s.released ≡ true
      → exists_row (λ l. l.file == x) s.locks ≡ false

selected_out :
    (c : ℕ) (ls : List Lock)
    → exists_row (λ l. l.file == c) (select (λ l. not (l.file == c)) ls) ≡ false
unfolding exists_row select
selected_out c [] = refl
selected_out c (l ∷ ls) = ground (arith, selected_out c ls)

not_next :
    (held : List Grant) (ever : List ℕ) (s : State)
    → Tracks held ever s
    → (x : ℕ) → exists_row (λ y. y == x) s.released ≡ true
    → (s.next == x) ≡ false
not_next held ever s t x h = elim (Bool-cases (leb s.next x)) [
  | inl later ↦ absurd (ground (arith, t.known x h, t.unused x (ground (arith, later))))
  | inr before ↦ ground (arith, before)
]

granted-Tracks :
    (f : Faults) (req : AcquireRequest) (c : ℕ) (held : List Grant) (ever : List ℕ) (s s' : State)
    → Tracks held ever s
    → acquire f req s ≡ (ok c, s')
    → Tracks (record { name = req.name; number = c } ∷ held) (c ∷ ever) s'
unfolding locks_of exists_row
granted-Tracks f req c held ever s s' t e =
    let (is_c, free, (a, b, d), m) = acquire-granted f req s s' c e in
    record {
      locks =
          a
          ∙ ap (λ ls. record { name = req.name; file = s.next } ∷ ls) t.locks
          ∙ ap (λ n. record { name = req.name; file = n } ∷ locks_of held) (sym is_c);
      exclusive = subst IsExclusive (ap (λ r. r.1) e) (acquire-IsExclusive f req s t.exclusive);
      unused = λ x h. ground (arith, t.unused x (omega arith));
      known = λ x h. ground (arith, t.known x (rw (sym d) h));
      gone =
          λ x h. let h = rw d at h in rw a (ground (arith, t.gone x h, not_next held ever s t x h));
    }

denied-Tracks :
    (f : Faults) (req : AcquireRequest) (why : AcquireError) (held : List Grant) (ever : List ℕ)
    (s s' : State)
    → Tracks held ever s
    → acquire f req s ≡ (err why, s')
    → Tracks held ever s'
denied-Tracks f req why held ever s s' t e =
    let (a, b, c) = acquire-refused_keeps f req s s' why t.exclusive.fresh e in
    record {
      locks = a ∙ t.locks;
      exclusive = subst IsExclusive (ap (λ r. r.1) e) (acquire-IsExclusive f req s t.exclusive);
      unused = λ x h. t.unused x (omega arith);
      known = λ x h. t.known x (rw (sym b) h);
      gone = λ x h. rw a (t.gone x (rw (sym b) h));
    }

given_back-Tracks :
    (c : ℕ) (held : List Grant) (ever : List ℕ) (s : State)
    → Tracks held ever s
    → exists_row (λ x. x == c) ever ≡ true
    → Tracks (select (λ g. not (g.number == c)) held) ever (release c s)
unfolding release unclaim exists_row
given_back-Tracks c held ever s t there = elim (Bool-cases (exists_row (λ r. r == c) s.released)) [
  | inl again ↦ rw again (rw (locks_of-kept c held (rw (sym t.locks) (t.gone c again))) t)
  | inr first ↦
      let released = release-IsExclusive c s t.exclusive in
      rw first (record {
        locks = rw (locks_of-select c held, t.locks) refl;
        exclusive = rw first at released;
        unused = t.unused;
        known = λ x h. elim (Bool-cases (c == x)) [
          | inl is ↦ subst (λ y. exists_row (λ z. z == y) ever ≡ true) (ground (arith, is)) there
          | inr other ↦ t.known x (ground (arith, h, other))
        ];
        gone = λ x h. elim (Bool-cases (c == x)) [
          | inl is ↦
              subst
                (λ y.
                  exists_row (λ l. l.file == y) (select (λ l. not (l.file == c)) s.locks) ≡ false)
                (ground (arith, is)) (selected_out c s.locks)
          | inr other ↦
              exists-fewer (λ l. l.file == x) (λ l. not (l.file == c)) s.locks
                (t.gone x (ground (arith, h, other)))
        ];
      })
]

Holding-Tracks :
    (held : List Grant) (ever : List ℕ) (s : State) → Holding held ever s → Tracks held ever s
unfolding locks_of exists_row select
Holding-Tracks _ _ _ Holding.nothing = record {
  locks = refl;
  exclusive = record { fresh = λ x h. refl; once = λ name. ground arith };
  unused = λ x h. refl;
  known = λ x h. ground (arith, h);
  gone = λ x h. refl;
}
Holding-Tracks _ _ s' (Holding.granted f req c held ever s _ before e) =
    granted-Tracks f req c held ever s s' (Holding-Tracks held ever s before) e
Holding-Tracks _ _ s' (Holding.denied f req why held ever s _ before e) =
    denied-Tracks f req why held ever s s' (Holding-Tracks held ever s before) e
Holding-Tracks _ _ _ (Holding.given_back c held ever s before there) =
    given_back-Tracks c held ever s (Holding-Tracks held ever s before) there

-- From an empty state directory, after any acquisitions, refused or granted, and any releases of
-- claims that were granted, each once or again: of the claims on a playbook that were granted and
-- not given back, there is at most one.
pub Holding_once :
    (name : String) (held : List Grant) (ever : List ℕ) (s : State)
    → Holding held ever s
    → length (select (λ g. str_eq g.name name) held) ≤ 1
Holding_once name held ever s path =
    let t = Holding-Tracks held ever s path in
    let once : length (select (is_lock_on name) (locks_of held)) ≤ 1 =
      subst (λ ls. length (select (is_lock_on name) ls) ≤ 1) t.locks (t.exclusive.once name) in
    omega (arith, once, locks_of-length name held)
