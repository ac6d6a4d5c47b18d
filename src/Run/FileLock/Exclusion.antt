-- ===== src/Run/FileLock/Exclusion.antt =====
-- One lock at a time on each playbook, and a refusal leaves the locks as they are.
use gronin.Prelude.{
  ℕ, ◌≤◌, ◌≡◌, refl, sym, ◌∙◌, ap, Bool, false, not, List, [], ◌∷◌, none, String, eq_iff, Result,
  ok, err, select, exists_row, length, ◌==◌, arith, Bool-cases, inl, inr,
}
use gronin.Guard.Coordinator.{AcquireRequest, AcquireError}
use gronin.Run.FileLock.{
  Lock, State, Faults, is_lock_on, unclaim, acquire, release, decide, record_holder,
}
use gronin.Run.FileLock.Steps.{
  Keeps, IsFresh, taken_of, acquire-cases, settle-granted, settle-refused, decided-Keeps,
}

select-all :
    (q : Lock → Bool) (ls : List Lock) → exists_row q ls ≡ false → select (λ l. not (q l)) ls ≡ ls
unfolding exists_row select
select-all q [] h = refl
select-all q (l ∷ ls) h = ground (arith, select-all q ls)

select-fewer :
    (q r : Lock → Bool) (ls : List Lock) → length (select q (select r ls)) ≤ length (select q ls)
unfolding select
select-fewer q r [] = ground arith
select-fewer q r (l ∷ ls) = ground (arith, select-fewer q r ls)

select-free :
    (q : Lock → Bool) (ls : List Lock) → exists_row q ls ≡ false → length (select q ls) ≡ 0
unfolding exists_row select
select-free q [] h = refl
select-free q (l ∷ ls) h = ground (arith, select-free q ls)

pub exists-fewer :
    (q r : Lock → Bool) (ls : List Lock)
    → exists_row q ls ≡ false
    → exists_row q (select r ls) ≡ false
unfolding exists_row select
exists-fewer q r [] h = refl
exists-fewer q r (l ∷ ls) h = ground (arith, exists-fewer q r ls)

-- What a grant takes, and the decision that it follows from.
pub acquire-granted :
    (f : Faults) (req : AcquireRequest) (s s' : State) (c : ℕ)
    → acquire f req s ≡ (ok c, s')
    → (c ≡ s.next)
      × (exists_row (is_lock_on req.name) s.locks ≡ false)
      × Keeps (taken_of req.name s) s'
      × (decide f req (record_holder f.written req.name req.holder (taken_of req.name s))
          ≡ (none, s'))
acquire-granted f req s s' c e = elim (acquire-cases f req s) [
  | inl (e', fails, early) ↦ absurd (ground (arith, fails))
  | inr (free, settled) ↦
      let (is_c, is_m) = settle-granted s.next c _ s' (sym settled ∙ e) in
      (is_c, free, rw is_m at (decided-Keeps f req s), is_m)
]

-- The number of locks that are held on a playbook.
abbrev pub holders : String → State → ℕ
holders name s = length (select (is_lock_on name) s.locks)

-- A refusal leaves the locks as they were.
pub acquire-refused_keeps :
    (f : Faults) (req : AcquireRequest) (s s' : State) (why : AcquireError)
    → IsFresh s
    → acquire f req s ≡ (err why, s')
    → (s'.locks ≡ s.locks) × (s'.released ≡ s.released) × (s.next ≤ s'.next)
unfolding unclaim select
acquire-refused_keeps f req s s' why fresh e = elim (acquire-cases f req s) [
  | inl (e', fails, early) ↦
      let p : s ≡ s' = ap (λ x. x.1) (sym fails ∙ e) in
      (ap (λ x. x.locks) (sym p), ap (λ x. x.released) (sym p), rw p (ground arith))
  | inr (free, settled) ↦
      let (t, is_m, is_s) = settle-refused s.next why _ s' (sym settled ∙ e) in
      let (a, b, c) = rw is_m at (decided-Keeps f req s) in
      (
        rw (is_s, a)
            (ground
              (arith, select-all (λ l. l.file == s.next) s.locks (fresh s.next (ground arith)))),
        rw is_s c,
        rw (is_s, b) (ground arith),
      )
]

-- The steps of every process on the host.
pub data Step : State → State → Type 0 where
  acquired : (f : Faults) (req : AcquireRequest) (s : State) → Step s (acquire f req s).1
  returned : (file : ℕ) (s : State) → Step s (release file s)

-- What holds from the first state on.
pub record IsExclusive (s : State) : Type 0 where
  pub fresh : IsFresh s
  pub once : (name : String) → holders name s ≤ 1

pub acquire-IsExclusive :
    (f : Faults) (req : AcquireRequest) (s : State)
    → IsExclusive s
    → IsExclusive (acquire f req s).1
unfolding select exists_row
acquire-IsExclusive f req s w = go (acquire f req s) refl
  where
    go : (r : Result AcquireError ℕ × State) → acquire f req s ≡ r → IsExclusive r.1
    go (err why, s') e =
        let (a, b, c) = acquire-refused_keeps f req s s' why w.fresh e in
        record { fresh = λ x h. rw a (w.fresh x (ground arith)); once = λ name. rw a (w.once name) }
    go (ok c, s') e =
        let (is_c, free, (a, b, d), m) = acquire-granted f req s s' c e in
        record {
          fresh = λ x h. rw a (ground (arith, w.fresh x (ground arith)));
          once = λ name. rw a (
              ground (
                arith,
                w.once name,
                eq_iff req.name name,
                select-free (is_lock_on req.name) s.locks free,
              ));
        }

pub release-IsExclusive : (file : ℕ) (s : State) → IsExclusive s → IsExclusive (release file s)
unfolding release unclaim
release-IsExclusive file s w = elim (Bool-cases (exists_row (λ r. r == file) s.released)) [
  | inl done ↦ rw done w
  | inr first ↦ rw first (record {
    fresh =
        λ x h. exists-fewer (λ l. l.file == x) (λ l. not (l.file == file)) s.locks (w.fresh x h);
    once = λ name.
        ground
          (arith, w.once name, select-fewer (is_lock_on name) (λ l. not (l.file == file)) s.locks);
  })
]
