-- ===== src/Prelude/Rows.antt =====
-- Tables as lists of rows, and what the program's SQL statements do to them.
use mathlib.Core.Path.{◌≡◌, refl}
use mathlib.Core.Bool.{Bool, true, false, ◌||◌, ◌&&◌}
use mathlib.Core.List.{List, [], ◌∷◌, ◌++◌, map}
use mathlib.Core.Logic.{◌⊎◌}
use mathlib.Core.Option.{Option, none, some}
use native.Mathlib.Omega.{arith}
use gronin.Prelude.Tests.{if◌then◌else◌}

module _ {ℓ} {A : Type ℓ} where
  -- SELECT … WHERE, its first row.
  unfoldable pub find : (A → Bool) → List A → Option A
  find p [] = none
  find p (x ∷ xs) = if p x then some x else find p xs

  -- SELECT … WHERE
  unfoldable pub select : (A → Bool) → List A → List A
  select p [] = []
  select p (x ∷ xs) = let rest = select p xs in if p x then x ∷ rest else rest

  -- EXISTS (SELECT … WHERE)
  unfoldable pub exists_row : (A → Bool) → List A → Bool
  exists_row p [] = false
  exists_row p (x ∷ xs) = p x || exists_row p xs

  -- UPDATE … SET … WHERE
  unfoldable pub update : (A → Bool) → (A → A) → List A → List A
  update p f [] = []
  update p f (x ∷ xs) = (if p x then f x else x) ∷ update p f xs

  -- A row written over the rows that match it is found among them.
  pub find-update_const :
      (p : A → Bool) (row : A) (rows : List A)
      → p row ≡ true
      → exists_row p rows ≡ true
      → find p (update p (λ _. row) rows) ≡ some row
  unfolding find update exists_row
  find-update_const p row [] h e = ground arith
  find-update_const p row (x ∷ xs) h e = ground (arith, find-update_const p row xs h)

  -- A write that does not move a test leaves what the test finds.
  pub exists-update :
      (q p : A → Bool) (f : A → A)
      → ((x : A) → p x ≡ true → q (f x) ≡ q x)
      → (xs : List A) → exists_row q (update p f xs) ≡ exists_row q xs
  unfolding exists_row update
  exists-update q p f keep [] = refl
  exists-update q p f keep (x ∷ xs) = ground (arith, keep x, exists-update q p f keep xs)

  -- A row that the write matches passes the test that the write makes true.
  pub exists-update_hit :
      (q r : A → Bool) (f : A → A)
      → ((x : A) → q x ≡ true → r (f x) ≡ true)
      → (xs : List A) → exists_row q xs ≡ true
      → exists_row r (update q f xs) ≡ true
  unfolding exists_row update
  exists-update_hit q r f hit [] e = ground arith
  exists-update_hit q r f hit (x ∷ xs) e = ground (arith, hit x, exists-update_hit q r f hit xs)

  pub exists_mono :
      (q r : A → Bool)
      → ((x : A) → q x ≡ true → r x ≡ true)
      → (xs : List A) → exists_row q xs ≡ true
      → exists_row r xs ≡ true
  unfolding exists_row
  exists_mono q r le [] e = ground arith
  exists_mono q r le (x ∷ xs) e = ground (arith, le x, exists_mono q r le xs)

  pub exists-select :
      (q p : A → Bool) (xs : List A) → exists_row q (select p xs) ≡ exists_row (λ x. p x && q x) xs
  unfolding exists_row select
  exists-select q p [] = refl
  exists-select q p (x ∷ xs) = ground (arith, exists-select q p xs)

  pub exists-or :
      (q r : A → Bool) (xs : List A)
      → exists_row (λ x. q x || r x) xs ≡ true
      → (exists_row q xs ≡ true) ⊎ (exists_row r xs ≡ true)
  unfolding exists_row
  exists-or q r [] e = ground arith
  exists-or q r (x ∷ xs) e = ground (arith, exists-or q r xs)

  pub exists-none :
      (q : A → Bool) → ((x : A) → q x ≡ false) → (xs : List A) → exists_row q xs ≡ false
  unfolding exists_row
  exists-none q never [] = refl
  exists-none q never (x ∷ xs) = ground (arith, never x, exists-none q never xs)

  -- Where no row passes a test, none passes a stronger one.
  pub exists_mono_none :
      (q r : A → Bool)
      → ((x : A) → q x ≡ true → r x ≡ true)
      → (xs : List A) → exists_row r xs ≡ false
      → exists_row q xs ≡ false
  unfolding exists_row
  exists_mono_none q r le [] e = refl
  exists_mono_none q r le (x ∷ xs) e = ground (arith, le x, exists_mono_none q r le xs)

  -- A write whose rows fail a test adds no row that passes it.
  pub exists-update_none :
      (q p : A → Bool) (f : A → A)
      → ((x : A) → q (f x) ≡ false)
      → (xs : List A) → exists_row q xs ≡ false
      → exists_row q (update p f xs) ≡ false
  unfolding exists_row update
  exists-update_none q p f fails [] e = refl
  exists-update_none q p f fails (x ∷ xs) e =
      ground (arith, fails x, exists-update_none q p f fails xs)

  pub exists-append :
      (q : A → Bool) (xs ys : List A)
      → exists_row q (xs ++ ys) ≡ (exists_row q xs || exists_row q ys)
  unfolding exists_row
  exists-append q [] ys = refl
  exists-append q (x ∷ xs) ys = ground (arith, exists-append q xs ys)

  -- A row that is found is there, and passes the test.
  pub find-some :
      (p : A → Bool) (xs : List A) (x : A)
      → find p xs ≡ some x
      → (exists_row p xs ≡ true) × (p x ≡ true)
  unfolding find exists_row
  find-some p [] x e = ground arith
  find-some p (y ∷ ys) x e = ground (arith, find-some p ys x)

module _ {ℓ κ} {A : Type ℓ} {B : Type κ} where
  pub exists-map :
      (q : B → Bool) (g : A → B) (xs : List A)
      → exists_row q (map g xs) ≡ exists_row (λ x. q (g x)) xs
  unfolding exists_row
  exists-map q g [] = refl
  exists-map q g (x ∷ xs) = ground (arith, exists-map q g xs)
