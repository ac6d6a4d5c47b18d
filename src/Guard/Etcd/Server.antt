-- ===== src/Guard/Etcd/Server.antt =====
-- What guard/etcd/etcd.go relies on of etcd: keys with their revisions, transactions that compare
-- revisions, and leases whose end deletes the keys that they were put with.
use gronin.Prelude.{
  ℕ, suc, Bool, true, false, ◌&&◌, List, [], ◌∷◌, Option, none, some, String, ◌==◌, ◌≤◌, ◌≡◌,
  if◌then◌else◌,
}
use gronin.Prelude.Bytes.{Bytes, same}

-- A key that exists.
pub record Entry : Type 0 where
  pub value : String
  pub lease : Option ℕ
  pub create_revision : ℕ
  pub mod_revision : ℕ

abbrev pub View : Type 0
View = Bytes → Option Entry

-- The revisions of a key that does not exist are 0.
abbrev pub created : Option Entry → ℕ
created none = 0
created (some e) = e.create_revision

abbrev pub modified : Option Entry → ℕ
modified none = 0
modified (some e) = e.mod_revision

pub data Condition : Type 0 where
  created_at : Bytes → ℕ → Condition
  modified_at : Bytes → ℕ → Condition

pub record Write : Type 0 where
  pub key : Bytes
  pub value : String
  pub lease : Option ℕ

unfoldable pub holds : View → Condition → Bool
holds view (Condition.created_at key revision) = created (view key) == revision
holds view (Condition.modified_at key revision) = modified (view key) == revision

unfoldable pub all_hold : View → List Condition → Bool
all_hold view [] = true
all_hold view (c ∷ cs) = holds view c && all_hold view cs

-- A key put at a revision keeps the revision that created it.
abbrev pub put_entry : ℕ → Write → Option Entry → Entry
put_entry at w none = record {
  value = w.value;
  lease = w.lease;
  create_revision = at;
  mod_revision = at;
}
put_entry at w (some e) = record {
  value = w.value;
  lease = w.lease;
  create_revision = e.create_revision;
  mod_revision = at;
}

unfoldable pub written : ℕ → List Write → View → View
written at [] view key = view key
written at (w ∷ ws) view key =
    let rest = written at ws view key in
    if same w.key key then some (put_entry at w (view key)) else rest

unfoldable pub is_under : ℕ → Option ℕ → Bool
is_under lease none = false
is_under lease (some id) = id == lease

-- What the end of a lease leaves of a key.
unfoldable pub without : ℕ → Option Entry → Option Entry
without lease none = none
without lease (some e) = if is_under lease e.lease then none else some e

-- A transaction that writes takes the next revision.
unfoldable pub next_revision : List Write → ℕ → ℕ
next_revision [] at = at
next_revision (w ∷ ws) at = suc at

-- A server, and what etcd documents of it. The writes of one transaction are of different keys.
pub record Etcd (S : Type 0) : Type 0 where
  pub get : S → View
  pub revision : S → ℕ
  pub txn : List Condition → List Write → S → Bool × S
  pub revoke : ℕ → S → S
  pub commits :
      (cs : List Condition) (ws : List Write) (s : S)
      → all_hold (get s) cs ≡ true
      → (txn cs ws s).0 ≡ true
  pub commit-get :
      (cs : List Condition) (ws : List Write) (s : S)
      → all_hold (get s) cs ≡ true
      → (key : Bytes) → get (txn cs ws s).1 key ≡ written (suc (revision s)) ws (get s) key
  pub commit-revision :
      (cs : List Condition) (ws : List Write) (s : S)
      → all_hold (get s) cs ≡ true
      → revision (txn cs ws s).1 ≡ next_revision ws (revision s)
  pub refuses :
      (cs : List Condition) (ws : List Write) (s : S)
      → all_hold (get s) cs ≡ false
      → txn cs ws s ≡ (false, s)
  pub get-revoke : (id : ℕ) (s : S) (key : Bytes) → get (revoke id s) key ≡ without id (get s key)
  pub revision-revoke : (id : ℕ) (s : S) → revision s ≤ revision (revoke id s)
