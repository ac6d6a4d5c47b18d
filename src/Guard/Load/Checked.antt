-- ===== src/Guard/Load/Checked.antt =====
-- What `LoadConfig` gives passes the check, and is positive.
use gronin.Prelude.{
  ◌<◌, ◌≡◌, refl, Bool, true, List, [], ◌∷◌, Option, String, str_eq, ok, arith, Bool-cases,
  Option-cases, sym, ap, subst, inl, inr,
}
use gronin.Prelude.Int.{pos, pos_part, leb_ℤ, int64, ◌+ℤ◌}
use gronin.Guard.Clock.{Duration, add}
use gronin.Guard.Config.{Config, default_config, Problem, check, is_whole_seconds, problem_if}
use gronin.Guard.Load.{
  Reads, Document, EtcdDocument, Fault, File, declared_value, config, checked, unless_failed,
  load_config,
}

default_passes : check default_config ≡ []
unfolding check is_whole_seconds problem_if add int64 ◌+ℤ◌
default_passes = ground arith

declared_value-positive :
    (reads : Reads) (field text : String) (default : Duration)
    → 0 < pos_part default
    → 0 < pos_part (declared_value reads field text default).0
unfolding declared_value
declared_value-positive reads field text default h = elim (Bool-cases (str_eq text "")) [
  | inl missing ↦ rw missing h
  | inr given ↦ elim (Option-cases (reads.parse text)) [
    | inl wrong ↦ rw (given, wrong) h
    | inr (value, parsed) ↦ elim (Bool-cases (leb_ℤ value (pos 0))) [
      | inl low ↦ rw (given, parsed, low) h
      | inr high ↦ rw (given, parsed, high) (ground (arith, high))
    ]
  ]
]

-- Every duration of a configuration is above zero.
abbrev pub IsPositive : Config → Type 0
IsPositive c =
    (0 < pos_part c.claim_expiry)
    × (0 < pos_part c.renew_every)
    × (0 < pos_part c.renew_bound)
    × (0 < pos_part c.stop_bound)
    × (0 < pos_part c.decision_bound)

config-IsPositive : (reads : Reads) (d : Document) → IsPositive (config reads d).0
unfolding config
config-IsPositive reads d = (
  declared_value-positive reads "claim_expiry" d.claim_expiry default_config.claim_expiry
      (ground arith),
  declared_value-positive reads "renew_every" d.renew_every default_config.renew_every
      (ground arith),
  declared_value-positive reads "renew_bound" d.renew_bound default_config.renew_bound
      (ground arith),
  declared_value-positive reads "stop_bound" d.stop_bound default_config.stop_bound (ground arith),
  declared_value-positive reads "decision_bound" d.decision_bound default_config.decision_bound
      (ground arith),
)

unless_failed-ok {ℓ} :
    {A : Type ℓ} (ps : List Problem) (a b : A) → unless_failed ps a ≡ ok b → (ps ≡ []) × (a ≡ b)
unless_failed-ok [] a b h = (refl, ground arith)
unless_failed-ok (p ∷ ps) a b h = ground arith

checked-ok :
    (r : Config × Option EtcdDocument × List Fault) (c : Config) (etcd : Option EtcdDocument)
    (b : Bool)
    → checked r ≡ ok (c, etcd, b)
    → (c ≡ r.0) × (check c ≡ [])
unfolding checked
checked-ok (c', e', p ∷ ps) c etcd b h = ground arith
checked-ok (c', e', []) c etcd b h =
    let (passes, same) = unless_failed-ok (check c') (c', e', true) (c, etcd, b) h in
    let is_c : c ≡ c' = sym (ap (λ r. r.0) same) in (is_c, rw is_c passes)

-- A configuration that `LoadConfig` gives without an error, from a file or by default, passes the
-- check, and every duration of it is above zero, whatever the file declares.
pub load_config-checked :
    (reads : Reads) (file : File) (c : Config) (etcd : Option EtcdDocument) (b : Bool)
    → load_config reads file ≡ ok (c, etcd, b)
    → (check c ≡ []) × IsPositive c
unfolding load_config
load_config-checked reads File.absent c etcd b h =
    let is_c : default_config ≡ c = ground arith in
    subst (λ x. (check x ≡ []) × IsPositive x) is_c
      (default_passes, (ground arith, ground arith, ground arith, ground arith, ground arith))
load_config-checked reads File.unreadable c etcd b h = absurd (ground arith)
load_config-checked reads File.undecodable c etcd b h = absurd (ground arith)
load_config-checked reads (File.decoded d) c etcd b h =
    let (is_c, passes) = checked-ok (config reads d) c etcd b h in
    (passes, rw is_c (config-IsPositive reads d))
