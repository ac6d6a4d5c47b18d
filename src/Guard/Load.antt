-- ===== src/Guard/Load.antt =====
-- guard/config.go: `LoadConfig`, from what the file coordination.json decodes to. The parse of a
-- duration, the pattern of a reference and the deployment's interpolation are arguments.
pub mod Checked
pub mod Tests
use gronin.Prelude.{
  ℕ, ◌<◌, ◌≡◌, refl, Bool, true, false, not, List, [], ◌∷◌, ◌++◌, Option, none, some, String,
  str_eq, if◌then◌else◌, Result, ok, err, arith, Bool-cases, Option-cases, sym, ap, subst, inl, inr,
}
use gronin.Prelude.Int.{ℤ, pos, pos_part, leb_ℤ, int64, ◌+ℤ◌}
use gronin.Guard.Clock.{Duration, add}
use gronin.Guard.Config.{Config, default_config, Problem, check, is_whole_seconds, problem_if}

pub record TlsDocument : Type 0 where
  pub ca : String
  pub cert : String
  pub key : String

-- An absent field is "".
pub record EtcdDocument : Type 0 where
  pub endpoints : List String
  pub prefix : String
  pub username : String
  pub password : String
  pub tls : Option TlsDocument

pub record Document : Type 0 where
  pub etcd : Option EtcdDocument
  pub claim_expiry : String
  pub renew_every : String
  pub renew_bound : String
  pub stop_bound : String
  pub decision_bound : String

-- What a declaration can be refused for, by its field.
pub data Fault : Type 0 where
  not_duration not_positive literal unresolved : String → Fault
  no_endpoints : Fault

pub record Reads : Type 0 where
  -- time.ParseDuration
  pub parse : String → Option Duration
  -- ^\$\{config\.[A-Za-z0-9_-]+\}$
  pub is_reference : String → Bool
  pub resolve : String → Option String

-- One round of the loop of `document.config`: the duration, or its default, and what is refused.
unfoldable pub declared_value : Reads → String → String → Duration → Duration × List Fault
declared_value reads field text default =
    if str_eq text "" then (default, []) else elim (reads.parse text) [
      | none ↦ (default, Fault.not_duration field ∷ [])
      | some value ↦
          if leb_ℤ value (pos 0) then (default, Fault.not_positive field ∷ []) else (value, [])
    ]

-- One round of the loop of `etcdDocument.config`.
unfoldable pub credential : Reads → String → String → String × List Fault
credential reads field text =
    if str_eq text ""
    then ("", [])
    else if not (reads.is_reference text)
    then ("", Fault.literal field ∷ [])
    else elim (reads.resolve text) [
      | none ↦ ("", Fault.unresolved field ∷ [])
      | some value ↦ (value, [])
    ]

-- `len(d.Endpoints) == 0`
abbrev endpoint_refusals : List String → List Fault
endpoint_refusals [] = Fault.no_endpoints ∷ []
endpoint_refusals (e ∷ es) = []

-- `etcdDocument.config`
unfoldable pub etcd_config : Reads → EtcdDocument → EtcdDocument × List Fault
unfolding credential
etcd_config reads d =
    let (username, p) = credential reads "etcd.username" d.username in
    let (password, q) = credential reads "etcd.password" d.password in
    (
      record d { username = username; password = password },
      endpoint_refusals d.endpoints ++ (p ++ q),
    )

abbrev etcd_part : Reads → Option EtcdDocument → Option EtcdDocument × List Fault
etcd_part reads none = (none, [])
etcd_part reads (some d) = let (e, p) = etcd_config reads d in (some e, p)

-- `document.config`
unfoldable pub config : Reads → Document → Config × Option EtcdDocument × List Fault
unfolding declared_value etcd_config
config reads d =
    let (expiry, a) =
      declared_value reads "claim_expiry" d.claim_expiry default_config.claim_expiry in
    let (every, b) = declared_value reads "renew_every" d.renew_every default_config.renew_every in
    let (bound, c) = declared_value reads "renew_bound" d.renew_bound default_config.renew_bound in
    let (stop, e) = declared_value reads "stop_bound" d.stop_bound default_config.stop_bound in
    let (decision, f) =
      declared_value reads "decision_bound" d.decision_bound default_config.decision_bound in
    let (etcd, g) = etcd_part reads d.etcd in
    (
      record {
        claim_expiry = expiry;
        renew_every = every;
        renew_bound = bound;
        stop_bound = stop;
        decision_bound = decision;
      },
      etcd,
      a ++ (b ++ (c ++ (e ++ (f ++ g)))),
    )

-- What reading and decoding the file gives.
pub data File : Type 0 where
  absent unreadable undecodable : File
  decoded : Document → File

pub data LoadError : Type 0 where
  cannot_read cannot_decode : LoadError
  refused : List Fault → LoadError
  failed_check : List Problem → LoadError

-- What is given where the check finds no problem.
abbrev pub unless_failed {ℓ} : {A : Type ℓ} → List Problem → A → Result LoadError A
unless_failed [] a = ok a
unless_failed (p ∷ ps) a = err (LoadError.failed_check (p ∷ ps))

-- The end of `LoadConfig`, which checks what was declared.
unfoldable pub checked :
    Config × Option EtcdDocument × List Fault
    → Result LoadError (Config × Option EtcdDocument × Bool)
checked (c, etcd, r ∷ rs) = err (LoadError.refused (r ∷ rs))
checked (c, etcd, []) = unless_failed (check c) (c, etcd, true)

-- `LoadConfig`
unfoldable pub load_config : Reads → File → Result LoadError (Config × Option EtcdDocument × Bool)
unfolding config checked
load_config reads File.absent = ok (default_config, none, false)
load_config reads File.unreadable = err LoadError.cannot_read
load_config reads File.undecodable = err LoadError.cannot_decode
load_config reads (File.decoded d) = checked (config reads d)
