-- ===== src/Guard/Load/Tests.antt =====
-- A file that declares a shorter stop bound.
use gronin.Prelude.{◌*◌, ◌≡◌, refl, true, none, some, str_eq, ok, if◌then◌else◌}
use gronin.Prelude.Int.{pos, int64, ◌+ℤ◌}
use gronin.Guard.Clock.{second, add}
use gronin.Guard.Config.{Config, default_config, check, is_whole_seconds, problem_if}
use gronin.Guard.Load.{Reads, Document, File, declared_value, config, checked, load_config}

abbrev reads : Reads
reads = record {
  parse = λ text. if str_eq text "8s" then some (pos (8 * second)) else none;
  is_reference = λ text. true;
  resolve = λ text. some "secret";
}

abbrev document : Document
document = record {
  etcd = none;
  claim_expiry = "";
  renew_every = "";
  renew_bound = "";
  stop_bound = "8s";
  decision_bound = "";
}

abbrev shorter : Config
shorter = record default_config { stop_bound = pos (8 * second) }

loads : load_config reads (File.decoded document) ≡ ok (shorter, none, true)
unfolding load_config config checked declared_value check is_whole_seconds problem_if add int64 ◌+ℤ◌
loads = refl
