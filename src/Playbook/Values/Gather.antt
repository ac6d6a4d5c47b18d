-- ===== src/Playbook/Values/Gather.antt =====
-- playbook/values.go with config/shell.go: what of a delivery reaches the command of a gather step.
use gronin.Prelude.Bytes.{Bytes}
use gronin.Playbook.Values.{Playbook}
