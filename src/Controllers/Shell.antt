-- ===== src/Controllers/Shell.antt =====
-- The commands that the controllers run (ha/execute.py) and the answers that they give
-- (ha/core/controllers/controller_annotation.py). `W` is the world that commands read and change.
-- `SimpleProcess` of cortx-utils and `sleep` of Python are a parameter, and so is the text of an
-- exception, which nobody reads again. A return code is only compared with 0, so it is a natural.
use cortx_ha.Prelude.{ℕ, String, Bool, not, ◌&&◌, eqb, if◌then◌else◌}
use cortx_ha.Prelude.{Exn, Result, ok, raise, generic, command_terminated}
use cortx_ha.Prelude.Acting.{Act, pure, fail, attempt, ◌>>=◌}
use cortx_ha.Json.{Json, str, obj, end, field}

pub record Output : Type 0 where
  pub out : String
  pub err : String
  pub rc : ℕ

pub record Shell (W : Type 0) : Type 0 where
  pub process : String → Act W Output
  pub sleep : ℕ → Act W (Unit {0})
  pub describe : String → Exn → String

-- `{"status": .., "output": .., "error": ..}`
abbrev pub answer : String → Json → String → Json
answer status output error =
    obj (field "status" (str status) (field "output" output (field "error" (str error) end)))

abbrev pub succeeded : String
succeeded = "Succeeded"

abbrev pub failed : String
failed = "Failed"

abbrev pub in_progress : String
in_progress = "InProgress"

module _ {W : Type 0} (shell : Shell W) where
  -- what the code of a command makes of its output
  unfoldable pub checked : Bool → Output → Act W Output
  checked check_error o = if not (eqb o.rc 0) && check_error then fail generic else pure o

  -- `SimpleCommand.run_cmd`
  unfoldable pub run_cmd : String → Bool → Act W Output
  unfolding checked
  run_cmd cmd check_error = attempt command_terminated (shell.process cmd >>= checked check_error)

  unfoldable pub caught : String → W × Result Json → W × Json
  caught name (w, ok d) = (w, d)
  caught name (w, raise e) = (w, answer failed (str "") (shell.describe name e))

  -- `controller_error_handler`, of the method with the name
  unfoldable pub controller_error_handler : String → Act W Json → W → W × Json
  unfolding caught
  controller_error_handler name m w = caught name (m w)
