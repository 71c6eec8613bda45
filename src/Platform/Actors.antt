-- ===== src/Platform/Actors.antt =====
-- platform/domain/context.go.
use pda_backend.Common.{String, ◌||◌, ◌==◌, if◌then◌else◌}
use pda_backend.Common.Text.{trim_space}
use pda_backend.Platform.Errors.{Error}
use pda_backend.Platform.Results.{Result, ok, err}

pub record Actor : Type 0 where
  pub operator_id : String
  pub device_id : String
  pub warehouse_id : String
  pub correlation_id : String

unfoldable pub new_actor : String → String → String → String → Result Actor
new_actor operator device warehouse correlation =
    if trim_space operator == ""
      || trim_space device == ""
      || trim_space warehouse == ""
      || trim_space correlation == ""
    then err (Error.fault 0)
    else ok (record {
      operator_id = operator;
      device_id = device;
      warehouse_id = warehouse;
      correlation_id = correlation;
    })
