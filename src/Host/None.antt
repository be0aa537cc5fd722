-- ===== src/Host/None.antt =====
-- pkg/drivers/none: the driver of a machine that has none.
use mactainer.Base.{String, Result, ok, err}
use mactainer.Errors.{GoError, message}
use mactainer.Json.{Content}

-- The fields of `drivers.BaseDriver` that this program reads or sets.
pub record BaseDriver : Type 0 where
  pub machine_name : String
  pub store_path : String
  pub ip_address : String

pub record NoneDriver : Type 0 where
  pub base : BaseDriver
  pub open base use *

abbrev pub driver_name : String
driver_name = "none"

-- The state that a driver without a machine reports, of the machine library's states.
pub data NoneState : Type 0 where
  running : NoneState

unfoldable pub new_driver : String → String → NoneDriver
new_driver host_name store_path = record {
  base = record { machine_name = host_name; store_path = store_path; ip_address = "" };
}

unfoldable pub create : NoneDriver → Result GoError (Unit {0})
create d = ok tt

unfoldable pub get_ip : NoneDriver → Result GoError String
get_ip d = ok d.ip_address

unfoldable pub get_state : NoneDriver → Result GoError NoneState
get_state d = ok running

unfoldable pub kill : NoneDriver → Result GoError (Unit {0})
kill d = err (message "hosts without a driver cannot be killed")

unfoldable pub remove : NoneDriver → Result GoError (Unit {0})
remove d = ok tt

unfoldable pub update_config_raw : NoneDriver → Content → Result GoError (Unit {0})
update_config_raw d raw_data = err (message "hosts without a driver cannot be updated")

unfoldable pub start : NoneDriver → Result GoError (Unit {0})
start d = err (message "hosts without a driver cannot be started")

unfoldable pub stop : NoneDriver → Result GoError (Unit {0})
stop d = err (message "hosts without a driver cannot be stopped")
