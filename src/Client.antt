-- ===== src/Client.antt =====
-- pkg/libmachine: the client of the commands, a store together with the drivers of the machine
-- library.
pub mod Keys
pub mod Pairing
pub mod Loading
use Prim.Native.Char.{code}
use mactainer.Base.{
  ℕ, String, ◌≡◌, Bool, true, false, ◌&&◌, ◌||◌, ◌==◌, nat_eq, string_eq, if◌then◌else◌, Option,
  none, some, Result, ok, err, Action, pure, of_result, attempt, ◌>>=◌, ◌>>◌,
}
use mactainer.Base.Int.{pos}
use mactainer.Errors.{GoError}
use mactainer.Json.{Json, Content}
use mactainer.Fs.{FilePath, World, Fs}
use mactainer.Host.{Host, Driver, remote, version}
use mactainer.Host.Action.{Methods}
use mactainer.Store.{Filestore, load, save}

-- The machine library and its RPC driver factory, which are not part of this program: the machines
-- and plugin processes that there are, and what can be asked of them.
pub record Library : Type 1 where
  pub Machines : Type 0
  pub RpcDriver : Type 0
  pub new_rpc_client_driver : String → String → Content → Action Machines GoError RpcDriver
  pub close : Action Machines GoError (Unit {0})
  pub methods : RpcDriver → Methods Machines
  pub update_config_raw : RpcDriver → Content → Action Machines GoError (Unit {0})
  pub machine_name : RpcDriver → Machines → String
  pub driver_name : RpcDriver → Machines → String
  pub marshal : RpcDriver → Machines → Result GoError Json

-- `strings.TrimRight(text, "\r\n")`
unfoldable pub trim_right : String → String
unfolding nat_eq string_eq
trim_right String.[] = ""
trim_right (String.◌∷◌ c s) =
    let rest = trim_right s in
    if rest == "" && (code c == 13 || code c == 10) then "" else String.◌∷◌ c rest

module _ (L : Library) where
  pub record System : Type 0 where
    pub world : World
    pub machines : L.Machines

  abbrev pub Sys : Type 0 → Type 0
  Sys A = Action System GoError A

  abbrev pub on_disk : {A : Type 0} → Fs A → Sys A
  on_disk f s = ((f s.world).0, record s { world = (f s.world).1 })

  abbrev pub on_machines : {A : Type 0} → Action L.Machines GoError A → Sys A
  on_machines f s = ((f s.machines).0, record s { machines = (f s.machines).1 })

  abbrev new_record :
      String → Content → String × String → L.RpcDriver → L.Machines → Host L.RpcDriver
  new_record driver_path raw_driver keys d m = record {
    config_version = pos version;
    driver = remote d;
    driver_name = L.driver_name d m;
    driver_path = driver_path;
    name = L.machine_name d m;
    raw_driver = raw_driver;
    public_key = trim_right keys.1;
    private_key = keys.0;
  }

  -- `NewHost(driverName, driverPath, rawDriver)`, given the private and the public key that
  -- `ssh.GenerateKeys` makes
  unfoldable pub new_host :
      Result GoError (String × String) → String → String → Content → Sys (Host L.RpcDriver)
  unfolding trim_right
  new_host generated driver_name driver_path raw_driver = do
    d ← on_machines (L.new_rpc_client_driver driver_name driver_path raw_driver)
    keys ← of_result generated
    λ s. pure (new_record driver_path raw_driver keys d s.machines) s

  -- `Load(name)`
  unfoldable pub load_host : Filestore → String → Sys (Host L.RpcDriver)
  load_host s name = do
    h ← on_disk (load s name)
    d ← on_machines (L.new_rpc_client_driver h.driver_name h.driver_path h.raw_driver)
    pure (record h { driver = remote d })

  -- `Save(host)` of the store that the client embeds
  unfoldable pub save_host : Filestore → Host L.RpcDriver → Sys (Unit {0})
  save_host s h sys = on_disk (save (λ d. L.marshal d sys.machines) s h) sys
