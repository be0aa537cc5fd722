-- ===== src/Command/Daemon.antt =====
-- cmd/mct/cmd/daemon.go: the virtual network of the machine, and the requests that it answers.
use mactainer.Base.{
  ℕ, String, ◌<>◌, Bool, false, ◌==◌, string_eq, if◌then◌else◌, Option, none, some, List, [], ◌∷◌,
  Result, ok, err, pure, fail, attempt, of_result, ◌>>=◌, ◌>>◌,
}
use mactainer.Base.Decimal.{decimal}
use mactainer.Base.Dict
use mactainer.Base.Dict.{Dict}
use mactainer.Base.Int.{pos}
use mactainer.Errors.{GoError, message, wrapped}
use mactainer.Json.{Content}
use mactainer.Fs.{FilePath, Files, World, Fs, resolve, content_of, mkdir_all, remove, listen_unix}
use mactainer.Command.Config.{machine_name, machine_dir, http_socket, ssh_port}
use mactainer.Command.Driver.{tap_socket_path}

-- `types.Zone` and `types.Record` of gvisor-tap-vsock; an IP is its text.
pub record Zone : Type 0 where
  pub name : String
  pub default_ip : Option String
  pub records : Dict String String

pub data Protocol : Type 0 where
  hyper_kit : Protocol

-- The fields of `types.Configuration` that the command sets
pub record Configuration : Type 0 where
  pub debug : Bool
  pub capture_file : String
  pub mtu : ℕ
  pub subnet : String
  pub gateway_ip : String
  pub gateway_mac_address : String
  pub dhcp_static_leases : Dict String String
  pub dns : List Zone
  pub forwards : Dict String String
  pub nat : Dict String String
  pub gateway_virtual_ips : List String
  pub vpn_kit_uuid_mac_addresses : Dict String String
  pub protocol : Protocol

-- `newVirtualNetworkConfig()`, given the variable MCT_DAEMON_PCAP_FILE
unfoldable pub new_virtual_network_config : String → Configuration
new_virtual_network_config pcap_file = record {
  debug = false;
  capture_file = pcap_file;
  mtu = 1500;
  subnet = "192.168.127.0/24";
  gateway_ip = "192.168.127.1";
  gateway_mac_address = "5a:94:ef:e4:0c:dd";
  dhcp_static_leases = ("192.168.127.2", "5a:94:ef:e4:0c:ee") ∷ [];
  dns =
      record { name = "mactainer.containers."; default_ip = some "192.168.127.2"; records = [] }
      ∷ record {
        name = "mct.mactainer.";
        default_ip = none;
        records =
            ("gateway", "192.168.127.1")
            ∷ ("api", "192.168.127.2")
            ∷ ("api-int", "192.168.127.2")
            ∷ ("host", "192.168.127.254")
            ∷ [];
      }
      ∷ [];
  forwards = (":" <> decimal (pos ssh_port), "192.168.127.2:22") ∷ [];
  nat = ("192.168.127.254", "127.0.0.1") ∷ [];
  gateway_virtual_ips = "192.168.127.254" ∷ [];
  vpn_kit_uuid_mac_addresses = ("c3d68012-0208-11ea-9fd7-f2189899ab08", "5a:94:ef:e4:0c:ee") ∷ [];
  protocol = hyper_kit;
}

-- gvisor-tap-vsock: whether the virtual network can be made, and listened on in it.
pub record VirtualNetwork : Type 0 where
  pub new : Configuration → Result GoError (Unit {0})
  pub listen : String → String → Result GoError (Unit {0})

abbrev pub wrapping : {A : Type 0} → String → Result GoError A → Fs A
wrapping what (ok a) = pure a
wrapping what (err e) = fail (wrapped what e)

-- `httpSocketPath()`
abbrev pub http_socket_path : FilePath → FilePath
http_socket_path home = http_socket ∷ machine_name ∷ machine_dir home

-- `vsockListener()` of a process in the directory `cwd`
unfoldable pub vsock_listener : FilePath → FilePath → Fs (Unit {0})
vsock_listener cwd home = do
  attempt (remove ("tap.sock" ∷ cwd))
  bound ← attempt (listen_unix (tap_socket_path home))
  wrapping "could not bind vsock" bound

-- `httpListener()`
unfoldable pub http_listener : FilePath → Fs (Unit {0})
http_listener home = do
  attempt (remove (http_socket_path home))
  bound ← attempt (listen_unix (http_socket_path home))
  wrapping "could not bind http socket" bound

-- Who answers a request
pub data Handler : Type 0 where
  serve_file : FilePath → Handler
  network_mux : Handler  -- `virtualNetwork.Mux()`

abbrev pub gateway_address : String
gateway_address = "192.168.127.1" <> ":80"

-- `ignitionMux()`
unfoldable pub ignition_mux : FilePath → Dict String Handler
ignition_mux home = ("/ignition", serve_file ("mct.ign" ∷ machine_name ∷ machine_dir home)) ∷ []

-- The mux of the gateway. None of its patterns ends in a slash, so each is for one path.
unfoldable pub gateway_mux : FilePath → Dict String Handler
unfolding ignition_mux Dict.insert
gateway_mux home = Dict.insert "/services/forwarder/unexpose" network_mux (
    Dict.insert "/services/forwarder/expose" network_mux
      (Dict.insert "/services/forwarder/all" network_mux (ignition_mux home)))

-- What comes of a request to the gateway that a file answers.
abbrev pub file_answer : Files → Option Handler → Option (Result GoError Content)
file_answer fs (some (serve_file p)) = some (content_of (resolve fs p))
file_answer fs (some network_mux) = none
file_answer fs none = none

unfoldable pub gateway_file : FilePath → String → Files → Option (Result GoError Content)
unfolding gateway_mux Dict.lookup
gateway_file home path fs = file_answer fs (Dict.lookup path (gateway_mux home))

-- What happens once the daemon is up.
pub data Event : Type 0 where
  signal : Event
  api_failed : GoError → Event  -- `http.Serve` on the socket returns
  gateway_failed : GoError → Event  -- `http.Serve` on the gateway's address returns
  guest : Result GoError (Unit {0}) → Event  -- a turn of the loop that accepts connections

-- The `select` at the end of `runDaemon`, or none while nothing has ended it
unfoldable pub await : List Event → Option (Result GoError (Unit {0}))
await [] = none
await (signal ∷ es) = some (ok tt)
await (api_failed e ∷ es) = some (err (wrapped "api http.Serve failed" e))
await (gateway_failed e ∷ es) = some (err (wrapped "gateway http.Serve failed" e))
await (guest r ∷ es) = await es

module _ (net : VirtualNetwork) (home : FilePath) where
  -- `runDaemon` up to its `select`
  unfoldable pub bring_up : FilePath → Configuration → Fs (Unit {0})
  unfolding vsock_listener http_listener
  bring_up cwd config = do
    vsock_listener cwd home
    of_result (net.new config)
    http_listener home
    wrapping "could not bind tcp/80 on 192.168.127.1" (net.listen "tcp" gateway_address)

  -- `runDaemon`, where a daemon that nothing ends gives `none`
  unfoldable pub run_daemon : FilePath → Configuration → List Event → Fs (Option (Unit {0}))
  unfolding bring_up await
  run_daemon cwd config es = do bring_up cwd config; of_result (ended (await es))
    where
      ended : Option (Result GoError (Unit {0})) → Result GoError (Option (Unit {0}))
      ended none = ok none
      ended (some (ok u)) = ok (some u)
      ended (some (err e)) = err e

-- go-daemon: `Reborn` starts the daemon's process, and gives in it that there is no other.
pub data Reborn : Type 0 where
  parent_process child_process : Reborn

-- The calls of `daemon.Context`, and `Kill` of the process that `Search` finds
pub record DaemonContext : Type 0 where
  pub reborn : Fs Reborn
  pub release : Fs (Unit {0})
  pub search : Fs (Unit {0})
  pub kill : Fs (Unit {0})

module _ (net : VirtualNetwork) (home : FilePath) (ctx : DaemonContext) (pcap_file : String)
    (es : List Event) where
  -- `defer cntxt.Release()`, once the daemon has ended
  abbrev pub with_release :
      Result GoError (Option (Unit {0})) → World → Result GoError (Option (Unit {0})) × World
  with_release (ok none) w = (ok none, w)
  with_release (ok (some u)) w = (ok (some u), (ctx.release w).1)
  with_release (err e) w = (err e, (ctx.release w).1)

  -- What follows a rebirth. The daemon works in the machine's folder, where go-daemon has put it.
  unfoldable pub reborn_as : Reborn → Fs (Option (Unit {0}))
  unfolding run_daemon new_virtual_network_config
  reborn_as parent_process w = (ok (some tt), w)
  reborn_as child_process w =
      let r =
        run_daemon net home (machine_name ∷ machine_dir home) (new_virtual_network_config pcap_file)
          es w in
      with_release r.0 r.1

  -- `RunE` of the command, with its argument
  unfoldable pub daemon : String → Fs (Option (Unit {0}))
  unfolding reborn_as
  daemon action = do
    attempt (mkdir_all (machine_name ∷ machine_dir home))
    (if action == "start"
        then (do
          r ← attempt ctx.reborn
          which ← wrapping "unable to start daemon" r
          reborn_as which)
        else if action == "stop"
        then (do ctx.search; attempt ctx.kill; pure (some tt))
        else fail (message (action <> " is not a dameon action")))
