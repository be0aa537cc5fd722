-- ===== src/Tests/Daemons.antt =====
-- The daemon, and what the commands say of it.
use mathlib.Core.Bool.{cond}
use mactainer.Base.{
  List, ◌↔◌, String, ◌≡◌, refl, none, some, [], ◌∷◌, Result, ok, err, string_eq, list_eq,
  if◌then◌else◌, ◌==◌, pure,
}
use mactainer.Base.Dict
use mactainer.Errors.{GoError, message, wrapped}
use mactainer.Json.{Content, empty}
use mactainer.Fs.{FilePath, dir, socket, Files, resolve, make_dirs, mkdir_all, remove, listen_unix}
use mactainer.Fs.Quiet.{quiet}
use mactainer.Command.Config.{machine_dir, machine_name}
use mactainer.Command.Driver.{machine_driver, first_boot, tap_socket_path}
use mactainer.Command.Daemon.{
  VirtualNetwork, DaemonContext, Event, child_process, reborn_as, signal, guest, api_failed,
  new_virtual_network_config, http_socket_path, await, bring_up, daemon,
}
use mactainer.Command.Lasting.{IsSignalled, IsQuiet, goes_on, reborn_as_iff}
use mactainer.Command.Agreement.{IsServed, IsIgnited, IsAddressed, addresses_agree}
use mactainer.Tests.Proxies.{forwarder, env}
use mactainer.Command.Serving.{bring_up_works}

addresses_agree_example :
    IsServed forwarder env [] (new_virtual_network_config "") "expose"
    × IsServed forwarder env [] (new_virtual_network_config "") "unexpose"
    × IsIgnited [] (first_boot [])
    × IsIgnited [] (machine_driver [])
    × IsAddressed forwarder env [] (new_virtual_network_config "") (first_boot [])
    × IsAddressed forwarder env [] (new_virtual_network_config "") (machine_driver [])
addresses_agree_example = addresses_agree forwarder env [] "" refl

awaited :
    (await (guest (err (message "no")) ∷ []) ≡ none)
    × (await (guest (ok tt) ∷ signal ∷ []) ≡ some (ok tt))
    × (await (api_failed (message "no") ∷ signal ∷ [])
        ≡ some (err (wrapped "api http.Serve failed" (message "no"))))
unfolding await
awaited = (refl, refl, refl)

abbrev pub network : VirtualNetwork
network = record { new = λ c. ok tt; listen = λ n a. ok tt }

abbrev pub context : DaemonContext
context = record {
  reborn = pure child_process;
  release = pure tt;
  search = pure tt;
  kill = pure tt;
}

abbrev folder : FilePath
folder = machine_name ∷ machine_dir []

abbrev housed : Files
housed =
    (".mct" ∷ [], dir)
    ∷ ("machines" ∷ ".mct" ∷ [], dir)
    ∷ (folder, dir)
    ∷ (tap_socket_path [], socket)
    ∷ []

unknown :
    (daemon network [] context "" [] "restart" (quiet housed [])).0
    ≡ err (message "restart is not a dameon action")
unfolding daemon mkdir_all make_dirs string_eq list_eq
unknown = refl

started : (daemon network [] context "" (signal ∷ []) "start" (quiet [] [])).0 ≡ ok (some tt)
unfolding daemon mkdir_all make_dirs remove listen_unix string_eq list_eq resolve Dict.lookup
    Dict.insert
started = refl

above : resolve housed folder ≡ ok dir
unfolding resolve string_eq list_eq
above = refl

bring_up_works_example :
    (fs' : Files) × (bring_up network [] folder (new_virtual_network_config "") (quiet housed [])
      ≡ (ok tt, quiet fs' []))
    × ((q : FilePath)
        → Dict.lookup q fs' ≡ (
            if q == http_socket_path []
            then some socket
            else if q == tap_socket_path []
            then some socket
            else Dict.lookup q housed))
unfolding Dict.lookup string_eq list_eq
bring_up_works_example =
    bring_up_works network [] (new_virtual_network_config "") housed [] above tt tt refl refl

abbrev translate : String → Result GoError Content
translate text = ok empty

abbrev seen : List Event
seen = guest (err (message "no")) ∷ guest (ok tt) ∷ signal ∷ []

reborn_as_iff_example :
    let up =
      bring_up network []
        (machine_name ∷ machine_dir [])
        (new_virtual_network_config "")
        (quiet housed []) in
    let r = reborn_as network [] context "" seen child_process (quiet housed []) in
    ((r.0 ≡ ok (some tt)) ↔ ((up.0 ≡ ok tt) × IsSignalled seen))
    × ((r.0 ≡ ok none) ↔ ((up.0 ≡ ok tt) × IsQuiet seen))
    × (r.1 ≡ cond (goes_on r.0) up.1 (context.release up.1).1)
reborn_as_iff_example = reborn_as_iff network [] context "" seen (quiet housed [])
