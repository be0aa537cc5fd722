-- ===== src/Lib.antt =====
-- A model of mactainer (mct), which runs a container host in a virtual machine and forwards its
-- ports. Paths are given from the repository's root.
--
-- The parts and how they interact:
--   * pkg/libmachine/persist keeps a folder for each machine under `machines`: config.json with the
--     machine's host record, and a marker file that says that the machine exists. The commands `run`
--     and `stop` of cmd/mct load and save through it, by the client of pkg/libmachine, which puts a
--     driver of the machine library into each host.
--   * pkg/libmachine/host is the host record: its JSON form, and `MigrateHost`, which checks the
--     version of a config.json and keeps the driver's part of it as raw bytes, with
--     pkg/drivers/none as the stand-in for the driver.
--   * pkg/bundle unpacks the binaries and the machine's files that are embedded in the program
--     cmd/mct-bundler, which the command `setup` downloads and starts as a plugin.
--   * The command `daemon` runs the virtual network of the machine. It serves the ignition file that
--     `run` writes by pkg/ignition, and hands the requests of the port proxies to the forwarder.
--   * The command `ssh` gives the machine's private key to ssh in a temporary file.
--   * cmd/mct-docker-proxy is the process that the container engine starts for a published port. It
--     listens on the port and forwards to the container; a TCP proxy also announces its port to the
--     forwarder of the virtual network's gateway and takes it back at its end.
--
-- The files (all source paths are below mct/):
--   * Base and its children: equality tests, results and actions with a state and an error,
--     association lists, `int`, `%d`, and lemmas on lists.
--   * Errors, Json: Go's error values, and JSON documents as encoding/json sees them.
--   * Fs: package os over a tree of files (Fs/Tree) in which every call may be refused or torn.
--     Fs/Laws says what a call leaves under any answer, Fs/Quiet what it does when it is granted,
--     Fs/Temp and Fs/Under are about temporary files and whole folders.
--   * Host: the types of pkg/libmachine/host; Host/None: pkg/drivers/none/driver.go; Host/Codec:
--     pkg/libmachine/host/migrate.go, with the decoding and encoding of the two structs; Host/Version
--     and Host/RoundTrip: what `MigrateHost` guarantees.
--   * Store: pkg/libmachine/persist/filestore.go, one definition for each method (`saveToFile` is
--     save_to_file, `Remove` is remove_machine); Store/Shelf: what the interface in
--     pkg/libmachine/persist/persist.go promises, a shelf of hosts by name, and the refinement;
--     Store/Save, Store/Works, Store/Loss, Store/RoundTrip and Store/Markers: the other theorems.
--   * Host/Action: the actions of pkg/libmachine/host/host.go, and Host/Settled: what they have seen.
--   * Client: pkg/libmachine/host.go and libmachine.go, the store together with the machine library;
--     Client/Loading: what it hands out. Client/Keys: pkg/libmachine/ssh/ssh.go, which makes the keys
--     that `new_host` and Command/Run are given, and Client/Pairing: that they belong together.
--   * Command: how a command of cmd/mct/cmd ends, and utils.go; Command/Stop and Command/Run: stop.go
--     and run.go; Command/Stopping and Command/Running: their theorems.
--   * Ignition: pkg/ignition/ignition.go, with the table of replacements of html/template, and
--     Ignition/Escaping: what becomes of a key in the template.
--   * Command/Config: the constants of config.go; Command/Driver: the driver that run.go sets up.
--   * Command/Main: main.go and the commands that the `init` functions add, with a process of mct as a
--     whole (`main`, `Execute`), and Command/Ending: what its status tells.
--   * Command/Root: root.go, with the making of the configuration file in config.go, and
--     Command/Initializing: when a command goes on.
--   * Command/Daemon: daemon.go, and Command/Serving: how it starts and what it serves.
--     Command/Lasting: what ends it. Command/Agreement: the addresses that the daemon, the machine,
--     ssh and the proxies share.
--   * Command/Ssh: ssh.go, and Command/Connecting: its theorems.
--   * Command/Setup: setup.go, with `UnbundlerRPC` of pkg/bundler/bundler_interface.go;
--     Command/Downloading, Command/Preparing and Command/Installing: its theorems. Bundle/Bundler: the
--     other side, cmd/mct-bundler/main.go. Bundle/Plugin: what both sides know of the plugin, with the
--     other types of pkg/bundler/bundler_interface.go.
--   * Bundle: pkg/bundle/bundle.go and version.go, `writeFile` being unpack_file; Bundle/Suffix and
--     Bundle/Unpacking: its theorems.
--   * Proxy/Addr, Proxy/Gateway: addresses, and cmd/mct-docker-proxy/mct_expose.go.
--   * Proxy/Relay: `clientLoop` of the TCP and the SCTP proxy, over an interface that says what the end
--     of a copy closes, and Proxy/Relay/Draining: what holds for every such interface.
--     Proxy/Relay/Server: `Run` and `Close` with all clients, and Proxy/Relay/Shutdown: that each
--     client is one of these loops, and that a proxy can be shut down. Proxy/Relay/Traffic: the bytes
--     of a connection, where `io.Copy` reads and writes in rounds of any size and can fail at any time;
--     Proxy/Relay/Passing, Proxy/Tcp/HalfClosing and Proxy/Sctp/Cutting: what becomes of them.
--   * Proxy/Tcp: cmd/mct-docker-proxy/tcp_proxy.go, with Proxy/Tcp/Exposure about what is
--     forwarded; Proxy/Tcp/Relay and Proxy/Tcp/Draining: its connections. Proxy/Sctp and
--     Proxy/Sctp/Closing: cmd/mct-docker-proxy/sctp_proxy.go.
--   * Proxy/Udp: cmd/mct-docker-proxy/udp_proxy.go. The state is the connection table with the
--     goroutines; what runs under the lock is one step, and the steps interleave freely. Proxy/Udp/Key
--     and Proxy/Udp/Unique: the keys of the table; Proxy/Udp/Write and Proxy/Udp/Delivery: the loops
--     that carry bytes; Proxy/Udp/Tracking and Proxy/Udp/Safety: the table against the goroutines;
--     Proxy/Udp/Sessions: the log of a run and the specification that it meets; Proxy/Udp/Bounds: the
--     sizes of a key's numbers. Proxy/Udp/Run: `Run` as a loop, where each turn is given what the
--     other goroutines did until then, Proxy/Udp/Forwarding: its turns as steps of the proxy, and
--     Proxy/Udp/Handling: the datagrams that it handles.
--   * Proxy/Main: the goroutines of cmd/mct-docker-proxy/main.go around a TCP proxy, with
--     Proxy/Main/Exit about the end of the process and Proxy/Main/Lifetime about all of it,
--     Proxy/Main/Dispatch: its flags and cmd/mct-docker-proxy/proxy.go, Proxy/Main/Start: `main` before
--     that, and Proxy/Main/Interface: the addresses of a proxy.
--   * Tests: runs, and the theorems at concrete data.
--
-- Bounds and fuel: no program loop runs on fuel. The reply loop and the write loops run over lists of
-- what the operating system reports, one entry for each call, and the theorems say which reports let
-- them end. `waitForMachineState` turns as often as the clock lets it, a number that the theorems
-- leave open. The decimal digits of a number are computed with as many rounds as the number. Numbers
-- of type `int` that come from JSON are checked against 64 bits; the keys of clients are numbers
-- below 2 ^ 64 because they are read from eight bytes.
--
-- Parameters: the JSON form of a driver of the machine library, `net.ParseIP`, `url.Parse`,
-- the calls that listen, and the gateway's forwarder, of which IsForwarder says that a request that was
-- answered by 200 was carried out; the machine library with its drivers (Client.Library); SHA-256,
-- decompression, YAML and the embedded files (Bundle.Tools); viper (Command.Root.Viper) and
-- cobra (Command.Main.Cobra); the key formats (Client.Keys.Crypto), of which Client.Pairing.IsFormat
-- says that ssh and sshd read what is written; the program ssh; GitHub and the HTTP client
-- (Command.Setup.Web), go-plugin (Command.Setup.Plugins), of which IsLaunch says that a program that is
-- not there cannot be started, and IsHost when a program that serves a plugin is reached; butane's
-- translation of the ignition file (Command.Run.Setting); gvisor-tap-vsock
-- (Command.Daemon.VirtualNetwork) and go-daemon (Command.Daemon.DaemonContext); and `crcerrors.Retry`,
-- of which IsRetry says that it succeeds only right after its function has.
--
-- Not modelled: log output, which no code reads, but for that of `Run` of the UDP proxy; permissions
-- of directories, on which no later call is made to depend; pkg/machine/config, whose types nothing uses.
pub mod Base
pub mod Errors
pub mod Json
pub mod Fs
pub mod Host
pub mod Store
pub mod Client
pub mod Bundle
pub mod Ignition
pub mod Command
pub mod Proxy
pub mod Tests
