-- ===== src/Command/Agreement.antt =====
-- What cmd/mct and cmd/mct-docker-proxy take for granted of each other: names, addresses and ports.
use mactainer.Base.{String, ◌<>◌, ◌≡◌, refl, some, List, [], ◌∷◌, ◌++◌, string_eq}
use mactainer.Base.Decimal.{decimal}
use mactainer.Base.Dict
use mactainer.Base.Int.{ℤ, pos}
use mactainer.Fs.{FilePath}
use mactainer.Proxy.Gateway.{Forwarder, get_api_endpoint}
use mactainer.Proxy.Tcp.{Environment, service_url, exposure}
use mactainer.Command.Config.{ssh_port}
use mactainer.Command.Driver.{HyperkitDriver, machine_driver, first_boot}
use mactainer.Command.Ssh.{ssh_args}
use mactainer.Command.Daemon.{
  Zone, Configuration, new_virtual_network_config, serve_file, network_mux, gateway_mux,
  gateway_address,
}

abbrev pub Holds : String → String → Type 0
Holds text part = (before : String) × (after : String) × (text ≡ before <> part <> after)

-- A machine that is started with this driver asks for its ignition file where the daemon serves one.
abbrev pub IsIgnited : FilePath → HyperkitDriver → Type 0
IsIgnited home d =
    (path : String) × (p : FilePath) × Holds d.cmdline
      ("ignition.config.url=http://" <> gateway_address <> path <> " ")
    × (Dict.lookup path (gateway_mux home) ≡ some (serve_file p))

module _ (F : Forwarder) (env : Environment) (home : FilePath) (config : Configuration) where
  -- A proxy asks for the service at a name that the network knows by a record of one of its zones,
  -- at the address and the port where the daemon listens, and by a path that the daemon hands to
  -- the network.
  pub record IsServed (service : String) : Type 0 where
    pub host : String
    pub port : String
    pub path : String
    pub asked : service_url F env service ≡ "http://" <> host <> ":" <> port <> path
    pub zone : Zone
    pub name : String
    pub ip : String
    pub known : (before : List Zone) × (after : List Zone) × (config.dns ≡ before ++ zone ∷ after)
    pub recorded : Dict.lookup name zone.records ≡ some ip
    pub spelled : host <> "." ≡ name <> "." <> zone.name
    pub listened : ip <> ":" <> port ≡ gateway_address
    pub handled : Dict.lookup path (gateway_mux home) ≡ some network_mux

  -- A machine with this driver has the lease of one address, to which the proxies and the port of
  -- the command ssh are forwarded.
  pub record IsAddressed (d : HyperkitDriver) : Type 0 where
    pub mac : String
    pub ip : String
    pub attached : Dict.lookup d.vpn_kit_uuid config.vpn_kit_uuid_mac_addresses ≡ some mac
    pub leased : Dict.lookup ip config.dhcp_static_leases ≡ some mac
    pub proxied : (port : ℤ) → (exposure F port).remote ≡ (ip <> ":") <> decimal port
    pub by_ssh :
        (key : FilePath)
        → (port : String) × (before : List String) × (after : List String) × (ssh_args key
            ≡ before ++ "-p" ∷ port ∷ after)
          × (Dict.lookup (":" <> port) config.forwards ≡ some (ip <> ":22"))

module _ (F : Forwarder) (env : Environment) (home : FilePath) (pcap_file : String) where
  abbrev config : Configuration
  config = new_virtual_network_config pcap_file

  IsServed-service :
      (service : String)
      → env.api_variable ≡ ""
      → Dict.lookup ("/services/forwarder/" <> service) (gateway_mux home) ≡ some network_mux
      → IsServed F env home config service
  unfolding new_virtual_network_config get_api_endpoint string_eq Dict.lookup
  IsServed-service service unset handled = record {
    host = "gateway.mct.mactainer";
    port = "80";
    path = "/services/forwarder/" <> service;
    asked = rw unset refl;
    zone = _;
    name = "gateway";
    ip = "192.168.127.1";
    known = (_ ∷ [], [], refl);
    recorded = refl;
    spelled = refl;
    listened = refl;
    handled = handled;
  }

  IsAddressed-driver :
      (d : HyperkitDriver)
      → d.vpn_kit_uuid ≡ "c3d68012-0208-11ea-9fd7-f2189899ab08"
      → IsAddressed F env home config d
  unfolding new_virtual_network_config string_eq Dict.lookup ssh_args decimal
  IsAddressed-driver d uuid = record {
    mac = "5a:94:ef:e4:0c:ee";
    ip = "192.168.127.2";
    attached = rw uuid refl;
    leased = refl;
    proxied = λ port. refl;
    by_ssh = λ key. (decimal (pos ssh_port), _ ∷ _ ∷ [], _, refl, refl);
  }

  machine_driver-IsIgnited : IsIgnited home (machine_driver home)
  unfolding machine_driver gateway_mux Dict.insert Dict.lookup string_eq
  machine_driver-IsIgnited = (
    "/ignition",
    _,
    (
      "BOOT_IMAGE=(hd0,gpt3)/ostree/fedora-coreos-5dce8a8faac406dc3baf6e1e6ece5946780cc3bd5de6fb78075526ec183a93f6/vmlinuz-5.13.16-200.fc34.x86_64 "
          <> "mitigations=auto,nosmt console=tty0 console=ttyS0,115200n8 ignition.platform.id=qemu ",
      "ostree=/ostree/boot.1/fedora-coreos/5dce8a8faac406dc3baf6e1e6ece5946780cc3bd5de6fb78075526ec183a93f6/0 root=LABEL=root rw rootflags=prjquota",
      refl,
    ),
    refl,
  )

  first_boot-IsIgnited : IsIgnited home (first_boot home)
  unfolding first_boot gateway_mux Dict.insert Dict.lookup string_eq
  first_boot-IsIgnited = (
    "/ignition",
    _,
    (
      "BOOT_IMAGE=(hd0,gpt3)/ostree/fedora-coreos-5dce8a8faac406dc3baf6e1e6ece5946780cc3bd5de6fb78075526ec183a93f6/vmlinuz-5.13.16-200.fc34.x86_64 "
          <> "mitigations=auto,nosmt console=tty0 console=ttyS0,115200n8 ignition.platform.id=qemu "
          <> "ignition.firstboot ",
      "ostree=/ostree/boot.1/fedora-coreos/5dce8a8faac406dc3baf6e1e6ece5946780cc3bd5de6fb78075526ec183a93f6/0",
      refl,
    ),
    refl,
  )

  -- Where PROXY_API_ADDR is not set, what the parts of the program take for granted of each other
  -- is so: a proxy asks the forwarder at a name of the daemon's network and at the address, the
  -- port and the path that the daemon serves it at; a machine asks for its ignition file, at its
  -- first start and later, where the daemon serves one; and the network leases the machine the one
  -- address to which the proxies and the port of the command ssh are forwarded.
  pub addresses_agree :
      env.api_variable ≡ ""
      → IsServed F env home config "expose"
        × IsServed F env home config "unexpose"
        × IsIgnited home (first_boot home)
        × IsIgnited home (machine_driver home)
        × IsAddressed F env home config (first_boot home)
        × IsAddressed F env home config (machine_driver home)
  unfolding gateway_mux Dict.insert Dict.lookup string_eq first_boot machine_driver
  addresses_agree unset = (
    IsServed-service "expose" unset refl,
    IsServed-service "unexpose" unset refl,
    first_boot-IsIgnited,
    machine_driver-IsIgnited,
    IsAddressed-driver _ refl,
    IsAddressed-driver _ refl,
  )
