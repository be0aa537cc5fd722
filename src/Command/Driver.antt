-- ===== src/Command/Driver.antt =====
-- The driver's configuration in cmd/mct/cmd/run.go.
use mactainer.Base.{ℕ, String, ◌<>◌, Bool, false, List, [], ◌∷◌}
use mactainer.Fs.{FilePath, path_text}
use mactainer.Command.Config.{mct_home, machine_dir, machine_name, tap_socket}

-- The fields of the hyperkit driver that the command sets. `store_path` is given to `NewDriver`, too.
pub record HyperkitDriver : Type 0 where
  pub machine_name : String
  pub hyper_kit_path : String
  pub qcow_tool_path : String
  pub uuid : String
  pub cmdline : String
  pub vmlinuz_path : String
  pub initrd_path : String
  pub disk_capacity : ℕ
  pub image_source_path : String
  pub store_path : String
  pub image_format : String
  pub vm_net : Bool
  pub vpn_kit_sock : String
  pub vpn_kit_uuid : String
  pub vsock_ports : List String

-- `tapSocketPath()`
abbrev pub tap_socket_path : FilePath → FilePath
tap_socket_path home = tap_socket ∷ machine_name ∷ machine_dir home

abbrev bundled : FilePath → String → String
bundled home name = path_text (name ∷ "v1.0.0" ∷ "bundles" ∷ mct_home home)

unfoldable pub machine_driver : FilePath → HyperkitDriver
machine_driver home = record {
  machine_name = "mct";
  hyper_kit_path = path_text ("hyperkit" ∷ "bin" ∷ mct_home home);
  qcow_tool_path = path_text ("qcow-tool" ∷ "bin" ∷ mct_home home);
  uuid = "c3d68012-0208-11ea-9fd7-f2189899ab08";
  cmdline =
      "BOOT_IMAGE=(hd0,gpt3)/ostree/fedora-coreos-5dce8a8faac406dc3baf6e1e6ece5946780cc3bd5de6fb78075526ec183a93f6/vmlinuz-5.13.16-200.fc34.x86_64 "
      <> "mitigations=auto,nosmt console=tty0 console=ttyS0,115200n8 "
      <> "ignition.platform.id=qemu " <> "ignition.config.url=http://192.168.127.1:80/ignition "
      <> "ostree=/ostree/boot.1/fedora-coreos/5dce8a8faac406dc3baf6e1e6ece5946780cc3bd5de6fb78075526ec183a93f6/0 "
      <> "root=LABEL=root rw rootflags=prjquota";
  vmlinuz_path = bundled home "kernel";
  initrd_path = bundled home "initrd.img";
  disk_capacity = 10737418240;
  image_source_path = bundled home "image.qcow2";
  store_path = path_text (mct_home home);
  image_format = "qcow2";
  vm_net = false;
  vpn_kit_sock = path_text (tap_socket_path home);
  vpn_kit_uuid = "c3d68012-0208-11ea-9fd7-f2189899ab08";
  vsock_ports = "2376" ∷ [];
}

-- The driver with the command line of the first boot, which asks for ignition
unfoldable pub first_boot : FilePath → HyperkitDriver
unfolding machine_driver
first_boot home = record (machine_driver home) {
  cmdline =
      "BOOT_IMAGE=(hd0,gpt3)/ostree/fedora-coreos-5dce8a8faac406dc3baf6e1e6ece5946780cc3bd5de6fb78075526ec183a93f6/vmlinuz-5.13.16-200.fc34.x86_64 "
      <> "mitigations=auto,nosmt console=tty0 console=ttyS0,115200n8 "
      <> "ignition.platform.id=qemu ignition.firstboot "
      <> "ignition.config.url=http://192.168.127.1:80/ignition "
      <> "ostree=/ostree/boot.1/fedora-coreos/5dce8a8faac406dc3baf6e1e6ece5946780cc3bd5de6fb78075526ec183a93f6/0";
}
