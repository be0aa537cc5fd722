-- ===== src/Command/Config.antt =====
-- cmd/mct/cmd/config.go: where the commands find things. A path in `home` is the home directory.
use mactainer.Base.{ℕ, String, ◌∷◌}
use mactainer.Fs.{FilePath}

abbrev pub ssh_port : ℕ
ssh_port = 2022

abbrev pub tap_socket : String
tap_socket = "tap.sock"

abbrev pub http_socket : String
http_socket = "http.sock"

abbrev pub machine_name : String
machine_name = "mct"

-- `defaultMCTHome()`, where the home directory is known
abbrev pub mct_home : FilePath → FilePath
mct_home home = ".mct" ∷ home

abbrev pub bin_dir : FilePath → FilePath
bin_dir home = "bin" ∷ mct_home home

-- `machineDir` once the flags are declared: `init` of setup.go gives the variable the default of the
-- flag --directory, in the place of the value in config.go.
abbrev pub machine_dir : FilePath → FilePath
machine_dir home = "machines" ∷ ".mct" ∷ home
