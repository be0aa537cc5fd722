-- ===== src/Bundle/Bundler.antt =====
-- The program that `setup` starts: cmd/mct-bundler/main.go.
use mactainer.Base.{String, ◌<>◌, some, List, [], ◌∷◌, Result, ok, err, pure, attempt, ◌>>=◌}
use mactainer.Errors.{GoError}
use mactainer.Json.{Content}
use mactainer.Fs.{FilePath, path_text, Fs}
use mactainer.Bundle.Plugin.{Unbundler, HandshakeConfig, ServeConfig}
use mactainer.Bundle.{Tools, BundleVersion, unbundle_bin, unbundle_machine}

-- `err.Error()` is `describe`.
module _ (describe : GoError → String) (t : Tools) (build : String)
    (parse_yaml : Content → Result GoError BundleVersion)
    (bins machines : List (String × String)) where
  abbrev pub machine_report : FilePath → Result GoError (Unit {0}) → String
  machine_report path (err e) = "error unbundling machine: " <> describe e
  machine_report path (ok _) = "installed at: " <> path_text path <> "/bundles/" <> build

  abbrev pub after_bin : FilePath → Result GoError (Unit {0}) → Fs String
  after_bin path (err e) = pure ("error unbundling binaries: " <> describe e)
  after_bin path (ok _) = do
    unbundled ← attempt (unbundle_machine t build parse_yaml machines path)
    pure (machine_report path unbundled)

  -- `MCTUnbundler.Unbundle(path)`
  unfoldable pub unbundle : FilePath → Fs String
  unbundle path = do unbundled ← attempt (unbundle_bin t bins path); after_bin path unbundled

abbrev pub handshake_config : HandshakeConfig
handshake_config = record {
  protocol_version = 1;
  magic_cookie_key = "BASIC_PLUGIN";
  magic_cookie_value = "mct-unbundler";
}

-- `main()`, which serves this for good
unfoldable pub serve_config : Unbundler → ServeConfig
serve_config unbundler = record {
  handshake_config = handshake_config;
  plugins = ("unbundler", record { impl = some unbundler }) ∷ [];
}
