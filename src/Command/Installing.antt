-- ===== src/Command/Installing.antt =====
-- What the command setup says in the end, once it has reached the program that unpacks the files.
use mactainer.Base.{
  ℕ, String, ◌<>◌, ◌≡◌, refl, ◌≢◌, inl, inr, false, List, ◌∷◌, none, Result, ok, err, Result-cases,
  string_eq,
}
use mactainer.Base.Dict
use mactainer.Errors.{GoError}
use mactainer.Json.{Json, Content}
use mactainer.Fs.{FilePath, Node, Files, World, resolve, stat}
use mactainer.Fs.Quiet.{quiet}
use mactainer.Bundle.{Tools, BundleVersion, unbundle_bin}
use mactainer.Bundle.Plugin.{Unbundler, ServeConfig, ClientConfig, serve_call}
use mactainer.Bundle.Bundler.{unbundle, serve_config}
use mactainer.Command.Setup.{
  ReleaseAsset, Web, Plugins, get_latest_bundle, plugin_program, client_config, fetch_missing,
  run_plugin, setup,
}

-- What go-plugin promises about a program that serves `served`: where every call works, it is
-- started and reached if both sides ask for the same handshake, and it gives out a plugin that both
-- sides know by its name.
pub record IsHost (plugins : Plugins) (program : FilePath) (served : ServeConfig) : Type 0 where
  pub connects :
      (c : ClientConfig) (n : Node) (fs : Files) (ts : List String)
      → c.cmd ≡ program
      → resolve fs program ≡ ok n
      → c.handshake_config ≡ served.handshake_config
      → plugins.start c (quiet fs ts) ≡ (ok tt, quiet fs ts)
  pub dispenses :
      (c : ClientConfig) (name : String)
      → Dict.lookup name c.plugins ≢ none
      → Dict.lookup name served.plugins ≢ none
      → plugins.dispense c name ≡ ok tt

module _ (describe : GoError → String) (t : Tools) (build : String)
    (parse_yaml : Content → Result GoError BundleVersion) (bins machines : List (String × String))
    (home : FilePath) where
  abbrev pub bundler : Unbundler
  bundler = unbundle describe t build parse_yaml bins machines

  -- `Unbundle` always answers, and with the error if the binaries could not be unpacked.
  unbundle_answers :
      (w : World)
      → (text : String) × ((bundler home w).0 ≡ ok text)
        × ((e : GoError)
            → (unbundle_bin t bins home w).0 ≡ err e
            → text ≡ "error unbundling binaries: " <> describe e)
  unfolding unbundle
  unbundle_answers w = elim (Result-cases (unbundle_bin t bins home w).0) [
    | inl (_, went) ↦ rw went (_, refl, λ e h. cc)
    | inr (e, failed) ↦ rw failed (_, refl, λ e h. cc)
  ]

  -- Where every call works, the bundle and its program are there and the calls to it come through,
  -- the command reaches the `Unbundle` of cmd/mct-bundler, by what go-plugin promises, and succeeds
  -- with what that answers, whatever it is, also the error of a failed unpacking; the plugin's
  -- process has ended, and the files are as `Unbundle` left them.
  pub setup-unbundle :
      (print : Json → List ℕ) (plugins : Plugins) (web : Web) (b : ReleaseAsset) (fs : Files)
      (ts : List String) (n m : Node)
      → get_latest_bundle web ≡ ok b
      → resolve fs (b.name ∷ "bundles" ∷ home) ≡ ok n
      → resolve fs (plugin_program home) ≡ ok m
      → IsHost plugins (plugin_program home) (serve_config bundler)
      → plugins.connection ≡ ok tt
      → (text : String) × ((bundler home (quiet fs ts)).0 ≡ ok text)
        × ((e : GoError)
            → (unbundle_bin t bins home (quiet fs ts)).0 ≡ err e
            → text ≡ "error unbundling binaries: " <> describe e)
        × (setup print plugins
              (serve_config bundler)
              home
              web
              (record { world = quiet fs ts; plugin_runs = false })
            ≡ (ok text, record { world = (bundler home (quiet fs ts)).1; plugin_runs = false }))
  unfolding setup fetch_missing run_plugin stat serve_call serve_config client_config Dict.lookup
      string_eq
  setup-unbundle print plugins web b fs ts n m latest there program host reached =
      let (text, answer, failed) = unbundle_answers (quiet fs ts) in
      let started = host.connects (client_config home) m fs ts refl program refl in
      let got = host.dispenses (client_config home) "unbundler" (λ h. cc) (λ h. cc) in
      (text, answer, failed, rw (latest, there, started, got, reached, answer) refl)
