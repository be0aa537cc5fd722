-- ===== src/Command/Setup.antt =====
-- cmd/mct/cmd/setup.go, with `UnbundlerRPC` of pkg/bundler/bundler_interface.go
use mactainer.Base.{
  ℕ, ◌+◌, String, Bool, true, false, not, ◌==◌, string_eq, if◌then◌else◌, Option, none, some, List,
  [], ◌∷◌, ◌++◌, length, take, drop, Result, ok, err, Action, pure, fail, of_result, attempt,
  defer_do, ◌>>=◌, ◌>>◌,
}
use mactainer.Errors.{GoError, message, is_not_exist}
use mactainer.Json.{Json, Content, json, bytes}
use mactainer.Fs.{FilePath, World, Fs, stat, open_create, update_file, close_file}
use mactainer.Bundle.Plugin.{HandshakeConfig, PluginMap, ServeConfig, ClientConfig, serve_call}
use mactainer.Command.{Failure, returns, exits, panics, failing}

-- `github.ReleaseAsset`
pub record ReleaseAsset : Type 0 where
  pub label : String
  pub name : String
  pub browser_download_url : String

-- The body of a response: the pieces that come in, and how it ends. The code does not read the
-- status.
pub record Response : Type 0 where
  pub pieces : List (List ℕ)
  pub ending : Result GoError (Unit {0})

-- The web: the assets of the latest release, which texts are URLs, and what a request gets.
pub record Web : Type 0 where
  pub latest_release : Result GoError (List ReleaseAsset)
  pub is_url : String → Bool
  pub get : String → Result GoError Response

-- go-plugin: what comes of starting a program and of asking it for an unbundler, and whether the
-- calls to it come through.
pub record Plugins : Type 0 where
  pub start : ClientConfig → Fs (Unit {0})
  pub dispense : ClientConfig → String → Result GoError (Unit {0})
  pub connection : Result GoError (Unit {0})

-- `for _, asset := range release.Assets`
unfoldable pub pick_bundle : List ReleaseAsset → Result GoError ReleaseAsset
pick_bundle [] = err (message "unable to get bundle from latest release")
pick_bundle (a ∷ rest) = let later = pick_bundle rest in if a.label == "bundle" then ok a else later

abbrev pick_of : Result GoError (List ReleaseAsset) → Result GoError ReleaseAsset
pick_of (err e) = err e
pick_of (ok assets) = pick_bundle assets

-- `getLatestBundle(ctx)`
unfoldable pub get_latest_bundle : Web → Result GoError ReleaseAsset
unfolding pick_bundle
get_latest_bundle web = pick_of web.latest_release

-- `bundleExists(bundle)`
unfoldable pub bundle_exists : FilePath → Fs Bool
bundle_exists p = do found ← attempt (stat p); pure (not (is_not_exist found))

abbrev pub text_of : (Json → List ℕ) → Content → List ℕ
text_of print (json j) = print j
text_of print (bytes bs) = bs

module _ (print : Json → List ℕ) where
  -- The bytes of an open file after `piece` was written at `at`: the file is not truncated.
  abbrev pub overlaid : ℕ → List ℕ → Content → Content
  overlaid at piece old =
      let text = text_of print old in bytes (take at text ++ piece ++ drop (at + length piece) text)

  -- `io.Copy` from a body into the file, from the position `at` on
  unfoldable pub copy_body :
      FilePath → ℕ → List (List ℕ) → Result GoError (Unit {0}) → Fs (Unit {0})
  copy_body dest at [] ending = of_result ending
  copy_body dest at (piece ∷ rest) ending = do
    update_file dest (overlaid at piece)
    copy_body dest (at + length piece) rest ending

  unfoldable pub save_body : FilePath → Result GoError Response → Fs (Unit {0})
  unfolding copy_body
  save_body dest (err e) = fail e
  save_body dest (ok r) = do
    open_create dest 0o755
    defer_do close_file (copy_body dest 0 r.pieces r.ending)

  -- `downloadBundle(url, dest)`: the error of `http.NewRequest` is dropped, and then there is no
  -- request to be done.
  unfoldable pub download_bundle : Web → String → FilePath → Action World Failure (Unit {0})
  unfolding save_body
  download_bundle web url dest w =
      let r = save_body dest (web.get url) w in
      if web.is_url url then (failing returns r.0, r.1) else (err panics, w)

-- The files, and whether the plugin's process is at work.
pub record SetupState : Type 0 where
  pub world : World
  pub plugin_runs : Bool

abbrev pub Setup : Type 0 → Type 0
Setup A = Action SetupState Failure A

abbrev pub on_world : {A : Type 0} → Action World Failure A → Setup A
on_world f s = ((f s.world).0, record s { world = (f s.world).1 })

abbrev pub or_fail : {A : Type 0} → (GoError → Failure) → Fs A → Setup A
or_fail how f = on_world (λ w. (failing how (f w).0, (f w).1))

-- A returned error that is dropped.
abbrev dropped : Result Failure (Unit {0}) → Result Failure (Unit {0})
dropped (err (returns e)) = ok tt
dropped r = r

abbrev pub drop_error : Setup (Unit {0}) → Setup (Unit {0})
drop_error m s = (dropped (m s).0, (m s).1)

abbrev pub after_plugin :
    {A : Type 0} → Result Failure A → SetupState → Result Failure A × SetupState
after_plugin (err (exits e)) s = (err (exits e), s)
after_plugin r s = (r, record s { plugin_runs = false })

-- `defer client.Kill()`, which the end of the process skips
abbrev pub with_plugin : {A : Type 0} → Setup A → Setup A
with_plugin body s = after_plugin (body s).0 (body s).1

abbrev pub running : Setup (Unit {0})
running s = (ok tt, record s { plugin_runs = true })

-- `handshakeConfig` and `pluginMap`
abbrev pub handshake_config : HandshakeConfig
handshake_config = record {
  protocol_version = 1;
  magic_cookie_key = "BASIC_PLUGIN";
  magic_cookie_value = "mct-unbundler";
}

abbrev pub plugin_map : PluginMap
plugin_map = ("unbundler", record { impl = none }) ∷ []

abbrev pub plugin_program : FilePath → FilePath
plugin_program home = "mct-bundle-v1.0.0" ∷ "bundles" ∷ home

unfoldable pub client_config : FilePath → ClientConfig
client_config home = record {
  handshake_config = handshake_config;
  plugins = plugin_map;
  cmd = plugin_program home;
}

-- `served` is what the program that is started serves.
module _ (print : Json → List ℕ) (plugins : Plugins) (served : ServeConfig) (home : FilePath) where
  -- `UnbundlerRPC.Unbundle(path)`: a call that does not come through, or that the other side does not
  -- survive, is a panic.
  abbrev pub call_unbundle : Result GoError (Unit {0}) → Option (Fs String) → Setup String
  call_unbundle (err e) answer = fail panics
  call_unbundle (ok _) none = fail panics
  call_unbundle (ok _) (some answer) = or_fail returns answer

  unfoldable pub fetch_missing : Web → ReleaseAsset → Bool → Setup (Unit {0})
  unfolding download_bundle
  fetch_missing web b true = pure tt
  fetch_missing web b false =
      drop_error
        (on_world (download_bundle print web b.browser_download_url (b.name ∷ "bundles" ∷ home)))

  unfoldable pub run_plugin : Setup String
  unfolding client_config serve_call
  run_plugin = with_plugin (do
    or_fail exits (plugins.start (client_config home))
    running
    or_fail exits (of_result (plugins.dispense (client_config home) "unbundler"))
    call_unbundle plugins.connection (serve_call served "unbundler" home))

  -- `RunE` of the command, with what is printed behind "Setup done: ". The name of an asset is one
  -- component of a path.
  unfoldable pub setup : Web → Setup String
  unfolding get_latest_bundle bundle_exists fetch_missing run_plugin
  setup web = do
    b ← or_fail exits (of_result (get_latest_bundle web))
    there ← or_fail exits (bundle_exists (b.name ∷ "bundles" ∷ home))
    fetch_missing web b there
    run_plugin
