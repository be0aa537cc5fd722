-- ===== src/Tests/Setups.antt =====
-- The command setup and what it downloads.
use mathlib.Core.List.{flatten}
use mactainer.Base.{
  ℕ, String, ◌<>◌, ◌≡◌, ◌↔◌, ◌≢◌, inl, inr, refl, Bool, true, false, ◌&&◌, nat_eq, Option, none,
  some, fail, Option-cases, List, [], ◌∷◌, Result, ok, err, pure, string_eq, list_eq, if◌then◌else◌,
  ◌==◌,
}
use mactainer.Base.Dict
use mactainer.Errors.{GoError, errno, eio, enoent, message}
use mactainer.Json.{Json, Content, bytes, empty}
use mactainer.Fs.{FilePath, World, Node, dir, file, Files, Fs, resolve, mkdir_all, make_dirs}
use mactainer.Fs.Quiet.{quiet}
use mactainer.Bundle.{Tools, BundleVersion, binaries, machine, unbundle_bin}
use mactainer.Bundle.Plugin.{UnbundlerPlugin, HandshakeConfig}
use mactainer.Bundle.Bundler.{unbundle, serve_config}
use mactainer.Ignition.{ignition_head, ignition_tail, html_escape, replacement, ignition_text}
use mactainer.Ignition.Escaping.{AllPlain, ignition_text-AllPlain}
use mactainer.Command.{returns}
use mactainer.Command.Setup.{
  ReleaseAsset, Response, Web, Plugins, get_latest_bundle, download_bundle, plugin_program,
  SetupState, setup,
}
use mactainer.Command.Downloading.{download_bundle_leaves}
use mactainer.Command.Preparing.{IsLaunch, HasFailed, setup-HasFailed}
use mactainer.Command.Installing.{IsHost, setup-unbundle}

abbrev pub printed : Json → List ℕ
printed j = []

abbrev pub notes : ReleaseAsset
notes = record { label = "notes"; name = "n"; browser_download_url = "u" }

abbrev pub asset : ReleaseAsset
asset = record { label = "bundle"; name = "b"; browser_download_url = "v" }

-- A body that breaks off behind its first piece
abbrev pub broken : Response
broken = record { pieces = (1 ∷ 2 ∷ []) ∷ []; ending = err (errno eio) }

abbrev pub web : Web
web = record { latest_release = ok (notes ∷ asset ∷ []); is_url = λ u. true; get = λ u. ok broken }

latest : get_latest_bundle web ≡ ok asset
unfolding get_latest_bundle string_eq
latest = refl

-- A program of one handshake, which serves whatever a client may ask for
abbrev same_handshake : HandshakeConfig → Bool
same_handshake h =
    h.protocol_version == 1
    && h.magic_cookie_key == "BASIC_PLUGIN"
    && h.magic_cookie_value == "mct-unbundler"

abbrev pub start_found : Result GoError Node → Fs (Unit {0})
start_found (ok n) w = (ok tt, w)
start_found (err e) w = (err e, w)

abbrev start_agreed : Bool → Result GoError Node → Fs (Unit {0})
start_agreed true found = start_found found
start_agreed false found = fail (message "handshake")

abbrev known : Option UnbundlerPlugin → Result GoError (Unit {0})
known none = err (message "unknown plugin type")
known (some p) = ok tt

abbrev pub plugins : Plugins
plugins = record {
  start = λ c w. start_agreed (same_handshake c.handshake_config) (resolve w.files c.cmd) w;
  dispense = λ c name. known (Dict.lookup name c.plugins);
  connection = ok tt;
}

plugins-IsLaunch : IsLaunch plugins.start
plugins-IsLaunch w c missing = by_handshake (same_handshake c.handshake_config)
  where
    by_handshake :
        (b : Bool)
        → ((start_agreed b (resolve w.files c.cmd) w).1.files ≡ w.files)
          × ((start_agreed b (resolve w.files c.cmd) w).0 ≢ ok tt)
    by_handshake true = (rw missing refl, rw missing (λ h. cc))
    by_handshake false = (refl, λ h. cc)

abbrev bundles : FilePath
bundles = "bundles" ∷ []

abbrev prepared : Files
prepared = (bundles, dir) ∷ []

abbrev stocked : Files
stocked =
    (bundles, dir)
    ∷ (("mct-bundle-v1.0.0" ∷ bundles), file 0o755 empty)
    ∷ (("b" ∷ bundles), file 0o755 (bytes (1 ∷ 2 ∷ [])))
    ∷ []

there : resolve prepared bundles ≡ ok dir
unfolding resolve string_eq list_eq
there = refl

download_bundle_leaves_example :
    (fs' : Files) × (download_bundle printed web "v" ("b" ∷ bundles) (quiet prepared [])
      ≡ (err (returns (errno eio)), quiet fs' []))
    × ((q : FilePath)
        → Dict.lookup q fs' ≡ (
            if q == ("b" ∷ bundles)
            then some (file 0o755 (bytes (1 ∷ 2 ∷ [])))
            else Dict.lookup q prepared))
unfolding flatten Dict.lookup string_eq list_eq
download_bundle_leaves_example =
    download_bundle_leaves printed web "b" bundles prepared [] "v" broken there refl refl refl

abbrev tools : Tools
tools = record {
  sha256 = λ c. "";
  decompress_file = λ from to. pure tt;
  embedded = λ name. err (errno enoent);
}

abbrev version_of : Content → Result GoError BundleVersion
version_of c = err (message "no")

abbrev describe : GoError → String
describe e = "?"

abbrev pub unbundler : FilePath → Fs String
unbundler = unbundle describe tools "v1.0.0" version_of binaries machine

abbrev state_of : Files → SetupState
state_of fs = record { world = quiet fs []; plugin_runs = false }

found_bundle : resolve stocked ("b" ∷ bundles) ≡ ok (file 0o755 (bytes (1 ∷ 2 ∷ [])))
unfolding resolve string_eq list_eq
found_bundle = refl

setup-HasFailed_example :
    HasFailed [] (setup printed plugins (serve_config unbundler) [] web (state_of []))
unfolding resolve Dict.lookup
setup-HasFailed_example =
    setup-HasFailed printed plugins (serve_config unbundler) [] plugins-IsLaunch web (state_of [])
      refl

abbrev program : FilePath
program = plugin_program []

-- A program that serves is reached with its handshake, and gives out what both sides know.
plugins-IsHost : IsHost plugins program (serve_config unbundler)
unfolding serve_config Dict.lookup string_eq nat_eq
plugins-IsHost = record {
  connects = λ c n fs ts here there same. rw (same, here, there) refl;
  dispenses = λ c name ours theirs. elim (Option-cases (Dict.lookup name c.plugins)) [
    | inl missing ↦ absurd (ours missing)
    | inr (p, has) ↦ rw has refl
  ];
}

is_unpacked : (unbundle_bin tools binaries [] (quiet stocked [])).0 ≡ err (errno enoent)
unfolding unbundle_bin mkdir_all make_dirs string_eq list_eq
is_unpacked = refl

found_program : resolve stocked program ≡ ok (file 0o755 empty)
unfolding resolve string_eq list_eq
found_program = refl

abbrev unpacking : Result GoError String × World
unpacking = unbundler [] (quiet stocked [])

setup-unbundle_example :
    (text : String) × (unpacking.0 ≡ ok text)
    × ((e : GoError)
        → (unbundle_bin tools binaries [] (quiet stocked [])).0 ≡ err e
        → text ≡ "error unbundling binaries: " <> describe e)
    × (setup printed plugins (serve_config unbundler) [] web (state_of stocked)
        ≡ (ok text, record { world = unpacking.1; plugin_runs = false }))
setup-unbundle_example =
    setup-unbundle describe tools "v1.0.0" version_of binaries machine [] printed plugins web asset
      stocked [] _ _ latest found_bundle found_program plugins-IsHost refl

escaped : html_escape "a+b" ≡ "a&#43;b"
unfolding html_escape replacement
escaped = refl

ignition_text-AllPlain_example :
    (ignition_text "ssh-ed25519 a+b" ≡ ignition_head <> "ssh-ed25519 a+b" <> ignition_tail)
    ↔ AllPlain "ssh-ed25519 a+b"
ignition_text-AllPlain_example = ignition_text-AllPlain "ssh-ed25519 a+b"
