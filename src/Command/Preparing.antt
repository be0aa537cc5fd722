-- ===== src/Command/Preparing.antt =====
-- What the command setup does with the bundle, and when it cannot start the plugin.
use mactainer.Base.{
  ℕ, String, ◌≡◌, refl, Bool, true, false, inl, inr, List, ◌∷◌, Result, ok, err, arith, ◌≢◌, ◌>>◌,
  >>=_cases, subst, Bool-cases, Result-cases, of_result, list_eq, string_eq,
}
use mactainer.Errors.{GoError, errno, enoent, is_not_exist}
use mactainer.Json.{Json}
use mactainer.Fs.{FilePath, Node, Files, World, Fs, resolve, stat, open_create}
use mactainer.Fs.Laws.{stat_files}
use mactainer.Bundle.Plugin.{ServeConfig, ClientConfig}
use mactainer.Command.{Failure, exits}
use mactainer.Command.Setup.{
  ReleaseAsset, Response, Web, Plugins, get_latest_bundle, bundle_exists, save_body,
  download_bundle, SetupState, Setup, or_fail, fetch_missing, client_config, run_plugin, setup,
}

-- Whatever the operating system answers: only a path that cannot be looked up counts as missing.
stat_found :
    (w : World) (p : FilePath) (n : Node)
    → resolve w.files p ≡ ok n
    → is_not_exist (stat p w).0 ≡ false
unfolding stat
stat_found w p n there = ground arith

-- The same web with other answers to requests
abbrev pub with_get : (String → Result GoError Response) → Web → Web
with_get g web = record web { get = g }

module _ (print : Json → List ℕ) (plugins : Plugins) (served : ServeConfig) (home : FilePath) where
  -- When something stands where the bundle of the latest release belongs, be it a download that
  -- broke off, setup asks the web for nothing more: whatever a request would get, it does the same.
  pub setup-with_get :
      (web : Web) (b : ReleaseAsset) (g : String → Result GoError Response) (s : SetupState)
      (n : Node)
      → get_latest_bundle web ≡ ok b
      → resolve s.world.files (b.name ∷ "bundles" ∷ home) ≡ ok n
      → setup print plugins served home (with_get g web) s ≡ setup print plugins served home web s
  unfolding setup fetch_missing
  setup-with_get web b g s n latest there =
      rw (latest, stat_found s.world (b.name ∷ "bundles" ∷ home) n there) refl

-- Starting a program that cannot be found fails and changes no file.
abbrev pub IsLaunch : (ClientConfig → Fs (Unit {0})) → Type 0
IsLaunch start =
    (w : World) (c : ClientConfig)
    → resolve w.files c.cmd ≡ err (errno enoent)
    → ((start c w).1.files ≡ w.files) × ((start c w).0 ≢ ok tt)

open_create_orphan :
    (x : String) (d : FilePath) (mode : ℕ) (w : World) {e : GoError}
    → resolve w.files d ≡ err e
    → ((open_create (x ∷ d) mode w).1.files ≡ w.files) × ((open_create (x ∷ d) mode w).0 ≢ ok tt)
unfolding open_create
open_create_orphan x d mode w missing = ground arith

-- No file has changed and the command has failed.
abbrev pub HasFailed : Files → Result Failure String × SetupState → Type 0
HasFailed fs r = (r.1.world.files ≡ fs) × ((a : String) → r.0 ≢ ok a)

module _ (print : Json → List ℕ) (plugins : Plugins) (served : ServeConfig) (home : FilePath)
    (launch : IsLaunch plugins.start) where
  save_body_orphan :
      (x : String) (d : FilePath) (w : World) (r : Result GoError Response) {e : GoError}
      → resolve w.files d ≡ err e
      → (save_body print (x ∷ d) r w).1.files ≡ w.files
  unfolding save_body
  save_body_orphan x d w (err e) missing = refl
  save_body_orphan x d w (ok r) missing =
      let (same, never) = open_create_orphan x d 0o755 w missing in
      >>=_cases (λ r. r.1.files ≡ w.files) (open_create (x ∷ d) 0o755) _ w
        (λ u made. absurd (never made)) (λ e _. same)

  fetch_missing-orphan :
      (web : Web) (b : ReleaseAsset) (there : Bool) (s : SetupState) {e : GoError}
      → resolve s.world.files ("bundles" ∷ home) ≡ err e
      → (fetch_missing print plugins served home web b there s).1.world.files ≡ s.world.files
  unfolding fetch_missing download_bundle
  fetch_missing-orphan web b true s missing = refl
  fetch_missing-orphan web b false s missing =
      let same =
        save_body_orphan b.name ("bundles" ∷ home) s.world (web.get b.browser_download_url)
          missing in
      elim (Bool-cases (web.is_url b.browser_download_url)) [
        | inl yes_ ↦ rw yes_ same
        | inr no_ ↦ rw no_ refl
      ]

  run_plugin-orphan :
      (s : SetupState)
      → resolve s.world.files ("bundles" ∷ home) ≡ err (errno enoent)
      → HasFailed s.world.files (run_plugin print plugins served home s)
  unfolding run_plugin client_config resolve
  run_plugin-orphan s missing =
      let (same, never) = launch s.world (client_config home) (ground arith) in
      elim (Result-cases (plugins.start (client_config home) s.world).0) [
        | inl (_, e) ↦ absurd (never e)
        | inr (e, h) ↦ rw h (same, λ a k. cc)
      ]

  abbrev fetch_and_run : Web → ReleaseAsset → Bool → Setup String
  fetch_and_run web b there =
      fetch_missing print plugins served home web b there >> run_plugin print plugins served home

  fetch-HasFailed :
      (web : Web) (b : ReleaseAsset) (there : Bool) (s : SetupState)
      → resolve s.world.files ("bundles" ∷ home) ≡ err (errno enoent)
      → HasFailed s.world.files (fetch_and_run web b there s)
  fetch-HasFailed web b there s missing =
      let same = fetch_missing-orphan web b there s missing in
      >>=_cases (HasFailed s.world.files) (fetch_missing print plugins served home web b there)
        (λ _. run_plugin print plugins served home) s
        (λ u _.
          subst
            (λ fs. HasFailed fs (
              run_plugin print plugins served home
                (fetch_missing print plugins served home web b there s).1))
            same (run_plugin-orphan _ (rw same missing)))
        (λ e h. (same, λ a k. cc))

  -- Whatever the operating system answers and whatever a request gets: while there is no folder for
  -- bundles, which no command makes but the program that setup starts from it, setup fails and leaves
  -- the files as they are, if starting a program that cannot be found does so.
  pub setup-HasFailed :
      (web : Web) (s : SetupState)
      → resolve s.world.files ("bundles" ∷ home) ≡ err (errno enoent)
      → HasFailed s.world.files (setup print plugins served home web s)
  unfolding setup
  setup-HasFailed web s missing =
      >>=_cases (HasFailed s.world.files) (or_fail exits (of_result (get_latest_bundle web))) _ s
        (λ b _.
          >>=_cases (HasFailed s.world.files)
            (or_fail exits (bundle_exists (b.name ∷ "bundles" ∷ home))) (fetch_and_run web b) s
            (λ there _.
              let same = stat_files (b.name ∷ "bundles" ∷ home) s.world in
              let now : SetupState =
                (or_fail exits (bundle_exists (b.name ∷ "bundles" ∷ home)) s).1 in
              subst (λ fs. HasFailed fs (fetch_and_run web b there now)) same
                (fetch-HasFailed web b there now (rw same missing)))
            (λ e h. cc))
        (λ e h. (refl, λ a k. cc))
