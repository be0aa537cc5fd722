-- ===== src/Store/RoundTrip.antt =====
-- A machine that was saved is loaded as it was.
use mactainer.Base.{
  ℕ, String, ◌≡◌, ap, ◌∙◌, ◌≢◌, some, List, Result, ok, arith, list_eq, string_eq, length,
}
use mactainer.Base.Dict
use mactainer.Base.Int.{pos}
use mactainer.Errors.{GoError}
use mactainer.Json.{Json, null, Content}
use mactainer.Fs.{
  dir, file, World, Files, resolve, fresh_name, make_dirs, mkdir_all, stat, read_file,
}
use mactainer.Fs.Quiet.{quiet, IsWritable, make_dirs-resolve, resolve-same}
use mactainer.Host.{Host, version}
use mactainer.Host.Codec.{marshal_driver, marshal_host, migrate_host}
use mactainer.Host.RoundTrip.{reloaded, migrate_host-marshal_host}
use mactainer.Store.{Filestore, host_path, config_path, config_json, save, load}
use mactainer.Store.Works.{Holds, save_to_file_works}

-- The folder of the machine still stands when its config.json has been written.
pub Holds-resolve :
    (s : Filestore) (name : String) (c : Content) (fs made fs' : Files)
    → make_dirs (host_path s name) fs ≡ ok made
    → Holds (config_path s name) c 0o600 made fs'
    → resolve fs' (host_path s name) ≡ ok dir
Holds-resolve s name c fs made fs' there holds =
    resolve-same made fs' (host_path s name)
      (λ q short. holds q ∙ ground (arith, λ (e : q ≡ config_path s name). ap length e))
    ∙ make_dirs-resolve (host_path s name) fs there

module _ (s : Filestore) (name : String) (c : Content) (fs : Files) where
  pub load_config :
      {D : Type 0} (ts : List String) (mode : ℕ) (h : Host D)
      → resolve fs (host_path s name) ≡ ok dir
      → Dict.lookup (config_path s name) fs ≡ some (file mode c)
      → migrate_host name c ≡ ok h
      → load s name (quiet fs ts) ≡ (ok h, quiet fs ts)
  unfolding load stat read_file resolve
  load_config ts mode h above here migrated = rw (above, above, here, migrated)

module _ {D : Type 0} (marshal_remote : D → Result GoError Json) where
  -- Where every call works and nothing is in the way, saving a host of the current version whose
  -- driver has a JSON form succeeds, and loading it by its name gives it back: every field that is
  -- stored, the driver's form as its raw configuration, and the stand-in as its driver.
  pub load-save :
      (s : Filestore) (h : Host D) (c : Content) (j : Json) (fs made : Files)
      (ts rest : List String) (temp : String)
      → h.config_version ≡ pos version
      → marshal_driver marshal_remote h.driver ≡ ok j
      → j ≢ null
      → marshal_host marshal_remote h ≡ ok c
      → make_dirs (host_path s h.name) fs ≡ ok made
      → IsWritable (Dict.lookup (config_path s h.name) made)
      → fresh_name (host_path s h.name) "config.json.tmp" ts made ≡ some (temp, rest)
      → (w : World) × (save marshal_remote s h (quiet fs ts) ≡ (ok tt, w))
        × (load s h.name w ≡ (ok (reloaded h.name h j), w))
  unfolding save mkdir_all
  load-save s h c j fs made ts rest temp current shown real written there can drawn =
      let (fs', ts', saved, holds) =
        save_to_file_works made config_json (host_path s h.name) c
          (make_dirs-resolve (host_path s h.name) fs there) ts temp rest can drawn in
      (
        quiet fs' ts',
        rw (written, there, saved),
        load_config s h.name c fs' ts' 0o600 (reloaded h.name h j)
            (Holds-resolve s h.name c fs made fs' there holds)
            (holds (config_path s h.name) ∙ ground arith)
            (migrate_host-marshal_host marshal_remote h h.name c j current shown real written),
      )
