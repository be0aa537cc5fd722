-- ===== src/Client/Loading.antt =====
-- What the client hands out.
use mactainer.Base.{
  ◌≢◌, list_eq, string_eq, subst, Bool, true, false, >>=_ok, String, ◌≡◌, refl, ap, sym, ◌∙◌, some,
  List, Result, ok, err, Action, of_result, arith,
}
use mactainer.Base.Dict
use mactainer.Base.Int.{pos}
use mactainer.Errors.{GoError}
use mactainer.Json.{Json, json, null, Content}
use mactainer.Fs.{World, Files, fresh_name, make_dirs, stat, read_file}
use mactainer.Fs.Quiet.{quiet, IsWritable}
use mactainer.Host.{Host, remote, version}
use mactainer.Errors.{is_not_exist}
use mactainer.Host.Codec.{migrate_host, marshal_driver, marshal_host}
use mactainer.Host.Version.{migrate_host-version}
use mactainer.Store.{Filestore, load, host_path, config_path}
use mactainer.Store.RoundTrip.{load-save}
use mactainer.Client.{Library, System, load_host, save_host}

pub load_files :
    (D : Type 0) (s : Filestore) (name : String) (w : World)
    → (load {D = D} s name w).1.files ≡ w.files
unfolding load stat read_file
load_files D s name w = ground arith

load_migrated :
    {D : Type 0} (s : Filestore) (name : String) (w : World) {h : Host D}
    → (load s name w).0 ≡ ok h
    → (c : Content) × (migrate_host name c ≡ ok h)
unfolding load
load_migrated {D} s name w {h} e = by_stat (is_not_exist (stat (host_path s name) w).0) refl
  where
    by_stat :
        (b : Bool)
        → is_not_exist (stat (host_path s name) w).0 ≡ b
        → (c : Content) × (migrate_host name c ≡ ok h)
    by_stat true missing = absurd (ground arith)
    by_stat false there =
        let (c, got, same) =
          >>=_ok (read_file (config_path s name)) (λ c. of_result (migrate_host {D = D} name c))
            (stat (host_path s name) w).1 (rw there at e) in
        (c, ap (λ r. r.0) (sym same) ∙ (rw there at e))

current_version :
    {D : Type 0} (s : Filestore) (name : String) (w : World) {h : Host D}
    → (load s name w).0 ≡ ok h
    → h.config_version ≡ pos version
current_version s name w e =
    let (c, m) = load_migrated s name w e in (migrate_host-version name c m).0

module _ (L : Library) where
  -- A host that the client loads is of the current version, and its driver is one that the machine
  -- library has just made from the stored configuration: neither nil nor the stand-in. Loading leaves
  -- the files as they were, also when it fails.
  pub load_host_remote :
      (s : Filestore) (name : String) (sys : System L)
      → ((load_host L s name sys).1.world.files ≡ sys.world.files)
        × ((h : Host L.RpcDriver)
            → (load_host L s name sys).0 ≡ ok h
            → (h.config_version ≡ pos version)
              × (d : L.RpcDriver) × (h.driver ≡ remote d)
              × ((L.new_rpc_client_driver h.driver_name h.driver_path h.raw_driver sys.machines).0
                  ≡ ok d))
  unfolding load_host
  load_host_remote s name sys = (
    ground (arith, load_files L.RpcDriver s name sys.world),
    λ h made. by_load h (load s name sys.world).0 refl made,
  )
    where
      connect : Host L.RpcDriver → Action L.Machines GoError L.RpcDriver
      connect h = L.new_rpc_client_driver h.driver_name h.driver_path h.raw_driver

      by_connect :
          (h g : Host L.RpcDriver)
          → (load s name sys.world).0 ≡ ok g
          → (q : Result GoError L.RpcDriver) → (connect g sys.machines).0 ≡ q
          → (load_host L s name sys).0 ≡ ok h
          → (h.config_version ≡ pos version)
            × (d : L.RpcDriver) × (h.driver ≡ remote d)
            × ((connect h sys.machines).0 ≡ ok d)
      by_connect h g e (err x) c made = absurd (ground arith)
      by_connect h g e (ok d) c made =
          let whole : record g { driver = remote d } ≡ h = ground arith in
          subst
            (λ x.
              (x.config_version ≡ pos version)
              × (d : L.RpcDriver) × (x.driver ≡ remote d)
              × ((connect x sys.machines).0 ≡ ok d))
            whole (current_version s name sys.world e, d, refl, c)

      by_load :
          (h : Host L.RpcDriver) (r : Result GoError (Host L.RpcDriver))
          → (load s name sys.world).0 ≡ r
          → (load_host L s name sys).0 ≡ ok h
          → (h.config_version ≡ pos version)
            × (d : L.RpcDriver) × (h.driver ≡ remote d)
            × ((connect h sys.machines).0 ≡ ok d)
      by_load h (err x) e made = absurd (ground arith)
      by_load h (ok g) e made = by_connect h g e (connect g sys.machines).0 refl made

  -- Where every call works and nothing is in the way, saving a host of the current version whose
  -- driver shows its configuration, and loading it by its name, gives the host back with that
  -- configuration as its raw one and a driver that is made anew from it.
  pub load_host-save_host :
      (s : Filestore) (h : Host L.RpcDriver) (c : Content) (j : Json) (fs made : Files)
      (ts rest : List String) (temp : String) (m m' : L.Machines) (d : L.RpcDriver)
      → h.config_version ≡ pos version
      → marshal_driver (λ e. L.marshal e m) h.driver ≡ ok j
      → j ≢ null
      → marshal_host (λ e. L.marshal e m) h ≡ ok c
      → make_dirs (host_path s h.name) fs ≡ ok made
      → IsWritable (Dict.lookup (config_path s h.name) made)
      → fresh_name (host_path s h.name) "config.json.tmp" ts made ≡ some (temp, rest)
      → L.new_rpc_client_driver h.driver_name h.driver_path (json j) m ≡ (ok d, m')
      → (w : World) × (save_host L s h (record { world = quiet fs ts; machines = m })
          ≡ (ok tt, record { world = w; machines = m }))
        × (load_host L s h.name (record { world = w; machines = m }) ≡ (
          ok (record h { driver = remote d; raw_driver = json j }),
          record { world = w; machines = m' },
        ))
  unfolding load_host save_host
  load_host-save_host s h c j fs made ts rest temp m m' d current shown real written there can drawn
        connected =
      let (w, saved, loaded) =
        load-save (λ e. L.marshal e m) s h c j fs made ts rest temp current shown real written there
          can drawn in
      (w, rw saved refl, rw (loaded, connected) refl)
