-- ===== src/Host/RoundTrip.antt =====
-- What of a host survives being written to config.json and read back.
use mactainer.Base.{◌≡◌, refl, ◌≢◌, String, Result, ok, nat_eq, arith}
use mactainer.Base.Int.{ℤ, pos}
use mactainer.Errors.{GoError}
use mactainer.Json.{Json, null, bool, num, str, obj, int, close, member, Content, json}
use mactainer.Host.{Host, raw, new_driver, version}
use mactainer.Host.Codec.{
  names_field, int_field, string_field, marshal_driver, marshal_host, migrate_host,
}

-- The document that `marshal_host` writes around the driver's own document.
abbrev document : {D : Type 0} → ℤ → Host D → Json → Content
document v h j = json (
    obj (
      member "ConfigVersion" (num (int v)) (
        member "Driver" j (
          member "DriverName" (str h.driver_name) (
            member "DriverPath" (str h.driver_path) (
              member "Name" (str h.name) (
                member "PublicKey" (str h.public_key)
                  (member "PrivateKey" (str h.private_key) close))))))))

-- The host that comes back: the driver's document stands where the driver was.
abbrev pub reloaded : {D : Type 0} → String → Host D → Json → Host D
reloaded any h j = record h {
  driver = raw (record { none_driver = new_driver any ""; content = json j });
  raw_driver = json j;
}

migrate_host-document :
    {D : Type 0} (any : String) (h : Host D) (j : Json)
    → j ≢ null
    → migrate_host any (document (pos version) h j)
      ≡ ok (reloaded any (record h { config_version = pos version }) j)
unfolding migrate_host names_field int_field string_field nat_eq
migrate_host-document any h null real = absurd (real refl)
migrate_host-document any h (bool b) real = refl
migrate_host-document any h j real = refl

module _ {D : Type 0} (marshal_remote : D → Result GoError Json) where
  marshal_host-document :
      (h : Host D) (c : Content) (j : Json)
      → marshal_driver marshal_remote h.driver ≡ ok j
      → marshal_host marshal_remote h ≡ ok c
      → c ≡ document h.config_version h j
  unfolding marshal_host
  marshal_host-document h c j shown written = ground arith

  -- A host of the current version whose driver has a JSON form other than null comes back from its
  -- config.json with every field that it was written with; the driver's form is its raw
  -- configuration, and the driver itself is the stand-in under the name that was asked for.
  pub migrate_host-marshal_host :
      (h : Host D) (any : String) (c : Content) (j : Json)
      → h.config_version ≡ pos version
      → marshal_driver marshal_remote h.driver ≡ ok j
      → j ≢ null
      → marshal_host marshal_remote h ≡ ok c
      → migrate_host any c ≡ ok (reloaded any h j)
  migrate_host-marshal_host h any c j current shown real written =
      rw (marshal_host-document h c j shown written, current) (migrate_host-document any h j real)
