-- ===== src/Host/Version.antt =====
-- Which config.json files `MigrateHost` takes.
use mactainer.Base.{◌≡◌, refl, ◌∙◌, ◌⊎◌, String, false, ok, arith, nat_eq}
use mactainer.Base.Int.{pos}
use mactainer.Json.{Json, null, obj, Members, close, member, Content, json, bytes}
use mactainer.Host.{Host, Metadata, nil, raw, new_driver, version}
use mactainer.Host.Codec.{
  Decoding, Loading, blank, each_member, metadata_member, host_member, migrate_host,
}

-- Both passes over the document store the same ConfigVersion.
host_member-metadata_member :
    (k : String) (v : Json) (m : Decoding Metadata) (h : Decoding Loading)
    → m.target.config_version ≡ h.target.config_version
    → (metadata_member k v m).target.config_version ≡ (host_member k v h).target.config_version
unfolding metadata_member host_member
host_member-metadata_member k v m h e = ground arith

host_member-none_driver :
    (k : String) (v : Json) (h : Decoding Loading)
    → (host_member k v h).target.stand_in.none_driver ≡ h.target.stand_in.none_driver
unfolding host_member
host_member-none_driver k v h = ground arith

members-config_version :
    (ms : Members) (m : Decoding Metadata) (h : Decoding Loading)
    → m.target.config_version ≡ h.target.config_version
    → (each_member metadata_member ms m).target.config_version
      ≡ (each_member host_member ms h).target.config_version
unfolding each_member
members-config_version close m h e = e
members-config_version (member k v ms) m h e =
    members-config_version ms (metadata_member k v m) (host_member k v h)
      (host_member-metadata_member k v m h e)

-- No member replaces what the stand-in driver was made with.
members-none_driver :
    (ms : Members) (h : Decoding Loading)
    → (each_member host_member ms h).target.stand_in.none_driver ≡ h.target.stand_in.none_driver
unfolding each_member
members-none_driver close h = refl
members-none_driver (member k v ms) h =
    members-none_driver ms (host_member k v h) ∙ host_member-none_driver k v h

-- `MigrateHost` hands out hosts of the current version only, whatever the document holds. Their
-- driver is the stand-in under the given name, which holds their raw configuration, or nil.
pub migrate_host-version :
    {D : Type 0} (name : String) (c : Content) {h : Host D}
    → migrate_host name c ≡ ok h
    → (h.config_version ≡ pos version)
      × ((h.driver ≡ nil)
          ⊎ (h.driver ≡ raw (record { none_driver = new_driver name ""; content = h.raw_driver })))
unfolding migrate_host
migrate_host-version name (bytes b) e = cc
migrate_host-version name (json (obj ms)) e = ground (
  arith,
  members-config_version ms (record { target = record { config_version = pos 0 }; failed = false })
      (record { target = blank name; failed = false }) refl,
  members-none_driver ms (record { target = blank name; failed = false }),
)
migrate_host-version name (json null) e = ground arith
migrate_host-version name (json _) e = cc
