-- ===== src/Host/Codec.antt =====
-- How a host is written to config.json and read back: pkg/libmachine/host/migrate.go, with the rules
-- of encoding/json for the two structs.
use Prim.Native.Char.{code}
use mactainer.Base.{
  ℕ, ◌+◌, String, Bool, true, false, not, ◌&&◌, Option, none, some, List, [], ◌∷◌, map,
  if◌then◌else◌, leb, ◌==◌, nat_eq, list_eq, Result, ok, err,
}
use mactainer.Base.Int.{ℤ, pos, fits_int, is_nat}
use mactainer.Errors.{GoError, message, wrapped, json_error}
use mactainer.Json.{
  Json, null, num, str, obj, int, Members, close, member, Content, json, bytes, empty,
}
use mactainer.Host.{Driver, nil, raw, remote, Host, Metadata, RawDataDriver, version}
use mactainer.Host.None.{new_driver}

abbrev pub codes : String → List ℕ
codes String.[] = []
codes (String.◌∷◌ c s) = code c ∷ codes s

to_lower : ℕ → ℕ
to_lower c = if leb b'A' c && leb c b'Z' then c + 32 else c

-- encoding/json takes a member for a field whose name it equals up to (ASCII) case.
unfoldable pub names_field : String → String → Bool
unfolding to_lower nat_eq list_eq
names_field key field = map to_lower (codes key) == map to_lower (codes field)

-- What a member gives a field that has the value `old`; `none` is a type error.
unfoldable pub string_field : Json → String → Option String
string_field (str s) old = some s
string_field null old = some old
string_field _ old = none

unfoldable pub int_field : Json → ℤ → Option ℤ
int_field (num (int z)) old = if fits_int z then some z else none
int_field null old = some old
int_field _ old = none

-- `(*RawDataDriver).MarshalJSON`, with the check that json.Marshal makes of its result
unfoldable pub marshal_raw : RawDataDriver → Result GoError Json
marshal_raw r = elim r.content [ json j ↦ ok j | bytes _ ↦ err json_error ]

-- `(*RawDataDriver).UnmarshalJSON`
unfoldable pub unmarshal_raw : RawDataDriver → Content → RawDataDriver
unmarshal_raw r c = record r { content = c }

-- `(*RawDataDriver).UpdateConfigRaw`
unfoldable pub update_config_raw : RawDataDriver → Content → RawDataDriver
unfolding unmarshal_raw
update_config_raw r c = unmarshal_raw r c

-- The members of an object in their order, each by `step`.
unfoldable pub each_member {ℓ} : {S : Type ℓ} → (String → Json → S → S) → Members → S → S
each_member step close s = s
each_member step (member k v ms) s = each_member step ms (step k v s)

-- A struct that is being filled. encoding/json goes on after a type error and reports it at the end.
pub record Decoding {ℓ} (S : Type ℓ) : Type ℓ where
  pub target : S
  pub failed : Bool

-- `json.Unmarshal(content, &target)` for a struct whose members `step` sets.
unfoldable pub unmarshal {ℓ} :
    {S : Type ℓ} → (String → Json → Decoding S → Decoding S) → Content → S → Result GoError S
unfolding each_member
unmarshal step (bytes _) s = err json_error
unmarshal step (json null) s = ok s
unmarshal step (json (obj ms)) s =
    let d = each_member step ms (record { target = s; failed = false }) in
    if d.failed then err json_error else ok d.target
unmarshal step (json _) s = err json_error

abbrev type_error {ℓ} : {S : Type ℓ} → Decoding S → Decoding S
type_error d = record d { failed = true }

-- Stores the value of a member, or notes that it has the wrong type.
abbrev assign {ℓ} : {S : Type ℓ} {V : Type 0} → Option V → (V → S → S) → Decoding S → Decoding S
assign none set d = type_error d
assign (some v) set d = record d { target = set v d.target }

unfoldable pub metadata_member : String → Json → Decoding Metadata → Decoding Metadata
metadata_member k v d =
    if names_field k "ConfigVersion"
    then assign (int_field v d.target.config_version) (λ z m. record m { config_version = z }) d
    else d

-- The host that `MigrateHost` fills, beside the stand-in driver that it points to: a null member
-- takes the pointer away and leaves the stand-in as it was.
pub record Loading : Type 0 where
  pub config_version : ℤ
  pub points : Bool
  pub stand_in : RawDataDriver
  pub driver_name : String
  pub driver_path : String
  pub name : String
  pub public_key : String
  pub private_key : String

-- The member of the interface field `Driver`: without a value behind it, only null fits.
unfoldable pub driver_member : Json → Decoding Loading → Decoding Loading
unfolding unmarshal_raw
driver_member null d = record d { target = record d.target { points = false } }
driver_member v d =
    if d.target.points
    then record d {
      target = record d.target { stand_in = unmarshal_raw d.target.stand_in (json v) };
    }
    else type_error d

unfoldable pub host_member : String → Json → Decoding Loading → Decoding Loading
unfolding driver_member
host_member k v d =
    if names_field k "ConfigVersion"
    then assign (int_field v d.target.config_version) (λ z h. record h { config_version = z }) d
    else if names_field k "Driver"
    then driver_member v d
    else if names_field k "DriverName"
    then assign (string_field v d.target.driver_name) (λ s h. record h { driver_name = s }) d
    else if names_field k "DriverPath"
    then assign (string_field v d.target.driver_path) (λ s h. record h { driver_path = s }) d
    else if names_field k "Name"
    then assign (string_field v d.target.name) (λ s h. record h { name = s }) d
    else if names_field k "PublicKey"
    then assign (string_field v d.target.public_key) (λ s h. record h { public_key = s }) d
    else if names_field k "PrivateKey"
    then assign (string_field v d.target.private_key) (λ s h. record h { private_key = s }) d
    else d

module _ {D : Type 0} where
  loaded_host : Loading → Host D
  loaded_host l = record {
    config_version = l.config_version;
    driver = if l.points then raw l.stand_in else nil;
    driver_name = l.driver_name;
    driver_path = l.driver_path;
    name = l.name;
    raw_driver = l.stand_in.content;
    public_key = l.public_key;
    private_key = l.private_key;
  }

abbrev pub unset : ℤ
unset = pos 0

abbrev pub blank : String → Loading
blank name = record {
  config_version = unset;
  points = true;
  stand_in = record { none_driver = new_driver name ""; content = empty };
  driver_name = "";
  driver_path = "";
  name = name;
  public_key = "";
  private_key = "";
}

-- `MigrateHost(name, data)`
unfoldable pub migrate_host : {D : Type 0} → String → Content → Result GoError (Host D)
unfolding unmarshal metadata_member host_member loaded_host
migrate_host name content =
    elim (unmarshal metadata_member content (record { config_version = unset })) [
      | err e ↦ err e
      | ok m ↦
          if not (is_nat m.config_version version)
          then err (message "unexpected config version")
          else elim (unmarshal host_member content (blank name)) [
            | err e ↦ err (wrapped "Error unmarshalling most recent host version" e)
            | ok l ↦ ok (loaded_host l)
          ]
    ]

module _ {D : Type 0} (marshal_remote : D → Result GoError Json) where
  -- The value of the interface field `Driver`, as json.Marshal writes it.
  unfoldable pub marshal_driver : Driver D → Result GoError Json
  unfolding marshal_raw
  marshal_driver nil = ok null
  marshal_driver (raw r) = marshal_raw r
  marshal_driver (remote d) = marshal_remote d

  -- `json.MarshalIndent(host, "", "    ")`; the tag of `RawDriver` keeps it out.
  unfoldable pub marshal_host : Host D → Result GoError Content
  unfolding marshal_driver
  marshal_host h = elim (marshal_driver h.driver) [
    | err e ↦ err e
    | ok driver ↦ ok (
        json (
          obj (
            member "ConfigVersion" (num (int h.config_version)) (
              member "Driver" driver (
                member "DriverName" (str h.driver_name) (
                  member "DriverPath" (str h.driver_path) (
                    member "Name" (str h.name) (
                      member "PublicKey" (str h.public_key)
                        (member "PrivateKey" (str h.private_key) close)))))))))
  ]
