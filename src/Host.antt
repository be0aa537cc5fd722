-- ===== src/Host.antt =====
-- pkg/libmachine/host: a machine as the store keeps it, and the drivers behind it.
pub mod None
pub mod Codec
pub mod RoundTrip
pub mod Version
pub mod Action
pub mod Settled
pub use None.{BaseDriver, NoneDriver, new_driver}
use mactainer.Base.{ℕ, String}
use mactainer.Base.Int.{ℤ}
use mactainer.Json.{Content}

-- ConfigVersion of the config.json that this program writes
abbrev pub version : ℕ
version = 3

-- The driver that stands in for the real one between `MigrateHost` and `NewRPCClientDriver`.
pub record RawDataDriver : Type 0 where
  pub none_driver : NoneDriver
  pub content : Content  -- `Data`

-- A value of the interface `drivers.Driver`: nil, the stand-in, or a driver of the machine
-- library, whose type `D` is outside this program.
pub data Driver (D : Type 0) : Type 0 where
  nil : Driver D
  raw : RawDataDriver → Driver D
  remote : D → Driver D

pub record Host (D : Type 0) : Type 0 where
  pub config_version : ℤ
  pub driver : Driver D
  pub driver_name : String
  pub driver_path : String
  pub name : String
  pub raw_driver : Content
  pub public_key : String
  pub private_key : String

pub record Metadata : Type 0 where
  pub config_version : ℤ
