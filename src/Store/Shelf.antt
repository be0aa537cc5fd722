-- ===== src/Store/Shelf.antt =====
-- The interface `Store` of pkg/libmachine/persist/persist.go, as a shelf of hosts by their names, and
-- that a Filestore keeps one.
use mactainer.Base.{
  String, Option, none, some, List, [], Result, ok, err, list_eq, string_eq, ◌==◌, if◌then◌else◌,
}
use mactainer.Base.Dict
use mactainer.Errors.{GoError}
use mactainer.Json.{Json}
use mactainer.Fs.{Files}
use mactainer.Fs.Quiet.{quiet}
use mactainer.Host.{Host}
use mactainer.Store.{Filestore, load}

-- What a store promises to keep: the host behind each name.
abbrev pub Shelf : Type 0 → Type 0
Shelf D = String → Option (Host D)

abbrev pub put_host : {D : Type 0} → String → Host D → Shelf D → Shelf D
put_host name h shelf n = if n == name then some h else shelf n

abbrev pub take_host : {D : Type 0} → String → Shelf D → Shelf D
take_host name shelf n = if n == name then none else shelf n

abbrev loaded : {D : Type 0} → Result GoError (Host D) → Option (Host D)
loaded (ok h) = some h
loaded (err e) = none

-- The shelf that some files stand for: what can be loaded.
unfoldable pub shelf_of : {D : Type 0} → Filestore → Files → Shelf D
shelf_of s fs n = loaded (load s n (quiet fs [])).0
