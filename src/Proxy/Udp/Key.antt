-- ===== src/Proxy/Udp/Key.antt =====
-- `connTrackKey`: a client's address as the key of a map.
use mactainer.Base.{
  ℕ, ◌+◌, ◌*◌, List, [], ◌∷◌, Option, none, some, length, take, drop, if◌then◌else◌, ltb, ◌==◌,
  nat_eq,
}
use mactainer.Base.Int.{ℤ}
use mactainer.Proxy.Addr.{NetAddr}

pub record ConnTrackKey : Type 0 where
  pub ip_high : ℕ  -- uint64
  pub ip_low : ℕ  -- uint64
  pub port : ℤ

-- The bytes read as digits, the most significant first, behind the number `acc`.
unfoldable pub digits_from : ℕ → List ℕ → ℕ
digits_from acc [] = acc
digits_from acc (b ∷ bs) = digits_from (acc * 256 + b) bs

-- `binary.BigEndian.Uint32` and `Uint64`, which panic on a slice that is too short.
unfoldable pub big_endian : ℕ → List ℕ → Option ℕ
unfolding digits_from
big_endian n bs = if ltb (length bs) n then none else some (digits_from 0 (take n bs))

abbrev both : Option ℕ → Option ℕ → ℤ → Option ConnTrackKey
both (some h) (some l) p = some (record { ip_high = h; ip_low = l; port = p })
both (some h) none p = none
both none l p = none

-- `newConnTrackKey(addr)`; `none` is a panic. `addr.IP[8:]` panics too if there are fewer than eight
-- bytes, as reading eight bytes before it does.
unfoldable pub new_conn_track_key : NetAddr → Option ConnTrackKey
unfolding big_endian nat_eq
new_conn_track_key addr =
    if length addr.ip == 4
    then both (some 0) (big_endian 4 addr.ip) addr.port
    else both (big_endian 8 (take 8 addr.ip)) (big_endian 8 (drop 8 addr.ip)) addr.port
