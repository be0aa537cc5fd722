-- ===== src/Proxy/Udp/Unique.antt =====
-- When two clients share a key.
use mathlib.Core.Option.{some-injective}
use mactainer.Base.{
  ℕ, zero, suc, ◌+◌, ◌*◌, ◌<◌, ◌≡◌, refl, ap, ap₂, sym, ◌∙◌, ◌⊎◌, inl, inr, ◌↔◌, List, [], ◌∷◌,
  ◌++◌, some, length, take, drop, length-take, length-drop, take_all, take-append-drop,
  if◌then◌else◌, ◌==◌, nat_eq, arith,
}
use mactainer.Base.Int.{ℤ}
use mactainer.Proxy.Addr.{Ip, NetAddr}
use mactainer.Proxy.Udp.Key.{ConnTrackKey, digits_from, new_conn_track_key}

abbrev pub AreBytes : List ℕ → Type 0
AreBytes [] = Unit
AreBytes (b ∷ bs) = (b < 256) × AreBytes bs

-- Numbers with as many digits are equal only if the digits are.
digits_from-injective :
    (acc acc' : ℕ) (xs ys : List ℕ)
    → AreBytes xs
    → AreBytes ys
    → length xs ≡ length ys
    → digits_from acc xs ≡ digits_from acc' ys
    → (acc ≡ acc') × (xs ≡ ys)
unfolding digits_from
digits_from-injective acc acc' [] [] bx byy len e = (e, refl)
digits_from-injective acc acc' [] (y ∷ ys) bx byy len e = absurd (omega arith)
digits_from-injective acc acc' (x ∷ xs) [] bx byy len e = absurd (omega arith)
digits_from-injective acc acc' (x ∷ xs) (y ∷ ys) bx byy len e =
    let (heads, tails) =
      digits_from-injective (acc * 256 + x) (acc' * 256 + y) xs ys bx.1 byy.1 (omega arith) e in
    (omega arith, ap₂ ◌∷◌ (omega arith) tails)

-- The 16 bytes that a key stands for: an IPv4 address counts as its low four.
pub padded : Ip → Ip
unfolding nat_eq
padded ip = if length ip == 4 then 0 ∷ 0 ∷ 0 ∷ 0 ∷ 0 ∷ 0 ∷ 0 ∷ 0 ∷ 0 ∷ 0 ∷ 0 ∷ 0 ∷ ip else ip

-- The address of a datagram: an IP of 4 or 16 bytes.
pub record IsClient (a : NetAddr) : Type 0 where
  pub size : (length a.ip ≡ 4) ⊎ (length a.ip ≡ 16)
  pub are_bytes : AreBytes a.ip

abbrev key_of : Ip → ℤ → ConnTrackKey
key_of ip port = record {
  ip_high = digits_from 0 (take 8 ip);
  ip_low = digits_from 0 (drop 8 ip);
  port = port;
}

key-padded_v4 :
    (ip : Ip) (port : ℤ)
    → length ip ≡ 4
    → new_conn_track_key (record { ip = ip; port = port }) ≡ some (key_of (padded ip) port)
unfolding new_conn_track_key padded
key-padded_v4 (a ∷ b ∷ c ∷ d ∷ []) port h = refl
key-padded_v4 [] port h = absurd (omega arith)
key-padded_v4 (a ∷ []) port h = absurd (omega arith)
key-padded_v4 (a ∷ b ∷ []) port h = absurd (omega arith)
key-padded_v4 (a ∷ b ∷ c ∷ []) port h = absurd (omega arith)
key-padded_v4 (a ∷ b ∷ c ∷ d ∷ e ∷ r) port h = absurd (omega arith)

key-padded_v6 :
    (ip : Ip) (port : ℤ)
    → length ip ≡ 16
    → new_conn_track_key (record { ip = ip; port = port }) ≡ some (key_of (padded ip) port)
unfolding new_conn_track_key padded
key-padded_v6 ip port h =
    let high : length (take 8 ip) ≡ 8 = omega (arith, length-take 8 ip) in
    let low : length (drop 8 ip) ≡ 8 = omega (arith, length-drop 8 ip) in
    rw (h, high, take_all 8 (take 8 ip) high, low, take_all 8 (drop 8 ip) low)

key-padded : (a : NetAddr) → IsClient a → new_conn_track_key a ≡ some (key_of (padded a.ip) a.port)
key-padded a v = elim v.size [
  | inl four ↦ key-padded_v4 a.ip a.port four
  | inr sixteen ↦ key-padded_v6 a.ip a.port sixteen
]

padded-IsClient :
    (ip : Ip)
    → AreBytes ip
    → (length ip ≡ 4) ⊎ (length ip ≡ 16)
    → AreBytes (padded ip) × (length (padded ip) ≡ 16)
unfolding padded
padded-IsClient ip bs size = ground arith

pub take-AreBytes : (n : ℕ) (xs : List ℕ) → AreBytes xs → AreBytes (take n xs)
take-AreBytes zero xs h = tt
take-AreBytes (suc n) [] h = tt
take-AreBytes (suc n) (x ∷ xs) h = (h.0, take-AreBytes n xs h.1)

pub drop-AreBytes : (n : ℕ) (xs : List ℕ) → AreBytes xs → AreBytes (drop n xs)
drop-AreBytes zero xs h = h
drop-AreBytes (suc n) [] h = tt
drop-AreBytes (suc n) (x ∷ xs) h = drop-AreBytes n xs h.1

key_of-injective :
    (xs ys : Ip) (p q : ℤ)
    → AreBytes xs
    → AreBytes ys
    → length xs ≡ length ys
    → key_of xs p ≡ key_of ys q
    → (p ≡ q) × (xs ≡ ys)
key_of-injective xs ys p q bx by_ len e =
    let (_, high) =
      digits_from-injective 0 0 (take 8 xs) (take 8 ys) (take-AreBytes 8 xs bx)
        (take-AreBytes 8 ys by_) (omega (arith, length-take 8 xs, length-take 8 ys))
        (ap (λ k. k.ip_high) e) in
    let (_, low) =
      digits_from-injective 0 0 (drop 8 xs) (drop 8 ys) (drop-AreBytes 8 xs bx)
        (drop-AreBytes 8 ys by_) (omega (arith, length-drop 8 xs, length-drop 8 ys))
        (ap (λ k. k.ip_low) e) in
    (ap (λ k. k.port) e, sym (take-append-drop 8 xs) ∙ ap₂ ◌++◌ high low ∙ take-append-drop 8 ys)

-- Two clients share a key exactly when they have the same port and the same 16 bytes, where an IPv4
-- address of 4 bytes counts as twelve zeros and those: so the form of an address matters, and
-- clients of one form never share.
pub new_conn_track_key_iff :
    (a b : NetAddr)
    → IsClient a
    → IsClient b
    → (new_conn_track_key a ≡ new_conn_track_key b)
      ↔ ((a.port ≡ b.port) × (padded a.ip ≡ padded b.ip))
new_conn_track_key_iff a b va vb =
    rw (key-padded a va, key-padded b vb)
      (
        λ e.
            let (ba, la) = padded-IsClient a.ip va.are_bytes va.size in
            let (bb, lb) = padded-IsClient b.ip vb.are_bytes vb.size in
            key_of-injective (padded a.ip) (padded b.ip) a.port b.port ba bb (omega arith)
              (some-injective _ _ e),
        λ h. rw (h.0, h.1),
      )
