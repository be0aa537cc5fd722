-- ===== src/Proxy/Udp/Bounds.antt =====
-- The numbers in the key of a client are machine words.
use native.Mathlib.Nat.{mul-le-mul_right}
use mactainer.Base.{
  ℕ, zero, suc, ◌+◌, ◌*◌, ◌^◌, ◌<◌, ◌≤◌, ◌≡◌, refl, ap, ◌≢◌, inl, inr, Option-cases, List, [], ◌∷◌,
  none, some, length, take, drop, length-take, length-drop, nat_eq, arith,
}
use mactainer.Proxy.Addr.{NetAddr}
use mactainer.Proxy.Udp.Key.{ConnTrackKey, digits_from, big_endian, new_conn_track_key}
use mactainer.Proxy.Udp.Unique.{AreBytes, take-AreBytes, drop-AreBytes}

-- How many numbers `n` bytes can spell.
abbrev words : ℕ → ℕ
words zero = 1
words (suc n) = 256 * words n

-- Digits behind a number stay below the number's successor, shifted by as many places.
digits_from-bound :
    (acc : ℕ) (bs : List ℕ) → AreBytes bs → digits_from acc bs < (acc + 1) * words (length bs)
unfolding digits_from
digits_from-bound acc [] h = omega arith
digits_from-bound acc (b ∷ bs) h =
    let shorter : (acc * 256 + b + 1) * words (length bs) ≤ (acc + 1) * 256 * words (length bs) =
      mul-le-mul_right (words (length bs)) (omega (arith, h.0)) in
    omega (arith, shorter, digits_from-bound (acc * 256 + b) bs h.1)

-- Some bytes that are read as an unsigned number of `n` bytes.
big_endian-bound :
    (n : ℕ) (bs : List ℕ)
    → AreBytes bs
    → n ≤ length bs
    → (v : ℕ) × (big_endian n bs ≡ some v) × (v < words n)
unfolding big_endian
big_endian-bound n bs h enough =
    let exact : length (take n bs) ≡ n = omega (arith, length-take n bs) in
    (
      digits_from 0 (take n bs),
      ground arith,
      omega (arith, digits_from-bound 0 (take n bs) (take-AreBytes n bs h), ap words exact),
    )

big_endian-short : (n : ℕ) (bs : List ℕ) → length bs < n → big_endian n bs ≡ none
unfolding big_endian
big_endian-short n bs short = ground arith

-- For an IP of at least 16 bytes, or of just 4, the key of a client can be computed without a
-- panic, it has the client's port, and its two numbers are unsigned words of 64 bits, which for 4
-- bytes are zero and a word of 32 bits; for an IP of fewer than 16 bytes that are not 4, the
-- computation panics.
pub new_conn_track_key-bounds :
    (a : NetAddr)
    → AreBytes a.ip
    → (16 ≤ length a.ip
        → (k : ConnTrackKey) × (new_conn_track_key a ≡ some k)
          × (k.port ≡ a.port)
          × (k.ip_high < 2 ^ 64)
          × (k.ip_low < 2 ^ 64))
      × (length a.ip ≡ 4
          → (k : ConnTrackKey) × (new_conn_track_key a ≡ some k)
            × (k.port ≡ a.port)
            × (k.ip_high ≡ 0)
            × (k.ip_low < 2 ^ 32))
      × (length a.ip < 16 → length a.ip ≢ 4 → new_conn_track_key a ≡ none)
unfolding new_conn_track_key
new_conn_track_key-bounds a h = (
  λ long.
      let (high, eh, bh) =
        big_endian-bound 8 (take 8 a.ip) (take-AreBytes 8 a.ip h)
          (omega (arith, length-take 8 a.ip)) in
      let (low, el, bl) =
        big_endian-bound 8 (drop 8 a.ip) (drop-AreBytes 8 a.ip h)
          (omega (arith, length-drop 8 a.ip)) in
      (record { ip_high = high; ip_low = low; port = a.port }, ground arith, refl, bh, bl),
  λ four.
      let (low, el, bl) = big_endian-bound 4 a.ip h (omega arith) in
      (record { ip_high = 0; ip_low = low; port = a.port }, ground arith, refl, refl, bl),
  λ short odd.
      let low : big_endian 8 (drop 8 a.ip) ≡ none =
        big_endian-short 8 (drop 8 a.ip) (omega (arith, length-drop 8 a.ip)) in
      elim (Option-cases (big_endian 8 (take 8 a.ip))) [
        | inl e ↦ ground arith
        | inr (high, e) ↦ ground arith
      ],
)
