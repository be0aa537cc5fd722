-- ===== src/Proxy/Udp/Delivery.antt =====
-- What the write loops and the reply loop deliver.
use mathlib.Core.List.{flatten, append_assoc}
use mactainer.Base.{
  ℕ, suc, ◌-◌, ◌≤◌, ◌<◌, ◌≡◌, refl, ap, ◌∙◌, ◌↔◌, false, List, [], ◌∷◌, map, ◌⊎◌, inl, inr,
  Bool-cases, ◌++◌, length, take, drop, ltb, arith, take-append-drop, length-drop,
}
use mactainer.Proxy.Udp.Write.{
  Written, wrote, write_failed, all_sent, Sent, send, Reply, received, refused, failed, ReadEvent,
  Replied, reply_loop, ended, udp_buf_size,
}

-- Whatever the writes report, the pieces that went out and the bytes that are left are the
-- datagram, in order and once each; and the loop ends well exactly when nothing is left.
pub send-prefix :
    (rs : List Written) (bs : List ℕ)
    → (flatten (send rs bs).pieces ++ (send rs bs).unsent ≡ bs)
      × (((send rs bs).status ≡ all_sent) ↔ ((send rs bs).unsent ≡ []))
unfolding send flatten
send-prefix [] [] = (refl, (λ _. refl, λ _. refl))
send-prefix (r ∷ rs) [] = (refl, (λ _. refl, λ _. refl))
send-prefix [] (b ∷ bs) = (refl, (λ h. cc, λ h. cc))
send-prefix (write_failed ∷ rs) (b ∷ bs) = (refl, (λ h. cc, λ h. cc))
send-prefix (wrote n ∷ rs) (b ∷ bs) = elim (Bool-cases (ltb (length (b ∷ bs)) n)) [
  | inl beyond ↦ rw beyond (refl, (λ h. cc, λ h. cc))
  | inr within ↦
      let (whole, ends) = send-prefix rs (drop n (b ∷ bs)) in
      rw within (
        append_assoc (take n (b ∷ bs)) _ _
            ∙ ap (λ r. take n (b ∷ bs) ++ r) whole
            ∙ take-append-drop n (b ∷ bs),
        ends,
      )
]

-- Writes that take something each time, and no more than is left.
abbrev pub MakeProgress : List Written → ℕ → Type 0
MakeProgress [] left = Unit
MakeProgress (write_failed ∷ rs) left = ⊥
MakeProgress (wrote n ∷ rs) left = (0 < n) × ((left ≡ 0) ⊎ (n ≤ left)) × MakeProgress rs (left - n)

-- The loop ends with everything sent after at most as many writes as there are bytes, if each write
-- takes something.
pub send-all_sent :
    (rs : List Written) (bs : List ℕ)
    → MakeProgress rs (length bs)
    → length bs ≤ length rs
    → (send rs bs).status ≡ all_sent
unfolding send
send-all_sent [] [] p h = refl
send-all_sent (r ∷ rs) [] p h = refl
send-all_sent [] (b ∷ bs) p h = absurd (omega arith)
send-all_sent (write_failed ∷ rs) (b ∷ bs) p h = absurd p
send-all_sent (wrote n ∷ rs) (b ∷ bs) p h =
    let left : length (drop n (b ∷ bs)) ≡ suc (length bs) - n = length-drop n (b ∷ bs) in
    let rest = send-all_sent rs (drop n (b ∷ bs)) (rw left p.2) (omega arith) in
    ground (arith, rest)

abbrev pub refusals : List ℕ → List ReadEvent
refusals = map λ t. record { at = t; reply = refused }

abbrev pub AllUntil : ℕ → List ℕ → Type 0
AllUntil deadline [] = Unit
AllUntil deadline (t ∷ ts) = (t ≤ deadline) × AllUntil deadline ts

-- Refused reads do not put the deadline off: however many there are, the goroutine returns at the
-- first read that ends behind the deadline set after the last reply.
pub reply_loop-refusals :
    (deadline : ℕ) (ts : List ℕ) (e : ReadEvent) (es : List ReadEvent)
    → AllUntil deadline ts
    → deadline < e.at
    → reply_loop deadline (refusals ts ++ e ∷ es) ≡ ended deadline
unfolding reply_loop
reply_loop-refusals deadline [] e es h late = ground arith
reply_loop-refusals deadline (t ∷ ts) e es h late =
    ground (arith, reply_loop-refusals deadline ts e es h.1)

-- The datagram that a run of the write loop was given.
abbrev pub datagram_of : Sent → List ℕ
datagram_of s = flatten s.pieces ++ s.unsent

abbrev pub with_reply : Reply → List (List ℕ) → List (List ℕ)
with_reply (received bytes _ _) rest = take udp_buf_size bytes ∷ rest
with_reply refused rest = rest
with_reply failed rest = rest

-- The replies among some reads, each cut to the buffer.
abbrev pub replies : List ReadEvent → List (List ℕ)
replies [] = []
replies (e ∷ es) = with_reply e.reply (replies es)

-- A run that was given all these replies has passed on the first of them, in order; and all of them
-- while it has not returned.
abbrev pub PassesOn : Replied → List (List ℕ) → Type 0
PassesOn r all =
    (map datagram_of r.passed_on ≡ take (length r.passed_on) all)
    × (r.returned ≡ false → length r.passed_on ≡ length all)
