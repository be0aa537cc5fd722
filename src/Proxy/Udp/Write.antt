-- ===== src/Proxy/Udp/Write.antt =====
-- The loops that write a datagram out piece by piece, and the goroutine that carries replies back.
use mactainer.Base.{
  ℕ, ◌+◌, Bool, true, false, List, [], ◌∷◌, length, take, drop, ltb, if◌then◌else◌,
}

-- What one `Write` of the bytes that are left reports.
pub data Written : Type 0 where
  wrote : ℕ → Written
  write_failed : Written

-- How `for i := 0; i != read;` ends: `i` reached `read`, a write failed, `i` passed `read` and the
-- slice panics, or a write has not returned.
pub data Status : Type 0 where
  all_sent gave_up panicked blocked : Status

pub record Sent : Type 0 where
  pub pieces : List (List ℕ)
  pub unsent : List ℕ
  pub status : Status

abbrev pub stopped : List ℕ → Status → Sent
stopped rest s = record { pieces = []; unsent = rest; status = s }

abbrev pub after_piece : List ℕ → Sent → Sent
after_piece piece s = record s { pieces = piece ∷ s.pieces }

-- The loop over `readBuf[i:read]`, given what the writes report in turn.
unfoldable pub send : List Written → List ℕ → Sent
send [] [] = stopped [] all_sent
send (r ∷ rs) [] = stopped [] all_sent
send [] (b ∷ bs) = stopped (b ∷ bs) blocked
send (write_failed ∷ rs) (b ∷ bs) = stopped (b ∷ bs) gave_up
send (wrote n ∷ rs) (b ∷ bs) =
    let rest = after_piece (take n (b ∷ bs)) (send rs (drop n (b ∷ bs))) in
    if ltb (length (b ∷ bs)) n then stopped (b ∷ bs) panicked else rest

-- UDPConnTrackTimeout in seconds, and UDPBufSize
abbrev pub udp_conn_track_timeout : ℕ
udp_conn_track_timeout = 90

abbrev pub udp_buf_size : ℕ
udp_buf_size = 65507

-- How a `Read` of a reply ends: with a datagram, the reports of the writes to the client and the
-- time when the loop comes round; with ECONNREFUSED; or with another error.
pub data Reply : Type 0 where
  received : List ℕ → List Written → (resumed : ℕ) → Reply
  refused : Reply
  failed : Reply

-- A `Read` that ends at a time. One that would end behind the deadline ends there with a timeout.
pub record ReadEvent : Type 0 where
  pub at : ℕ
  pub reply : Reply

-- What `replyLoop` has done with some reads: the replies that it passed on, and whether it returned,
-- or else the deadline under which it waits.
pub record Replied : Type 0 where
  pub passed_on : List Sent
  pub returned : Bool
  pub deadline : ℕ

abbrev pub ended : ℕ → Replied
ended deadline = record { passed_on = []; returned = true; deadline = deadline }

abbrev pub passing : Sent → Replied → Replied
passing s r = record r { passed_on = s ∷ r.passed_on }

abbrev pub is_sent : Status → Bool
is_sent all_sent = true
is_sent _ = false

-- After the loop over the pieces: round again, or return.
abbrev pub after_send : ℕ → Sent → Replied → Replied
after_send deadline s on = passing s (if is_sent s.status then on else ended deadline)

-- One turn, where `on` is the rest of the run under a deadline.
abbrev pub reply_turn : ℕ → Reply → (ℕ → Replied) → Replied
reply_turn deadline failed on = ended deadline
reply_turn deadline refused on = on deadline
reply_turn deadline (received bytes writes resumed) on =
    after_send deadline (send writes (take udp_buf_size bytes))
      (on (resumed + udp_conn_track_timeout))

-- The loop of `replyLoop` under a deadline. `goto again` reads under the same one.
unfoldable pub reply_loop : ℕ → List ReadEvent → Replied
reply_loop deadline [] = record { passed_on = []; returned = false; deadline = deadline }
reply_loop deadline (e ∷ es) =
    let on = reply_turn deadline e.reply (λ d. reply_loop d es) in
    if ltb deadline e.at then ended deadline else on
