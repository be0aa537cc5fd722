-- ===== src/Proxy/Relay/Passing.antt =====
-- What the copies of a `clientLoop` pass on: in order, nothing twice, and all of it before they end
-- well.
use mathlib.Core.List.{append_assoc, append-nil}
use mactainer.Base.{
  inr, ℕ, ◌≡◌, refl, ap, sym, subst, ◌∙◌, Bool, true, false, List, [], ◌++◌, arith,
}
use mactainer.Proxy.Relay.{
  selecting, returned, both_done, selected, close_both, Connections, Relay, client_loop,
  end_to_client, end_to_backend, client_side_ends, backend_side_ends,
}
use mactainer.Proxy.Relay
use mactainer.Proxy.Relay.Traffic.{
  Directions, Pipe, idle, write, end, copy, break, Traffic, opened, Step, backend_writes,
  client_writes, backend_ends, client_ends, copies_down, copies_up, finishes_down, finishes_up,
  breaks_down, breaks_up, waits, Steps, stay, go,
}

-- What holds of one direction, while its copy is at work (`at_work`) and when it has ended.
pub record IsPassing (at_work : Bool) (p : Pipe) : Type 0 where
  pub in_order : p.sent ≡ p.arrived ++ p.unread
  pub whole : at_work ≡ false → p.broken ≡ false → (p.arrived ≡ p.sent) × (p.ended ≡ true)

idle-IsPassing : IsPassing true idle
idle-IsPassing = record { in_order = refl; whole = λ off. cc }

write-IsPassing :
    (b : Bool) (bs : List ℕ) (p : Pipe) → p.ended ≡ false → IsPassing b p → IsPassing b (write bs p)
unfolding write
write-IsPassing b bs p open_ v = record {
  in_order = rw v.in_order (append_assoc p.arrived p.unread bs);
  whole = λ off unbroken. absurd (ground (arith, v.whole off unbroken));
}

end-IsPassing : (b : Bool) (p : Pipe) → IsPassing b p → IsPassing b (end p)
unfolding end
end-IsPassing b p v = record {
  in_order = v.in_order;
  whole = λ off unbroken. ((v.whole off unbroken).0, refl);
}

copy-IsPassing :
    (b : Bool) (chunk rest : List ℕ) (p : Pipe)
    → b ≡ true
    → p.unread ≡ chunk ++ rest
    → IsPassing b p
    → IsPassing b (copy chunk rest p)
unfolding copy
copy-IsPassing b chunk rest p on e v = record {
  in_order = v.in_order ∙ ap (λ l. p.arrived ++ l) e ∙ sym (append_assoc p.arrived chunk rest);
  whole = λ off. cc;
}

finish-IsPassing :
    (b : Bool) (p : Pipe) → p.unread ≡ [] → p.ended ≡ true → IsPassing b p → IsPassing false p
finish-IsPassing b p e h v = record {
  in_order = v.in_order;
  whole = λ off unbroken. (sym (v.in_order ∙ ap (λ l. p.arrived ++ l) e ∙ append-nil p.arrived), h);
}

break-IsPassing : (b : Bool) (p : Pipe) → IsPassing b p → IsPassing false (break p)
break-IsPassing b p v = record { in_order = v.in_order; whole = λ off unbroken. cc }

module _ (C : Connections) (D : Directions C) where
  pub record Inv (t : Traffic C D) : Type 0 where
    pub down_passes : IsPassing t.relay.to_client t.down
    pub up_passes : IsPassing t.relay.to_backend t.up

  Step-Inv : {t u : Traffic C D} → Step C D t u → Inv t → Inv u
  unfolding end_to_client end_to_backend
  Step-Inv {t} (backend_writes bs h) v = record {
    down_passes = write-IsPassing t.relay.to_client bs t.down h v.down_passes;
    up_passes = v.up_passes;
  }
  Step-Inv {t} (client_writes bs h) v = record {
    down_passes = v.down_passes;
    up_passes = write-IsPassing t.relay.to_backend bs t.up h v.up_passes;
  }
  Step-Inv {t} backend_ends v = record {
    down_passes = end-IsPassing t.relay.to_client t.down v.down_passes;
    up_passes = v.up_passes;
  }
  Step-Inv {t} client_ends v = record {
    down_passes = v.down_passes;
    up_passes = end-IsPassing t.relay.to_backend t.up v.up_passes;
  }
  Step-Inv {t} (copies_down chunk rest on feeds e) v = record {
    down_passes = copy-IsPassing t.relay.to_client chunk rest t.down on e v.down_passes;
    up_passes = v.up_passes;
  }
  Step-Inv {t} (copies_up chunk rest on feeds e) v = record {
    down_passes = v.down_passes;
    up_passes = copy-IsPassing t.relay.to_backend chunk rest t.up on e v.up_passes;
  }
  Step-Inv {t} (finishes_down on feeds e h) v = record {
    down_passes = finish-IsPassing t.relay.to_client t.down e h v.down_passes;
    up_passes = v.up_passes;
  }
  Step-Inv {t} (finishes_up on feeds e h) v = record {
    down_passes = v.down_passes;
    up_passes = finish-IsPassing t.relay.to_backend t.up e h v.up_passes;
  }
  Step-Inv {t} (breaks_down on) v = record {
    down_passes = break-IsPassing t.relay.to_client t.down v.down_passes;
    up_passes = v.up_passes;
  }
  Step-Inv {t} (breaks_up on) v = record {
    down_passes = v.down_passes;
    up_passes = break-IsPassing t.relay.to_backend t.up v.up_passes;
  }
  Step-Inv {t} (waits one c b) v = record {
    down_passes = subst (λ x. IsPassing x t.down) (sym c) v.down_passes;
    up_passes = subst (λ x. IsPassing x t.up) (sym b) v.up_passes;
  }

  pub Steps-Inv : {t : Traffic C D} → Steps C D (opened C D) t → Inv t
  unfolding client_loop
  Steps-Inv stay = record { down_passes = idle-IsPassing; up_passes = idle-IsPassing }
  Steps-Inv (go way one) = Step-Inv one (Steps-Inv way)

  -- Every run with bytes is a run of the goroutines.
  pub relay_steps :
      {t : Traffic C D} → Steps C D (opened C D) t → Relay.Steps C (client_loop C true) t.relay
  relay_steps stay = Relay.stay
  relay_steps (go way (backend_writes bs h)) = relay_steps way
  relay_steps (go way (client_writes bs h)) = relay_steps way
  relay_steps (go way backend_ends) = relay_steps way
  relay_steps (go way client_ends) = relay_steps way
  relay_steps (go way (copies_down c r on f e)) = relay_steps way
  relay_steps (go way (copies_up c r on f e)) = relay_steps way
  relay_steps (go way (finishes_down on f e h)) = Relay.go (relay_steps way) (client_side_ends on)
  relay_steps (go way (finishes_up on f e h)) = Relay.go (relay_steps way) (backend_side_ends on)
  relay_steps (go way (breaks_down on)) = Relay.go (relay_steps way) (client_side_ends on)
  relay_steps (go way (breaks_up on)) = Relay.go (relay_steps way) (backend_side_ends on)
  relay_steps (go way (waits one c b)) = Relay.go (relay_steps way) one

  -- Where the connections let it, a copy that is at work passes on all that was sent and then ends
  -- with its source.
  pub down_drains :
      (t : Traffic C D)
      → IsPassing t.relay.to_client t.down
      → t.relay.to_client ≡ true
      → D.feeds_client t.relay.connections ≡ true
      → (u : Traffic C D) × Steps C D t u
        × (u.relay ≡ end_to_client C t.relay)
        × (u.up ≡ t.up)
        × (u.down.arrived ≡ t.down.sent)
        × (u.down.broken ≡ t.down.broken)
  unfolding copy end
  down_drains t v on feeds = (
    _,
    go
        (go (go stay (copies_down t.down.unread [] on feeds (sym (append-nil t.down.unread))))
          backend_ends)
        (finishes_down on feeds refl refl),
    refl,
    refl,
    sym v.in_order,
    refl,
  )

  pub up_drains :
      (t : Traffic C D)
      → IsPassing t.relay.to_backend t.up
      → t.relay.to_backend ≡ true
      → D.feeds_backend t.relay.connections ≡ true
      → (u : Traffic C D) × Steps C D t u
        × (u.relay ≡ end_to_backend C t.relay)
        × (u.down ≡ t.down)
        × (u.up.arrived ≡ t.up.sent)
        × (u.up.broken ≡ t.up.broken)
  unfolding copy end
  up_drains t v on feeds = (
    _,
    go (go (go stay (copies_up t.up.unread [] on feeds (sym (append-nil t.up.unread)))) client_ends)
        (finishes_up on feeds refl refl),
    refl,
    refl,
    sym v.in_order,
    refl,
  )

  pub chained : {t u v : Traffic C D} → Steps C D t u → Steps C D u v → Steps C D t v
  chained before stay = before
  chained before (go after one) = go (chained before after) one

  -- The copies have ended, so `clientLoop` wakes up, closes both connections and returns.
  pub loop_returns :
      (t : Traffic C D)
      → t.relay.phase ≡ selecting
      → t.relay.to_client ≡ false
      → t.relay.to_backend ≡ false
      → (u : Traffic C D) × Steps C D t u
        × (u.relay.phase ≡ returned)
        × (u.down ≡ t.down)
        × (u.up ≡ t.up)
  unfolding close_both
  loop_returns t at_ a b = (
    _,
    go (go (go stay (waits (both_done a b) refl refl)) (waits (selected at_ (inr refl)) refl refl))
        (waits (Relay.returns refl refl) refl refl),
    refl,
    refl,
    refl,
  )
