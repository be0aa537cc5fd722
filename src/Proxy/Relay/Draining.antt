-- ===== src/Proxy/Relay/Draining.antt =====
-- What relayed connections keep open, and that their goroutines end.
use mactainer.Base.{◌≡◌, refl, ap, ◌∙◌, ◌≢◌, inr, Bool, true, false, arith}
use mactainer.Proxy.Relay.{
  Connections, LoopPhase, selecting, draining, returned, Relay, client_loop, end_to_client,
  end_to_backend, close_both, Step, client_side_ends, backend_side_ends, both_done, proxy_ends,
  selected, returns, Steps, stay, go,
}

-- Connections whose state depends only on which copies are at work, until they are closed for good.
pub record IsRelayed (C : Connections) (while_copying : Bool → Bool → C.State) : Type 0 where
  pub opens : C.opened ≡ while_copying true true
  pub client_ends : (b : Bool) → C.client_copied (while_copying true b) ≡ while_copying false b
  pub backend_ends : (a : Bool) → C.backend_copied (while_copying a true) ≡ while_copying a false
  pub closes : (s : C.State) → C.close_both s ≡ while_copying false false
  pub without : C.undialled ≡ while_copying false false
  pub client_ends_closed : C.client_copied (while_copying false false) ≡ while_copying false false
  pub backend_ends_closed : C.backend_copied (while_copying false false) ≡ while_copying false false

module _ (C : Connections) (while_copying : Bool → Bool → C.State)
    (lawful : IsRelayed C while_copying) where
  abbrev pub shut : C.State
  shut = while_copying false false

  pub record Inv (r : Relay C) : Type 0 where
    -- While the loop waits, the connections are as the copies that are at work leave them.
    pub waiting : r.phase ≡ selecting → r.connections ≡ while_copying r.to_client r.to_backend
    -- Behind the wait both connections are closed.
    pub closed : r.phase ≢ selecting → r.connections ≡ shut
    pub finished : r.finish ≡ true → (r.to_client ≡ false) × (r.to_backend ≡ false)
    pub drained : r.phase ≡ returned → r.finish ≡ true

  Step-Inv : {r s : Relay C} → Step C r s → Inv r → Inv s
  unfolding end_to_client end_to_backend close_both
  Step-Inv {r} (client_side_ends at_work) v = record {
    waiting =
        λ h. ap C.client_copied (rw at_work at (v.waiting h)) ∙ lawful.client_ends r.to_backend;
    closed = λ h. ap C.client_copied (v.closed h) ∙ lawful.client_ends_closed;
    finished = λ h. ground (arith, v.finished h);
    drained = v.drained;
  }
  Step-Inv {r} (backend_side_ends at_work) v = record {
    waiting =
        λ h. ap C.backend_copied (rw at_work at (v.waiting h)) ∙ lawful.backend_ends r.to_client;
    closed = λ h. ap C.backend_copied (v.closed h) ∙ lawful.backend_ends_closed;
    finished = λ h. ground (arith, v.finished h);
    drained = v.drained;
  }
  Step-Inv (both_done a b) v = record {
    waiting = v.waiting;
    closed = v.closed;
    finished = λ h. (a, b);
    drained = λ h. refl;
  }
  Step-Inv proxy_ends v = record {
    waiting = v.waiting;
    closed = v.closed;
    finished = v.finished;
    drained = v.drained;
  }
  Step-Inv {r} (selected at_select woken) v = record {
    waiting = λ h. cc;
    closed = λ h. lawful.closes r.connections;
    finished = v.finished;
    drained = λ h. cc;
  }
  Step-Inv (returns at_drain done) v = record {
    waiting = λ h. cc;
    closed = λ h. v.closed (λ e. ground arith);
    finished = v.finished;
    drained = λ h. done;
  }

  client_loop-Inv : (dialled : Bool) → Inv (client_loop C dialled)
  unfolding client_loop
  client_loop-Inv true = record {
    waiting = λ h. lawful.opens;
    closed = λ h. absurd (h refl);
    finished = λ h. cc;
    drained = λ h. cc;
  }
  client_loop-Inv false = record {
    waiting = λ h. cc;
    closed = λ h. lawful.without;
    finished = λ h. (refl, refl);
    drained = λ h. refl;
  }

  Steps-Inv : {r s : Relay C} → Steps C r s → Inv r → Inv s
  Steps-Inv stay v = v
  Steps-Inv (go st one) v = Step-Inv one (Steps-Inv st v)

  pub reached-Inv : (dialled : Bool) {r : Relay C} → Steps C (client_loop C dialled) r → Inv r
  reached-Inv dialled reached = Steps-Inv reached (client_loop-Inv dialled)

  chained : {r s t : Relay C} → Steps C r s → Steps C s t → Steps C r t
  chained before stay = before
  chained before (go after one) = go (chained before after) one

  -- The copies that are still at work end.
  copies_end :
      (a b : Bool) (r : Relay C)
      → r.to_client ≡ a
      → r.to_backend ≡ b
      → (s : Relay C) × Steps C r s × (s.to_client ≡ false) × (s.to_backend ≡ false)
  unfolding end_to_client end_to_backend
  copies_end true true r ea eb = (
    end_to_backend C (end_to_client C r),
    go (go stay (client_side_ends ea)) (backend_side_ends eb),
    refl,
    refl,
  )
  copies_end true false r ea eb = (end_to_client C r, go stay (client_side_ends ea), refl, eb)
  copies_end false true r ea eb = (end_to_backend C r, go stay (backend_side_ends eb), ea, refl)
  copies_end false false r ea eb = (r, stay, ea, eb)

  loop_ends :
      (p : LoopPhase) (r : Relay C)
      → r.phase ≡ p
      → r.to_client ≡ false
      → r.to_backend ≡ false
      → (s : Relay C) × Steps C r s × (s.phase ≡ returned)
  unfolding close_both
  loop_ends selecting r at_ a b =
      (_, go (go (go stay (both_done a b)) (selected at_ (inr refl))) (returns refl refl), refl)
  loop_ends draining r at_ a b = (_, go (go stay (both_done a b)) (returns at_ refl), refl)
  loop_ends returned r at_ a b = (r, stay, at_)

  -- The loop has returned, no copy is at work, and both connections are closed.
  pub record HasDrained (r : Relay C) : Type 0 where
    pub has_returned : r.phase ≡ returned
    pub client_idle : r.to_client ≡ false
    pub backend_idle : r.to_backend ≡ false
    pub all_shut : r.connections ≡ shut

  pub returned-HasDrained : {r : Relay C} → Inv r → r.phase ≡ returned → HasDrained r
  returned-HasDrained v h = record {
    has_returned = h;
    client_idle = (v.finished (v.drained h)).0;
    backend_idle = (v.finished (v.drained h)).1;
    all_shut = v.closed (λ e. ground arith);
  }

  -- From every state that is reached there are steps after which the loop has returned and all is
  -- shut.
  pub reached-HasDrained :
      (dialled : Bool) {r : Relay C}
      → Steps C (client_loop C dialled) r
      → (s : Relay C) × Steps C r s × HasDrained s
  reached-HasDrained dialled {r = r} reached =
      let (s, ended, a, b) = copies_end r.to_client r.to_backend r refl refl in
      let (t, left, done) = loop_ends s.phase s refl a b in
      let way = chained ended left in
      (t, way, returned-HasDrained (Steps-Inv way (reached-Inv dialled reached)) done)
