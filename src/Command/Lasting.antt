-- ===== src/Command/Lasting.antt =====
-- How long the daemon runs, and what ends it.
use mathlib.Core.Bool.{cond}
use mactainer.Base.{
  Bool, true, false, Option-cases, String, ◌≡◌, refl, ap, ◌∙◌, ◌↔◌, ◌⊎◌, inl, inr, Option, none,
  some, List, [], ◌∷◌, ◌++◌, map, Result, ok, arith, Result-cases, err≢ok,
}
use mactainer.Errors.{GoError}
use mactainer.Fs.{FilePath, World}
use mactainer.Command.Config.{machine_name, machine_dir}
use mactainer.Command.Daemon.{
  VirtualNetwork, Event, signal, api_failed, gateway_failed, guest, await, bring_up, run_daemon,
  DaemonContext, child_process, reborn_as, new_virtual_network_config,
}

abbrev guests : List (Result GoError (Unit {0})) → List Event
guests = map guest

-- Of the events that can end the daemon, a signal came first.
abbrev pub IsSignalled : List Event → Type 0
IsSignalled es =
    (rs : List (Result GoError (Unit {0}))) × (later : List Event) × (es
      ≡ guests rs ++ signal ∷ later)

-- None of them came.
abbrev pub IsQuiet : List Event → Type 0
IsQuiet es = (rs : List (Result GoError (Unit {0}))) × (es ≡ guests rs)

guest-IsSignalled :
    (r : Result GoError (Unit {0})) (es : List Event) → IsSignalled (guest r ∷ es) → IsSignalled es
guest-IsSignalled r es ([], later, h) = cc
guest-IsSignalled r es (q ∷ rs, later, h) = (rs, later, cc)

guest-IsQuiet :
    (r : Result GoError (Unit {0})) (es : List Event) → IsQuiet (guest r ∷ es) → IsQuiet es
guest-IsQuiet r es ([], h) = cc
guest-IsQuiet r es (q ∷ rs, h) = (rs, cc)

-- Nothing but a signal or a guest stands first in such a list.
signalled_head :
    (e : Event) (es : List Event)
    → IsSignalled (e ∷ es)
    → (e ≡ signal) ⊎ ((r : Result GoError (Unit {0})) × (e ≡ guest r))
signalled_head e es ([], later, h) = inl cc
signalled_head e es (r ∷ rs, later, h) = inr (r, cc)

quiet_head :
    (e : Event) (es : List Event)
    → IsQuiet (e ∷ es)
    → (r : Result GoError (Unit {0})) × (e ≡ guest r)
quiet_head e es ([], h) = cc
quiet_head e es (r ∷ rs, h) = (r, cc)

no_event : ¬ IsSignalled []
no_event ([], later, h) = cc
no_event (r ∷ rs, later, h) = cc

await-IsSignalled : (es : List Event) → (await es ≡ some (ok tt)) ↔ IsSignalled es
unfolding await
await-IsSignalled [] = (λ h. cc, λ h. absurd (no_event h))
await-IsSignalled (signal ∷ es) = (λ h. ([], es, refl), λ h. refl)
await-IsSignalled (api_failed e ∷ es) =
    (λ h. cc, λ h. absurd (ground (arith, signalled_head (api_failed e) es h)))
await-IsSignalled (gateway_failed e ∷ es) =
    (λ h. cc, λ h. absurd (ground (arith, signalled_head (gateway_failed e) es h)))
await-IsSignalled (guest r ∷ es) =
    let (to, from) = await-IsSignalled es in
    (
      λ h. let (rs, later, e) = to h in (r ∷ rs, later, ap (λ l. guest r ∷ l) e),
      λ h. from (guest-IsSignalled r es h),
    )

await-IsQuiet : (es : List Event) → (await es ≡ none) ↔ IsQuiet es
unfolding await
await-IsQuiet [] = (λ h. ([], refl), λ h. refl)
await-IsQuiet (signal ∷ es) = (λ h. cc, λ h. absurd (ground (arith, quiet_head signal es h)))
await-IsQuiet (api_failed e ∷ es) =
    (λ h. cc, λ h. absurd (ground (arith, quiet_head (api_failed e) es h)))
await-IsQuiet (gateway_failed e ∷ es) =
    (λ h. cc, λ h. absurd (ground (arith, quiet_head (gateway_failed e) es h)))
await-IsQuiet (guest r ∷ es) =
    let (to, from) = await-IsQuiet es in
    (λ h. let (rs, e) = to h in (r ∷ rs, ap (λ l. guest r ∷ l) e), λ h. from (guest-IsQuiet r es h))

-- Whether a process has not ended
abbrev pub goes_on : Result GoError (Option (Unit {0})) → Bool
goes_on (ok none) = true
goes_on _ = false

module _ (net : VirtualNetwork) (home : FilePath) (ctx : DaemonContext) (pcap_file : String)
    (es : List Event) where
  -- The daemon's process, once it is reborn: it ends well exactly if it came up and a signal was
  -- the first of all that can end it; it goes on exactly if it came up and only guests have come
  -- since, however they fared; and when it ends, and not before, it releases its context, with the
  -- files otherwise as coming up has left them.
  pub reborn_as_iff :
      (w : World)
      → let up =
          bring_up net home
            (machine_name ∷ machine_dir home)
            (new_virtual_network_config pcap_file)
            w in
        let r = reborn_as net home ctx pcap_file es child_process w in
        ((r.0 ≡ ok (some tt)) ↔ ((up.0 ≡ ok tt) × IsSignalled es))
        × ((r.0 ≡ ok none) ↔ ((up.0 ≡ ok tt) × IsQuiet es))
        × (r.1 ≡ cond (goes_on r.0) up.1 (ctx.release up.1).1)
  unfolding reborn_as run_daemon
  reborn_as_iff w =
      elim (Result-cases
        (bring_up net home (machine_name ∷ machine_dir home) (new_virtual_network_config pcap_file)
          w).0) [
            | inr (e, failed) ↦
                rw failed
                  ((λ h. cc, λ h. absurd (err≢ok h.0)), (λ h. cc, λ h. absurd (err≢ok h.0)), refl)
            | inl (_, came) ↦
                let (signalled, on_signal) = await-IsSignalled es in
                let (quiet, on_quiet) = await-IsQuiet es in
                elim (Option-cases (await es)) [
                  | inl going ↦
                      rw (came, going)
                        (
                          (λ h. cc, λ h. let e = on_signal h.1 in cc),
                          (λ h. (refl, quiet going), λ h. refl),
                          refl,
                        )
                  | inr (r, over) ↦ elim (Result-cases r) [
                    | inl (_, well) ↦
                        rw (came, over, well)
                          (
                            (λ h. (refl, signalled (over ∙ ap some well)), λ h. refl),
                            (λ h. cc, λ h. let e = on_quiet h.1 in cc),
                            refl,
                          )
                    | inr (e, badly) ↦
                        rw (came, over, badly)
                          (
                            (λ h. cc, λ h. let e = on_signal h.1 in cc),
                            (λ h. cc, λ h. let e = on_quiet h.1 in cc),
                            refl,
                          )
                  ]
                ]
          ]
