-- ===== src/Command.antt =====
-- cmd/mct: how a command ends, and what the commands share.
pub mod Config
pub mod Driver
pub mod Main
pub mod Ending
pub mod Root
pub mod Initializing
pub mod Daemon
pub mod Serving
pub mod Lasting
pub mod Stop
pub mod Run
pub mod Ssh
pub mod Connecting
pub mod Setup
pub mod Downloading
pub mod Preparing
pub mod Installing
pub mod Agreement
pub mod Stopping
pub mod Running
use mactainer.Base.{
  ℕ, zero, suc, String, ◌<>◌, ◌≡◌, Bool, true, false, ◌==◌, string_eq, if◌then◌else◌, Option, none,
  some, Result, ok, err, Action, pure, fail, attempt, ◌>>=◌, ◌>>◌,
}
use mactainer.Base.Decimal.{decimal}
use mactainer.Base.Int.{pos}
use mactainer.Errors.{GoError, message}
use mactainer.Host.{Host}
use mactainer.Host.Action.{State, Methods, methods_of}
use mactainer.Client.{Library, System, Sys, on_machines}

-- A command that does not succeed returns an error to cobra, ends the process at once by
-- `cobra.CheckErr`, or panics on a nil driver.
pub data Failure : Type 0 where
  returns : GoError → Failure
  exits : GoError → Failure
  panics : Failure

abbrev pub state_running : State
state_running = "Running"

abbrev pub state_stopped : State
state_stopped = "Stopped"

abbrev pub failing {ℓ} : {A : Type ℓ} → (GoError → Failure) → Result GoError A → Result Failure A
failing how (ok a) = ok a
failing how (err e) = err (how e)

module _ (L : Library) where
  abbrev pub Cmd : Type 0 → Type 0
  Cmd A = Action (System L) Failure A

  -- `if err := f(); err != nil`, with what is done then
  abbrev pub or_else : {A : Type 0} → (GoError → Failure) → Sys L A → Cmd A
  or_else how f s = (failing how (f s).0, (f s).1)

  abbrev pub or_return : {A : Type 0} → Sys L A → Cmd A
  or_return = or_else returns

  -- `cobra.CheckErr(f())`
  abbrev pub or_exit : {A : Type 0} → Sys L A → Cmd A
  or_exit = or_else exits

  abbrev pub or_panic :
      {A B : Type 0} → Option (Action L.Machines GoError A) → (Sys L A → Cmd B) → Cmd B
  or_panic none then_ = fail panics
  or_panic (some f) then_ = then_ (on_machines L f)

  abbrev pub call_of :
      {A B : Type 0}
      → (Methods L.Machines → Action L.Machines GoError A)
      → (Sys L A → Cmd B)
      → Option (Methods L.Machines)
      → Cmd B
  call_of pick then_ none = fail panics
  call_of pick then_ (some m) = then_ (on_machines L (pick m))

  -- A call of a method of the driver behind a host
  abbrev pub call :
      {A B : Type 0}
      → Host L.RpcDriver
      → (Methods L.Machines → Action L.Machines GoError A)
      → (Sys L A → Cmd B)
      → Cmd B
  call h pick then_ = call_of pick then_ (methods_of L.Machines L.methods h.driver)

  abbrev pub close_client : System L → System L
  close_client s = (on_machines L L.close s).1

  abbrev pub after_body : {A : Type 0} → Result Failure A → System L → Result Failure A × System L
  after_body (err (exits e)) s = (err (exits e), s)
  after_body r s = (r, close_client s)

  -- `defer cleanup()`: it runs on every way out but the end of the process.
  abbrev pub with_client : {A : Type 0} → Cmd A → Cmd A
  with_client body s = after_body (body s).0 (body s).1

  -- `waitForMachineState(machine, state, timeout)`, where the clock lets the loop turn `rounds` times
  -- and `last` is the state that was seen last
  unfoldable pub wait_for :
      ℕ → Methods L.Machines → State → ℕ → String → Action L.Machines GoError (Unit {0})
  wait_for zero m state timeout last = fail (
      message (
        "machine did not reach "
        <> state
        <> " in "
        <> decimal (pos timeout)
        <> " seconds, host reports "
        <> last))
  wait_for (suc rounds) m state timeout last = do
    current ← m.get_state
    if current == state then pure tt else wait_for rounds m state timeout current
