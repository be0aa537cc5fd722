-- ===== src/Command/Stop.antt =====
-- cmd/mct/cmd/stop.go
use mactainer.Base.{
  ℕ, String, ◌<>◌, Bool, true, false, ◌==◌, string_eq, if◌then◌else◌, pure, fail, attempt, ◌>>=◌,
  ◌>>◌,
}
use mactainer.Errors.{message, wrapped, is_ok}
use mactainer.Host.{Host}
use mactainer.Host.Action.{Retry, stop_host, kill_host}
use mactainer.Store.{Filestore, exists, remove_machine}
use mactainer.Client.{Library, on_disk, load_host}
use mactainer.Command.{
  returns, exits, state_running, state_stopped, Cmd, or_else, or_return, or_exit, or_panic, call,
  with_client, wait_for,
}

module _ (L : Library) (lower : String → String) (retry : Retry L.Machines) (rounds : ℕ)
    (s : Filestore) (name : String) where
  -- The machine is stopped, or killed if it cannot be.
  unfoldable pub stop_or_kill : Host L.RpcDriver → Cmd L (Unit {0})
  stop_or_kill h = do
    halted ←
        or_panic L (stop_host L.Machines L.methods lower retry h) (λ f. or_return L (attempt f))
    if is_ok halted
        then pure tt
        else or_panic L (kill_host L.Machines L.methods lower retry h) (or_exit L)

  -- `--remove`
  unfoldable pub remove_stopped : Host L.RpcDriver → Cmd L (Unit {0})
  remove_stopped h = do
    call L h (λ m. wait_for L rounds m state_stopped 15 "") (or_exit L)
    or_exit L (on_disk L (remove_machine s name))

  unfoldable pub stop_loaded : Bool → Host L.RpcDriver → Cmd L (Unit {0})
  unfolding stop_or_kill remove_stopped
  stop_loaded remove h = do
    state ←
        call L h (λ m. m.get_state)
          (or_else L (λ e. returns (wrapped "could not get state from the machine" e)))
    (if state == state_running
        then pure tt
        else fail (exits (message ("cannot stop a machine in state: " <> state))))
    stop_or_kill h
    if remove then remove_stopped h else pure tt

  unfoldable pub stop_found : Bool → Bool → Cmd L (Unit {0})
  unfolding stop_loaded
  stop_found remove false = pure tt
  stop_found remove true = do
    h ← or_else L (λ e. returns (wrapped "error loading host" e)) (load_host L s name)
    stop_loaded remove h

  unfoldable pub stop_opened : Bool → Cmd L (Unit {0})
  unfolding stop_found
  stop_opened remove = do
    found ← or_else L (λ e. returns (message "could find the machine")) (on_disk L (exists s name))
    stop_found remove found

  -- `RunE` of the command, with the flag `--remove`
  unfoldable pub stop : Bool → Cmd L (Unit {0})
  unfolding stop_opened
  stop remove = with_client L (stop_opened remove)
