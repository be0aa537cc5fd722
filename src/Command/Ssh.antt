-- ===== src/Command/Ssh.antt =====
-- cmd/mct/cmd/ssh.go
use mactainer.Base.{
  String, ◌<>◌, ◌==◌, string_eq, if◌then◌else◌, List, [], ◌∷◌, Result, err, pure, fail, attempt,
  ◌>>=◌, ◌>>◌,
}
use mactainer.Errors.{message}
use mactainer.Json.{Content}
use mactainer.Fs.{FilePath, path_text, temp_file, update_file, chmod, remove, close_file}
use mactainer.Host.{Host}
use mactainer.Store.{Filestore}
use mactainer.Client.{Library, System, Sys, on_disk, load_host}
use mactainer.Command.{Failure, exits, state_running, Cmd, or_return, or_exit, call, with_client}

-- The arguments of the program ssh
unfoldable pub ssh_args : FilePath → List String
unfolding path_text
ssh_args key =
    "-i"
    ∷ path_text key
    ∷ "-p"
    ∷ "2022"
    ∷ "core@localhost"
    ∷ "-o"
    ∷ "UserKnownHostsFile /dev/null"
    ∷ "-o"
    ∷ "StrictHostKeyChecking no"
    ∷ []

-- `bytes_of` are the bytes of a Go string, `tmp` is `os.TempDir()`, and `program` runs ssh.
module _ (L : Library) (s : Filestore) (bytes_of : String → Content) (tmp : FilePath)
    (program : List String → Sys L (Unit {0})) where
  -- `os.Remove(privKey.Name())`, then `privKey.Close()`; their errors are dropped.
  abbrev pub drop_key : FilePath → System L → System L
  drop_key key sys = (on_disk L close_file (on_disk L (remove key) sys).1).1

  abbrev pub after_key :
      FilePath → Result Failure (Unit {0}) → System L → Result Failure (Unit {0}) × System L
  after_key key (err (exits e)) sys = (err (exits e), sys)
  after_key key r sys = (r, drop_key key sys)

  -- What is deferred once the key's file is there; the end of the process skips it.
  abbrev pub with_key : FilePath → Cmd L (Unit {0}) → Cmd L (Unit {0})
  with_key key body sys = after_key key (body sys).0 (body sys).1

  -- The key is written to its file, which is empty, and the program is run.
  unfoldable pub connect : Host L.RpcDriver → FilePath → Cmd L (Unit {0})
  unfolding ssh_args
  connect h key = do
    or_exit L (on_disk L (update_file key (λ old. bytes_of h.private_key)))
    or_return L (attempt (on_disk L (chmod key 0o400)))
    or_return L (attempt (program (ssh_args key)))
    pure tt

  -- `Run` of the command
  unfoldable pub ssh : Cmd L (Unit {0})
  unfolding connect
  ssh = with_client L (do
    h ← or_exit L (load_host L s "mct")
    state ← call L h (λ m. m.get_state) (or_exit L)
    (if state == state_running
        then pure tt
        else fail
            (exits (message ("cannot ssh to a machine that is not running (" <> state <> ")"))))
    key ← or_exit L (on_disk L (temp_file tmp "mct-ssh-"))
    with_key key (connect h key))
