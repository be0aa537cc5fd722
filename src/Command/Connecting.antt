-- ===== src/Command/Connecting.antt =====
-- What the command ssh does with the private key of the machine.
use mactainer.Base.{String, ◌≡◌, refl, none, some, List, [], ◌∷◌, ok, err, list_eq, string_eq}
use mactainer.Base.Dict
use mactainer.Base.Dict.{lookup-insert, insert-insert, erase-insert}
use mactainer.Errors.{errno, eio}
use mactainer.Json.{Content, empty}
use mactainer.Fs.{
  FilePath, dir, file, Files, works, tears, resolve, fresh_name, update_file, chmod, close_file,
}
use mactainer.Fs.Quiet.{quiet, edited-insert, resolve-made, temp_file_works, remove-insert}
use mactainer.Fs.Temp.{fresh_name-none}
use mactainer.Host.{Host}
use mactainer.Host.Action.{Methods, methods_of}
use mactainer.Store.{Filestore}
use mactainer.Client.{Library, System, Sys, load_host}
use mactainer.Command.{exits}
use mactainer.Command.Ssh.{ssh_args, ssh}

module _ (L : Library) (s : Filestore) (bytes_of : String → Content) (tmp : FilePath)
    (program : List String → Sys L (Unit {0})) (h : Host L.RpcDriver) (v : Methods L.Machines)
    (name : String) (fs : Files) (ts rest : List String) (m m' m'' : L.Machines) where
  -- The files while ssh runs.
  abbrev pub with_key_file : Files
  with_key_file = Dict.insert (name ∷ tmp) (file 0o400 (bytes_of h.private_key)) fs

  abbrev pub at_call : System L
  at_call = record { world = quiet with_key_file rest; machines = m'' }

  -- Where every call works and the machine is running, the program ssh runs over a private file
  -- with the machine's key, which its owner can only read, and on the files as they were otherwise;
  -- at the end of the command the file is gone, no other file has changed, and the machine
  -- library's client was closed, if ssh leaves the files alone.
  pub ssh-with_key_file :
      load_host L s "mct" (record { world = quiet fs ts; machines = m })
        ≡ (ok h, record { world = quiet fs ts; machines = m' })
      → methods_of L.Machines L.methods h.driver ≡ some v
      → v.get_state m' ≡ (ok "Running", m'')
      → resolve fs tmp ≡ ok dir
      → fresh_name tmp "mct-ssh-" ts fs ≡ some (name, rest)
      → ((args : List String) (sys : System L) → (program args sys).1.world ≡ sys.world)
      → ssh L s bytes_of tmp program (record { world = quiet fs ts; machines = m }) ≡ (
        ok tt,
        record {
          world = quiet fs rest;
          machines = (L.close (program (ssh_args (name ∷ tmp)) at_call).1.machines).1;
        },
      )
  unfolding ssh update_file chmod close_file string_eq
  ssh-with_key_file loaded driven runs above drawn alone =
      let new : Dict.lookup (name ∷ tmp) fs ≡ none =
        fresh_name-none tmp "mct-ssh-" ts fs name rest drawn in
      rw
        (
          loaded,
          driven,
          runs,
          temp_file_works (quiet fs ts) tmp "mct-ssh-" name rest refl above drawn,
          edited-insert name tmp 0o600 empty fs (λ old. bytes_of h.private_key),
          resolve-made name tmp 0o600 (bytes_of h.private_key) fs above,
          insert-insert (name ∷ tmp) (file 0o400 (bytes_of h.private_key))
              (file 0o600 (bytes_of h.private_key)) fs,
          alone (ssh_args (name ∷ tmp)) at_call,
          remove-insert name tmp 0o400 (bytes_of h.private_key) fs rest above new,
        )
        refl

  -- When the write of the key breaks off, the process ends with the error and leaves the temporary
  -- file with what was written of the key, and the client of the machine library is not closed.
  pub ssh_torn :
      (start : System L) (part : Content)
      → load_host L s "mct" start ≡ (
        ok h,
        record {
          world = record { files = fs; faults = works ∷ tears part ∷ []; temps = ts };
          machines = m';
        },
      )
      → methods_of L.Machines L.methods h.driver ≡ some v
      → v.get_state m' ≡ (ok "Running", m'')
      → resolve fs tmp ≡ ok dir
      → fresh_name tmp "mct-ssh-" ts fs ≡ some (name, rest)
      → ssh L s bytes_of tmp program start ≡ (
        err (exits (errno eio)),
        record {
          world = quiet (Dict.insert (name ∷ tmp) (file 0o600 part) fs) rest;
          machines = m'';
        },
      )
  unfolding ssh update_file string_eq
  ssh_torn start part loaded driven runs above drawn =
      rw
        (
          loaded,
          driven,
          runs,
          temp_file_works (record { files = fs; faults = works ∷ tears part ∷ []; temps = ts }) tmp
              "mct-ssh-" name rest refl above drawn,
          edited-insert name tmp 0o600 empty fs (λ old. part),
        )
        refl
