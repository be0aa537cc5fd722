-- ===== src/Command/Serving.antt =====
-- What the daemon serves, and how it starts over what an earlier one has left.
use mactainer.Base.{
  String, ◌≡◌, refl, ap, ◌∙◌, Option, none, some, List, ◌∷◌, ok, arith, length, nat_eq, list_eq,
  string_eq, ◌==◌, if◌then◌else◌, attempt, ◌>>=◌, ◌>>◌,
}
use mactainer.Base.Dict
use mactainer.Base.Dict.{lookup-insert, lookup-insert_same, lookup-erase}
use mactainer.Fs.{FilePath, Node, dir, file, Files, Fs, resolve, remove, listen_unix, socket}
use mactainer.Fs.Quiet.{
  quiet, IsWritable, resolve-erase, resolve-same, remove_works, remove_missing,
}
use mactainer.Command.Config.{machine_dir, machine_name}
use mactainer.Command.Driver.{tap_socket_path}
use mactainer.Command.Daemon.{
  Configuration, VirtualNetwork, http_socket_path, bring_up, wrapping, gateway_address,
}

-- A socket in the place of another, or of nothing
abbrev pub Rebound : FilePath → Files → Files → Type 0
Rebound p fs fs' =
    (q : FilePath) → Dict.lookup q fs' ≡ (if q == p then some socket else Dict.lookup q fs)

abbrev rebind : String → FilePath → Fs (Unit {0})
rebind what p = do attempt (remove p); bound ← attempt (listen_unix p); wrapping what bound

module _ (x : String) (d : FilePath) (ts : List String) where
  listen_unix_works :
      (fs : Files)
      → resolve fs d ≡ ok dir
      → Dict.lookup (x ∷ d) fs ≡ none
      → listen_unix (x ∷ d) (quiet fs ts) ≡ (ok tt, quiet (Dict.insert (x ∷ d) socket fs) ts)
  unfolding listen_unix
  listen_unix_works fs above free = rw (above, free) refl

  rebind_works :
      (what : String) (fs : Files)
      → resolve fs d ≡ ok dir
      → IsWritable (Dict.lookup (x ∷ d) fs)
      → (fs' : Files) × (rebind what (x ∷ d) (quiet fs ts) ≡ (ok tt, quiet fs' ts))
        × Rebound (x ∷ d) fs fs'
  rebind_works what fs above can = by_node (Dict.lookup (x ∷ d) fs) refl
    where
      by_node :
          (o : Option Node)
          → Dict.lookup (x ∷ d) fs ≡ o
          → (fs' : Files) × (rebind what (x ∷ d) (quiet fs ts) ≡ (ok tt, quiet fs' ts))
            × Rebound (x ∷ d) fs fs'
      by_node none e = (
        Dict.insert (x ∷ d) socket fs,
        rw (remove_missing (quiet fs ts) x d refl above e, listen_unix_works fs above e) refl,
        λ q. lookup-insert q (x ∷ d) socket fs,
      )
      by_node (some dir) e = absurd (rw e at can)
      by_node (some (file m c)) e = (
        Dict.insert (x ∷ d) socket (Dict.erase (x ∷ d) fs),
        rw
            (
              remove_works (quiet fs ts) x d refl above m c e,
              listen_unix_works (Dict.erase (x ∷ d) fs)
                  (resolve-erase fs (x ∷ d) d (omega arith) ∙ above)
                  (rw lookup-erase (ground arith)),
            )
            refl,
        λ q. rw (lookup-insert, lookup-erase) (ground arith),
      )

-- The folder of a new socket is as it was, and so is another socket beside it.
Rebound-resolve :
    (x : String) (d : FilePath) (fs fs' : Files)
    → Rebound (x ∷ d) fs fs'
    → resolve fs' d ≡ resolve fs d
Rebound-resolve x d fs fs' left =
    resolve-same fs fs' d
      (λ q shorter. rw (left q) (ground (arith, λ (e : q ≡ (x ∷ d)). ap length e)))

Rebound-apart :
    (d : FilePath) (fs fs' : Files)
    → Rebound ("tap.sock" ∷ d) fs fs'
    → Dict.lookup ("http.sock" ∷ d) fs' ≡ Dict.lookup ("http.sock" ∷ d) fs
unfolding string_eq list_eq
Rebound-apart d fs fs' left = left ("http.sock" ∷ d)

-- Where every call works, with nothing or an old socket or file in the place of each socket, the
-- daemon comes up if the virtual network does: it has two new sockets in the machine's folder, and
-- every other path is as it was.
pub bring_up_works :
    (net : VirtualNetwork) (home : FilePath) (config : Configuration) (fs : Files)
    (ts : List String)
    → resolve fs (machine_name ∷ machine_dir home) ≡ ok dir
    → IsWritable (Dict.lookup (tap_socket_path home) fs)
    → IsWritable (Dict.lookup (http_socket_path home) fs)
    → net.new config ≡ ok tt
    → net.listen "tcp" gateway_address ≡ ok tt
    → (fs' : Files) × (bring_up net home (machine_name ∷ machine_dir home) config (quiet fs ts)
        ≡ (ok tt, quiet fs' ts))
      × ((q : FilePath)
          → Dict.lookup q fs' ≡ (
              if q == http_socket_path home
              then some socket
              else if q == tap_socket_path home
              then some socket
              else Dict.lookup q fs))
unfolding bring_up
bring_up_works net home config fs ts above tap http made listens =
    let folder : FilePath = machine_name ∷ machine_dir home in
    let (fs1, ran1, left1) =
      rebind_works "tap.sock" folder ts "could not bind vsock" fs above tap in
    let above1 : resolve fs1 folder ≡ ok dir =
      Rebound-resolve "tap.sock" folder fs fs1 left1 ∙ above in
    let (fs2, ran2, left2) =
      rebind_works "http.sock" folder ts "could not bind http socket" fs1 above1
        (rw (Rebound-apart folder fs fs1 left1) http) in
    (fs2, rw (ran1, made, ran2, listens) refl, λ q. rw (left2 q, left1 q) refl)
