-- ===== src/Tests/KeyPairs.antt =====
-- The keys of a new machine, over key formats with two keys.
use mactainer.Base.{
  String, ◌<>◌, ◌≡◌, refl, Bool, true, false, Option, none, some, ok, string_eq, nat_eq, [], ◌==◌,
  if◌then◌else◌,
}
use mactainer.Fs.Quiet.{quiet}
use mactainer.Json.{empty}
use mactainer.Host.{Host}
use mactainer.Client.{System, new_host, trim_right}
use mactainer.Client.Keys.{
  Crypto, generate_keys, generate_keys_ed25519, generate_public_key, encode_private_key_to_pem,
}
use mactainer.Client.Pairing.{Readers, IsFormat, IsPair, new_host-IsPair}
use mactainer.Tests.Commands.{library, machine}

abbrev letter : Bool → String
letter true = "A"
letter false = "B"

abbrev letter_read : String → String → Option Bool
letter_read prefix s =
    if s == prefix <> "A" then some true else if s == prefix <> "B" then some false else none

abbrev two_keys : Crypto
two_keys = record {
  Random = Bool;
  PublicKey = Bool;
  PrivateKey = Bool;
  SshKey = Bool;
  generate_key = λ r. (ok (r, r), r);
  marshal_ed25519_private_key = letter;
  encode_to_memory = λ type bytes. type <> bytes;
  new_public_key = λ k. ok k;
  marshal_authorized_key = λ k. "ssh-ed25519 " <> letter k <> "\n";
}

abbrev two_readers : Readers two_keys
two_readers = record {
  public = λ k. k;
  read_private = letter_read "OPENSSH PRIVATE KEY";
  read_authorized = letter_read "ssh-ed25519 ";
  line = λ k. "ssh-ed25519 " <> letter k;
}

pem_read :
    (k : Bool) → letter_read "OPENSSH PRIVATE KEY" ("OPENSSH PRIVATE KEY" <> letter k) ≡ some k
unfolding string_eq
pem_read true = refl
pem_read false = refl

line_read : (k : Bool) → letter_read "ssh-ed25519 " ("ssh-ed25519 " <> letter k) ≡ some k
unfolding string_eq
line_read true = refl
line_read false = refl

line_ends : (k : Bool) → ("ssh-ed25519 " <> letter k <> "\n") ≡ ("ssh-ed25519 " <> letter k) <> "\n"
line_ends true = refl
line_ends false = refl

line_unbroken : (k : Bool) → trim_right ("ssh-ed25519 " <> letter k) ≡ "ssh-ed25519 " <> letter k
unfolding trim_right string_eq nat_eq
line_unbroken true = refl
line_unbroken false = refl

two_lawful : IsFormat two_keys two_readers
two_lawful = record {
  paired = λ r h. cc;
  pem = pem_read;
  one_line = line_ends;
  unbroken = line_unbroken;
  authorizes = line_read;
}

abbrev paired_host : Host library.RpcDriver
paired_host = record machine {
  driver_name = "hyperkit";
  driver_path = "/bin";
  public_key = "ssh-ed25519 B";
  private_key = "OPENSSH PRIVATE KEYB";
}

abbrev starting : System library
starting = record { world = quiet [] []; machines = true }

host_made :
    new_host library (generate_keys two_keys false).0 "hyperkit" "/bin" empty starting
    ≡ (ok paired_host, starting)
unfolding new_host trim_right generate_keys generate_keys_ed25519 generate_public_key
    encode_private_key_to_pem string_eq nat_eq
host_made = refl

new_host-IsPair_example : IsPair two_keys two_readers "OPENSSH PRIVATE KEYB" "ssh-ed25519 B"
new_host-IsPair_example =
    new_host-IsPair two_keys two_readers two_lawful library false "hyperkit" "/bin" empty starting
      starting paired_host host_made
