-- ===== src/Client/Keys.antt =====
-- pkg/libmachine/ssh/ssh.go: the key pair of a machine. Bytes that are only turned into text are
-- text.
use mactainer.Base.{String, Result, ok, err, Action, pure, of_result, ◌>>=◌}
use mactainer.Errors.{GoError, wrapped}

-- crypto/ed25519, edkey, encoding/pem and golang.org/x/crypto/ssh, which are not part of this
-- program, in a state that holds the source of random bytes
pub record Crypto : Type 1 where
  pub Random : Type 0
  pub PublicKey : Type 0
  pub PrivateKey : Type 0
  pub SshKey : Type 0
  pub generate_key : Action Random GoError (PublicKey × PrivateKey)
  pub marshal_ed25519_private_key : PrivateKey → String
  pub encode_to_memory : String → String → String
  pub new_public_key : PublicKey → Result GoError SshKey
  pub marshal_authorized_key : SshKey → String

module _ (C : Crypto) where
  abbrev annotated : {A : Type 0} → String → Result GoError A → Result GoError A
  annotated text (ok a) = ok a
  annotated text (err e) = err (wrapped text e)

  -- `generateKeysed25519()`
  unfoldable pub generate_keys_ed25519 : Action C.Random GoError (C.PublicKey × C.PrivateKey)
  generate_keys_ed25519 r =
      (annotated "could not generate private key" (C.generate_key r).0, (C.generate_key r).1)

  -- `encodePrivateKeyToPEM(privateKey)`
  unfoldable pub encode_private_key_to_pem : C.PrivateKey → String
  encode_private_key_to_pem k =
      C.encode_to_memory "OPENSSH PRIVATE KEY" (C.marshal_ed25519_private_key k)

  authorized : Result GoError C.SshKey → Result GoError String
  authorized (ok k) = ok (C.marshal_authorized_key k)
  authorized (err e) = err (wrapped "could not generate public key" e)

  -- `generatePublicKey(publickey)`
  unfoldable pub generate_public_key : C.PublicKey → Result GoError String
  unfolding authorized
  generate_public_key k = authorized (C.new_public_key k)

  -- `GenerateKeys()`: the private key and then the public key, as text
  unfoldable pub generate_keys : Action C.Random GoError (String × String)
  unfolding generate_keys_ed25519 encode_private_key_to_pem generate_public_key
  generate_keys = do
    (public, private) ← generate_keys_ed25519
    public_text ← of_result (generate_public_key public)
    pure (encode_private_key_to_pem private, public_text)
