-- ===== src/Client/Pairing.antt =====
-- The two keys of a new machine belong together.
use text.Mathlib.TextLemmas.{cons-append}
use mactainer.Base.{
  String, ◌<>◌, ◌≡◌, refl, ap, sym, subst, ◌∙◌, Option, some, Result-cases, ok, inl, inr, arith,
  string_eq, nat_eq,
}
use mactainer.Json.{Content}
use mactainer.Host.{Host}
use mactainer.Client.{Library, System, new_host, trim_right}
use mactainer.Client.Keys.{
  Crypto, generate_keys, generate_keys_ed25519, encode_private_key_to_pem, generate_public_key,
}

-- What ssh and sshd read of a private key in its file and of a line of authorized keys.
pub record Readers (C : Crypto) : Type 0 where
  pub public : C.PrivateKey → C.PublicKey
  pub read_private : String → Option C.PrivateKey
  pub read_authorized : String → Option C.SshKey
  pub line : C.SshKey → String

-- What the libraries are documented to do: a pair is generated; ssh reads the PEM block of a private
-- key; and the text of a public key is one line, without a break of its own, that sshd reads.
pub record IsFormat (C : Crypto) (R : Readers C) : Type 0 where
  pub paired :
      (r : C.Random) {p : C.PublicKey} {k : C.PrivateKey}
      → (C.generate_key r).0 ≡ ok (p, k)
      → R.public k ≡ p
  pub pem :
      (k : C.PrivateKey)
      → R.read_private (C.encode_to_memory "OPENSSH PRIVATE KEY" (C.marshal_ed25519_private_key k))
        ≡ some k
  pub one_line : (k : C.SshKey) → C.marshal_authorized_key k ≡ R.line k <> "\n"
  pub unbroken : (k : C.SshKey) → trim_right (R.line k) ≡ R.line k
  pub authorizes : (k : C.SshKey) → R.read_authorized (R.line k) ≡ some k

-- A trailing newline makes no difference to what is left.
trim_right-newline : (s : String) → trim_right (s <> "\n") ≡ trim_right s
unfolding trim_right
trim_right-newline String.[] = refl
trim_right-newline (String.◌∷◌ c s) = rw (cons-append c s "\n", trim_right-newline s) refl

module _ (C : Crypto) (R : Readers C) where
  -- Two texts that ssh and sshd read as the two halves of one pair.
  abbrev pub IsPair : String → String → Type 0
  IsPair private_text public_text =
      (k : C.PrivateKey) × (w : C.SshKey) × (R.read_private private_text ≡ some k)
      × (C.new_public_key (R.public k) ≡ ok w)
      × (R.read_authorized public_text ≡ some w)

module _ (C : Crypto) (R : Readers C) (lawful : IsFormat C R) where
  trim_right-marshal_authorized_key :
      (w : C.SshKey) → trim_right (C.marshal_authorized_key w) ≡ R.line w
  trim_right-marshal_authorized_key w =
      ap trim_right (lawful.one_line w) ∙ trim_right-newline (R.line w) ∙ lawful.unbroken w

  generate_keys-IsPair :
      (r : C.Random) {private_text public_text : String}
      → (generate_keys C r).0 ≡ ok (private_text, public_text)
      → IsPair C R private_text (trim_right public_text)
  unfolding generate_keys generate_keys_ed25519 encode_private_key_to_pem generate_public_key
  generate_keys-IsPair r {private_text} {public_text} made =
      elim (Result-cases (C.generate_key r).0) [
        | inr (e, failed) ↦ absurd (ground (arith, rw failed at made))
        | inl ((p, k), drawn) ↦ elim (Result-cases (C.new_public_key p)) [
          | inr (e, failed) ↦ absurd (ground (arith, rw (drawn, failed) at made))
          | inl (w, shown) ↦
              let texts = rw (drawn, shown) at made in
              let private_is : private_text
                  ≡ C.encode_to_memory "OPENSSH PRIVATE KEY" (C.marshal_ed25519_private_key k) =
                cc in
              let public_is : public_text ≡ C.marshal_authorized_key w = cc in
              (
                k,
                w,
                ap R.read_private private_is ∙ lawful.pem k,
                ap C.new_public_key (lawful.paired r drawn) ∙ shown,
                ap (λ t. R.read_authorized (trim_right t)) public_is
                    ∙ ap R.read_authorized (trim_right-marshal_authorized_key w)
                    ∙ lawful.authorizes w,
              )
        ]
      ]

  -- A machine is made with a pair of keys that belong together: ssh reads the private key of the
  -- host that `NewHost` returns, and sshd reads its public key, whose newline is cut off, as the
  -- public half of that private key. The keys are those that `GenerateKeys` makes, by libraries
  -- that keep to their formats.
  pub new_host-IsPair :
      (L : Library) (r : C.Random) (driver_name driver_path : String) (raw : Content)
      (sys sys' : System L) (h : Host L.RpcDriver)
      → new_host L (generate_keys C r).0 driver_name driver_path raw sys ≡ (ok h, sys')
      → IsPair C R h.private_key h.public_key
  unfolding new_host
  new_host-IsPair L r driver_name driver_path raw sys sys' h made =
      elim (Result-cases (L.new_rpc_client_driver driver_name driver_path raw sys.machines).0) [
        | inr (e, failed) ↦ absurd (ground (arith, rw failed at made))
        | inl (d, started) ↦ elim (Result-cases (generate_keys C r).0) [
          | inr (e, failed) ↦ absurd (ground (arith, rw (started, failed) at made))
          | inl ((private_text, public_text), keys) ↦
              let whole = rw (started, keys) at made in
              let private_is : h.private_key ≡ private_text = cc in
              let public_is : h.public_key ≡ trim_right public_text = cc in
              subst (λ t. IsPair C R t h.public_key) (sym private_is)
                (subst (λ t. IsPair C R private_text t) (sym public_is)
                  (generate_keys-IsPair r keys))
        ]
      ]
