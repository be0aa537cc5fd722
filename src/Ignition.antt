-- ===== src/Ignition.antt =====
-- pkg/ignition/ignition.go: the file that the machine reads at its first boot.
pub mod Escaping
use Prim.Native.Char.{Char, code}
use mactainer.Base.{
  ℕ, String, ◌<>◌, nat_eq, Option, none, some, List, [], ◌∷◌, Result, ok, err, pure, fail, attempt,
  of_result, ◌>>=◌, ◌>>◌,
}
use mactainer.Base.Dict
use mactainer.Base.Dict.{Dict}
use mactainer.Errors.{GoError, wrapped}
use mactainer.Json.{Content, empty}
use mactainer.Fs.{FilePath, Fs, write_file}

-- The constant `ignition`, before and behind the key of the user
abbrev pub ignition_head : String
ignition_head =
    "\n" <> "variant: fcos\n" <> "version: 1.4.0\n" <> "passwd:\n" <> "  users:\n"
    <> "  # core/core\n" <> "    - name: core\n" <> "      ssh_authorized_keys:\n" <> "        - \""

abbrev pub ignition_tail : String
ignition_tail =
    "\"\n"
    <> "      password_hash: \"$y$j9T$5J9zYWR/2iOJu//O5VVca.$ZKbQhIcgXchJYgBO0ZnGk4o0cCxn7GVZ1.CbYIh6uR0\"\n"
    <> "\n" <> "systemd:\n" <> "  units:\n" <> "    - name: serial-getty@ttyS0.service\n"
    <> "      dropins:\n" <> "      - name: autologin-mct.conf\n" <> "        contents: |\n"
    <> "          [Service]\n" <> "          # Override Execstart in main unit\n"
    <> "          ExecStart=\n" <> "          # Add new Execstart with prefix to ignore failure\n"
    <> "          ExecStart=-/usr/sbin/agetty --autologin mct --noclear %I $TERM\n"
    <> "          TTYVTDisallocate=no\n" <> "\n" <> "    - name: vsudd.service\n"
    <> "      enabled: true\n" <> "      contents: |\n" <> "        [Unit]\n"
    <> "        Description=VSOCK to unix domain socket forwarding. Forwards guest /var/run/docker.sock\n"
    <> "        After=network-online.target\n" <> "        Wants=network-online.target\n" <> "\n"
    <> "        [Service]\n" <> "        ExecStartPre=-/bin/podman kill vsudd\n"
    <> "        ExecStartPre=-/bin/podman rm vsudd\n"
    <> "        ExecStartPre=-/bin/podman pull quay.io/densityops/vsudd:f8cee7d\n"
    <> "        ExecStart=/bin/podman run --name vsudd --privileged \\\n"
    <> "                    --volume /var/run:/var/run  \\\n"
    <> "                    quay.io/densityops/vsudd:f8cee7d -inport 2376:unix:/var/run/docker.sock\n"
    <> "        ExecStop=/bin/podman stop vsudd\n" <> "\n" <> "        [Install]\n"
    <> "        WantedBy=multi-user.target\n" <> "storage:\n" <> "  files:\n"
    <> "    - path: /etc/ssh/sshd_config.d/20-enable-passwords.conf\n" <> "      overwrite: true\n"
    <> "      mode: 0644\n" <> "      contents:\n" <> "        inline: |\n"
    <> "          # Fedora CoreOS disables SSH password login by default.\n"
    <> "          # Enable it.\n"
    <> "          # This file must sort before 40-disable-passwords.conf.\n"
    <> "          PasswordAuthentication yes\n" <> "    - path: /etc/profile.d/systemd-pager.sh\n"
    <> "      overwrite: true\n" <> "      mode: 0644\n" <> "      contents:\n"
    <> "        inline: |\n"
    <> "          # Tell systemd to not use a pager when printing information\n"
    <> "          export SYSTEMD_PAGER=cat\n" <> "    - path: /etc/sysctl.d/20-silence-audit.conf\n"
    <> "      overwrite: true\n" <> "      mode: 0644\n" <> "      contents:\n"
    <> "        inline: |\n"
    <> "          # Raise console message logging level from DEBUG (7) to WARNING (4)\n"
    <> "          # to hide audit messages from the interactive console\n"
    <> "          kernel.printk=4\n"
    <> "    - path: /etc/zincati/config.d/90-disable-auto-updates.toml\n"
    <> "      overwrite: true\n" <> "      mode: 0644\n" <> "      contents:\n"
    <> "        inline: |\n" <> "          [updates]\n" <> "          enabled = false\n"
    <> "    - path: /etc/hostname\n" <> "      overwrite: true\n" <> "      mode: 0644\n"
    <> "      contents:\n" <> "        inline: |\n" <> "          mct\n"

-- What html/template puts in the place of a character of plain text, by the character's number.
abbrev pub html_replacement_table : Dict ℕ String
html_replacement_table =
    (0, "�")
    ∷ (34, "&#34;")
    ∷ (38, "&amp;")
    ∷ (39, "&#39;")
    ∷ (43, "&#43;")
    ∷ (60, "&lt;")
    ∷ (62, "&gt;")
    ∷ []

abbrev pub escape_char : Char → Option String → String
escape_char c none = String.◌∷◌ c ""
escape_char c (some r) = r

unfoldable pub replacement : Char → Option String
unfolding Dict.lookup nat_eq
replacement c = Dict.lookup (code c) html_replacement_table

unfoldable pub html_escape : String → String
html_escape String.[] = ""
html_escape (String.◌∷◌ c s) = escape_char c (replacement c) <> html_escape s

-- `ignTemplate.Execute(&b, d)`, where `d.PubKey` is the key
unfoldable pub ignition_text : String → String
unfolding html_escape
ignition_text pub_key = ignition_head <> html_escape pub_key <> ignition_tail

abbrev opening : Result GoError (Unit {0}) → Fs (Unit {0})
opening (ok _) = pure tt
opening (err e) = fail (wrapped "failed to open" e)

abbrev writing : Result GoError (Unit {0}) → Fs (Unit {0})
writing (ok _) = pure tt
writing (err e) = fail (wrapped "failed to write config to" e)

-- `WriteIgnition(path, pubKey)`: the file is opened and truncated, then written. `translate` is
-- butane's `TranslateBytes`, with the newline that is appended to what it gives.
unfoldable pub write_ignition :
    (String → Result GoError Content) → FilePath → String → Fs (Unit {0})
unfolding ignition_text
write_ignition translate path pub_key = do
  content ← of_result (translate (ignition_text pub_key))
  opened ← attempt (write_file path empty 0o644)
  opening opened
  written ← attempt (write_file path content 0o644)
  writing written
