-- ===== src/Command/Initializing.antt =====
-- When a command goes on with a configuration, and what becomes of the files before it does.
use mactainer.Base.{
  String, ◌≡◌, refl, ap, sym, ◌∙◌, ◌≢◌, ◌⊎◌, inl, inr, Result, Result-cases, ok, err, arith,
  string_eq,
}
use mactainer.Errors.{GoError}
use mactainer.Fs.{FilePath, World, mkdir_all}
use mactainer.Command.{exits}
use mactainer.Command.Config.{mct_home}
use mactainer.Command.Root.{
  Viper, ReadFailure, config_file_not_found, other, Session, located, with_defaults,
  create_default_config, init_config,
}

module _ (V : Viper) (home : FilePath) (cfg_file : String) (s : Session V) where
  -- The registry before the first reading, and what that answers.
  abbrev pub prepared : V.Registry
  prepared = V.automatic_env (located V home cfg_file s.registry)

  abbrev pub first_read : Result ReadFailure (Unit {0})
  first_read = (V.read_in_config prepared s.world).0

  abbrev pub after_first : V.Registry
  after_first = (V.read_in_config prepared s.world).1

  -- A command goes on after `initConfig` only if the configuration was read and no file was touched,
  -- or none was found, the directory of the program was made, and the defaults were written there.
  pub init_config-settled :
      (t : Session V)
      → init_config V home cfg_file s ≡ (ok tt, t)
      → ((first_read ≡ ok tt) × (t.world ≡ s.world))
        ⊎ ((first_read ≡ err config_file_not_found)
            × (w : World) × (mkdir_all (mct_home home) s.world ≡ (ok tt, w))
            × (V.safe_write_config (with_defaults V home after_first) w ≡ (ok tt, t.world)))
  unfolding init_config create_default_config
  init_config-settled t done = elim (Result-cases first_read) [
    | inl (u, found) ↦ let went = rw found at done in inl (found, cc)
    | inr (config_file_not_found, missing) ↦
        elim (Result-cases (mkdir_all (mct_home home) s.world).0) [
          | inr (e, refused) ↦ absurd (ground (arith, rw (missing, refused) at done))
          | inl (u, made) ↦
              elim (Result-cases
                (V.safe_write_config (with_defaults V home after_first)
                  (mkdir_all (mct_home home) s.world).1).0) [
                    | inr (e, unwritten) ↦
                        absurd (ground (arith, rw (missing, made, unwritten) at done))
                    | inl (v, written) ↦
                        let went = rw (missing, made, written) at done in
                        inr (
                          missing,
                          (mkdir_all (mct_home home) s.world).1,
                          ap (λ r. (r, (mkdir_all (mct_home home) s.world).1)) made,
                          ap
                                (λ r. (
                                  r,
                                  (V.safe_write_config (with_defaults V home after_first)
                                      (mkdir_all (mct_home home) s.world).1).1,
                                ))
                                written
                              ∙ ap (λ r. (ok tt, r.1.world)) went,
                        )
                  ]
        ]
    | inr (other e, failed) ↦ absurd (ground (arith, rw failed at done))
  ]

  located-named :
      cfg_file ≢ "" → located V home cfg_file s.registry ≡ V.set_config_file cfg_file s.registry
  unfolding located
  located-named given = ground (arith, given)

  -- viper says that a configuration file is not found only if it was to look for one by its name. So
  -- a file that is named by the flag --config is never made: the command goes on exactly if it was
  -- read, else the process ends with the error, and no file is touched either way.
  pub init_config-named :
      ((f : String) (r : V.Registry) (w : World)
        → (V.read_in_config (V.automatic_env (V.set_config_file f r)) w).0
          ≢ err config_file_not_found)
      → cfg_file ≢ ""
      → ((init_config V home cfg_file s).1.world ≡ s.world)
        × (((first_read ≡ ok tt) × ((init_config V home cfg_file s).0 ≡ ok tt))
            ⊎ ((e : GoError) × (first_read ≡ err (other e))
                × ((init_config V home cfg_file s).0 ≡ err (exits e))))
  unfolding init_config
  init_config-named searches given = elim (Result-cases first_read) [
    | inl (u, found) ↦ rw found (refl, inl (refl, refl))
    | inr (config_file_not_found, missing) ↦ absurd (
        searches cfg_file s.registry s.world (
          ap (λ r. (V.read_in_config (V.automatic_env r) s.world).0) (sym (located-named given))
          ∙ missing))
    | inr (other e, failed) ↦ rw failed (refl, inr (e, refl, refl))
  ]
