-- ===== src/CacheProg/CopyLaws.antt =====
-- cacheprog.go: copyExecutable.
use gotst.Prelude.{◌∙◌, ◌≡◌, false, [], Option, Text, text_eq, ◌==◌, arith, inl, inr, ◌⊎◌}
use gotst.Go.Strings.{has_prefix}
use gotst.Go.Paths.{after_last_slash}
use gotst.Files.{contents, Os, OsLaws, continue-state, temp-other}
use gotst.CacheProg.Executables.{executable_temp, install_copy, clean_up_copy, copy_executable}

module _ {D : Type 0} (os : Os D) (laws : OsLaws os) (dst s : Text) where
  -- The destination has the copied contents or what it had before, and other paths are kept.
  pub record Copied (d e : D) : Type 0 where
    pub destination : (os.read_file e dst ≡ contents s) ⊎ (os.read_file e dst ≡ os.read_file d dst)
    pub others :
        (q : Text)
        → (dst == q) ≡ false
        → has_prefix (after_last_slash q) executable_temp ≡ false
        → os.read_file e q ≡ os.read_file d q

  module _ (tmp : Text) (d : D) where
    abbrev after_write : D
    after_write = (os.write d tmp s).0

    abbrev after_chmod : D
    after_chmod = (os.chmod after_write tmp 0o700).0

    abbrev after_close : D
    after_close = (os.close after_chmod tmp).0

    install_copy-others :
        (q : Text)
        → (tmp == q) ≡ false
        → (dst == q) ≡ false
        → os.read_file (install_copy os tmp dst s d).0 q ≡ os.read_file d q
    unfolding install_copy
    install_copy-others q ht hq = ground (
      arith,
      laws.write_keeps d tmp s q ht,
      laws.chmod_keeps after_write tmp 0o700 q,
      laws.close_keeps after_chmod tmp q,
      laws.rename_keeps after_close tmp dst q ht hq,
    )

    install_copy-destination :
        os.read_file d tmp ≡ contents []
        → (tmp == dst) ≡ false
        → (os.read_file (install_copy os tmp dst s d).0 dst ≡ contents s)
          ⊎ (os.read_file (install_copy os tmp dst s d).0 dst ≡ os.read_file d dst)
    unfolding install_copy
    install_copy-destination he ht = ground (
      arith,
      laws.write_keeps d tmp s dst ht,
      laws.write_writes d tmp s he,
      laws.chmod_keeps after_write tmp 0o700 dst,
      laws.chmod_keeps after_write tmp 0o700 tmp,
      laws.close_keeps after_chmod tmp dst,
      laws.close_keeps after_chmod tmp tmp,
      laws.rename_moves after_close tmp dst,
      laws.rename_fails after_close tmp dst dst,
    )

    clean_up_copy-keeps :
        (body : D → D × Option (Unit {0})) (q : Text)
        → (tmp == q) ≡ false
        → os.read_file (clean_up_copy os tmp body d).0 q ≡ os.read_file (body d).0 q
    unfolding clean_up_copy
    clean_up_copy-keeps body q ht = ground (
      arith,
      laws.close_keeps (body d).0 tmp q,
      laws.remove_keeps (os.close (body d).0 tmp).0 tmp q ht,
    )

  pub copy_executable-Copied :
      (dir src : Text) (d : D)
      → os.read_file d src ≡ contents s
      → has_prefix (after_last_slash dst) executable_temp ≡ false
      → Copied d (copy_executable os dir src dst d).0
  unfolding copy_executable
  copy_executable-Copied dir src d hs hd =
      let made = os.create_temp d dir executable_temp in
      let kept : (q : Text)
          → has_prefix (after_last_slash q) executable_temp ≡ false
          → os.read_file made.0 q ≡ os.read_file d q =
        λ q hq. laws.create_temp_keeps d dir executable_temp q hq in
      rw (hs, copy_executable)
        (continue-state (Copied d) made _
          (λ h. record { destination = inr (kept dst hd); others = λ q ne hq. kept q hq })
          λ tmp ht.
            let temp = laws.create_temp_makes d dir executable_temp tmp ht in
            record {
              destination =
                  elim (install_copy-destination tmp made.0 temp.0
                    (temp-other executable_temp tmp dst temp.1 hd)) [
                      | inl e ↦ inl (
                          clean_up_copy-keeps tmp made.0 (install_copy os tmp dst s) dst
                            (temp-other executable_temp tmp dst temp.1 hd)
                          ∙ e)
                      | inr e ↦ inr (
                          clean_up_copy-keeps tmp made.0 (install_copy os tmp dst s) dst
                            (temp-other executable_temp tmp dst temp.1 hd)
                          ∙ e
                          ∙ kept dst hd)
                    ];
              others = λ q ne hq.
                  clean_up_copy-keeps tmp made.0 (install_copy os tmp dst s) q
                    (temp-other executable_temp tmp q temp.1 hq)
                  ∙ install_copy-others tmp made.0 q (temp-other executable_temp tmp q temp.1 hq) ne
                  ∙ kept q hq;
            })
