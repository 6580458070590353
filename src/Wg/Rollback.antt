-- ===== src/Wg/Rollback.antt =====
-- writeConfAndApply of internal/vpn/wgfamily/provider.go: what it leaves behind in the config file.
use protean.Prelude.{
  ℕ, List, [], ◌∷◌, ◌++◌, ◌≡◌, ◌≢◌, refl, sym, subst, ◌∙◌, Bool, true, false, Option, none, some,
  is_some,
}
use protean.Strings.{Text, split, is_empty}
use protean.Conf.{ConfFile, parse_conf, render, newline}
use protean.Conf.Lines.{parse_conf-newline}
use protean.Wg.{
  Host, Error, write_conf_failed, apply_live_failed, Options, has_delimiter, Outcome, write_file,
  snapshot, write_over, write_conf, roll_back, after_live, after_write, write_conf_and_apply,
  apply_command,
}

module _ (host : Host) where
  open host use {World, file, read, store, live, save_backup}

  -- What a write leaves behind, where the file held `raw`: the new file, or an error and a file that
  -- reads as `raw` does.
  pub data Settled (raw : Text) (new : ConfFile) (r : Outcome × World) : Type 0 where
    done : r.0 ≡ none → file r.1 ≡ some (render new ++ newline) → Settled raw new r
    kept :
        (e : Error) (t : Text)
        → r.0 ≡ some e
        → file r.1 ≡ some t
        → parse_conf t ≡ parse_conf raw
        → Settled raw new r

  is_read :
      (raw : Text) (w : World) (o : Option Text)
      → is_some o ≡ true
      → ((t : Text) → o ≡ some t → file w ≡ some t)
      → file w ≡ some raw
      → o ≡ some raw
  is_read raw w none s law h = cc
  is_read raw w (some t) s law h = sym (law t refl) ∙ h

  -- A host where every read of the file succeeds, and the commands that store it.
  pub record IsReliable : Type 0 where
    pub reads : (w : World) → is_some (read w).0 ≡ true
    pub stores : (t : Text) (w : World) → (store t w).0 ≡ true

  module _ (reliable : IsReliable) where
    open reliable use {reads, stores}

    pub read-raw : (raw : Text) (w : World) → file w ≡ some raw → (read w).0 ≡ some raw
    read-raw raw w = is_read raw w (read w).0 (reads w) (host.read-file w)

    file-write_file :
        (content : Text) (w : World)
        → has_delimiter (split content b'\n') ≡ false
        → file (write_file host content w).1 ≡ some (content ++ newline)
    unfolding write_file
    file-write_file content w h = rw h (host.file-store content w (stores content w))

    pub file-roll_back :
        (raw : Text) (w : World)
        → raw ≢ []
        → has_delimiter (split raw b'\n') ≡ false
        → file (roll_back host raw w) ≡ some (raw ++ newline)
    unfolding roll_back
    file-roll_back [] w n h = absurd (n refl)
    file-roll_back (c ∷ raw) w n h = unfold is_empty in file-write_file (c ∷ raw) w h

    -- `writeConf` and what follows, behind the read of the file
    module _ (o : Options) (raw : Text) (nonempty : raw ≢ [])
        (plain : has_delimiter (split raw b'\n') ≡ false) where
      pub live-Settled :
          (new : ConfFile) (cmd : Text) (b : Bool) (w : World)
          → file w ≡ some (render new ++ newline)
          → Settled raw new (after_live host raw (b, w))
      unfolding after_live
      live-Settled new cmd true w h = done refl h
      live-Settled new cmd false w h =
          kept apply_live_failed (raw ++ newline) refl (file-roll_back raw w nonempty plain)
            (parse_conf-newline raw)

      -- What follows the write settles if it does so from the world with the new file.
      module _ (new : ConfFile) (next : Text → World → Outcome × World)
          (settles : (w' : World)
            → file w' ≡ some (render new ++ newline)
            → Settled raw new (next raw w')) where
        write-Settled :
            (w : World)
            → file w ≡ some raw
            → (b : Bool) → has_delimiter (split (render new) b'\n') ≡ b
            → Settled raw new (
                after_write host next
                  ((raw, (write_file host (render new) w).0), (write_file host (render new) w).1))
        write-Settled w h true e =
            unfold write_file after_write in rw e (kept write_conf_failed raw refl h refl)
        write-Settled w h false e =
            let written : (write_file host (render new) w).0 ≡ true =
              unfold write_file in rw e (stores (render new) w) in
            go (write_file host (render new) w).0 (write_file host (render new) w).1 written
              (file-write_file (render new) w e)
          where
            go :
                (b : Bool) (w' : World)
                → b ≡ true
                → file w' ≡ some (render new ++ newline)
                → Settled raw new (after_write host next ((raw, b), w'))
            go true w' t h' = unfold after_write in settles w' h'
            go false w' t h' = cc

        over-Settled :
            (cur : Option Text) (w : World)
            → cur ≡ some raw
            → file w ≡ some raw
            → Settled raw new (after_write host next (write_over host new (snapshot host cur w)))
        over-Settled none w e h = cc
        over-Settled (some raw') w e h =
            let same_raw : raw' ≡ raw = cc in
            subst
              (λ t.
                Settled raw new
                  (after_write host next (write_over host new (snapshot host (some t) w))))
              (sym same_raw)
              (unfold write_over snapshot in
                write-Settled (save_backup raw w) (host.file-save_backup raw w ∙ h)
                  (has_delimiter (split (render new) b'\n')) refl)

        pub conf-Settled :
            (w : World)
            → file w ≡ some raw
            → Settled raw new (after_write host next (write_conf host new w))
        conf-Settled w h =
            unfold write_conf in
            over-Settled (read w).0 (read w).1 (read-raw raw w h) (host.file-read w ∙ h)

      -- `writeConfAndApply` settles: the new config is in the file and applied, or the file reads as
      -- before.
      pub apply-Settled :
          (new : ConfFile) (key : Text) (ips : List Text) (keepalive : ℕ) (w : World)
          → file w ≡ some raw
          → Settled raw new (write_conf_and_apply host o new key ips keepalive w)
      apply-Settled new key ips keepalive w h =
          let cmd = apply_command o key ips keepalive in
          unfold write_conf_and_apply in
          conf-Settled new (λ prev w'. after_live host prev (live cmd w'))
            (λ w' h'.
              live-Settled new cmd (live cmd w').0 (live cmd w').1 (host.file-live cmd w' ∙ h'))
            w h
