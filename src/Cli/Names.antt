-- ===== src/Cli/Names.antt =====
-- The server publishes, line by line, what clients present.
use reality_hydra.Base.{
  ℕ, ◌≤◌, ◌<◌, ◌^◌, ◌≡◌, ◌≢◌, refl, ap, ◌∙◌, Bool, true, false, ◌||◌, List, [], ◌∷◌, All, Bytes,
  text_eq, none,
}
use reality_hydra.Proto.{Hmac}
use reality_hydra.Proto.Parse.{abs_diff}
use reality_hydra.Pool.{Floats, Rng, PoolEntry, has_sni, contains, epoch_at}
use reality_hydra.Pool.Window.Union.{accepted_within_skew}
use reality_hydra.Pool.Window.Entries.{All-accepted_pool_window}
use reality_hydra.Config.{HydraConfig}
use reality_hydra.Cli.{snis, resolve_epoch, server_names, render_lines}
use reality_hydra.Cli.Lines.{OneLine, lines, lines-join_lines}

-- One of the lines is the text.
unfoldable pub has_line : List Bytes → Bytes → Bool
has_line [] s = false
has_line (l ∷ ls) s = text_eq l s || has_line ls s

module _ {F : Type 0} where
  pub has_line-snis : (es : List (PoolEntry F)) (s : Bytes) → has_line (snis es) s ≡ has_sni es s
  unfolding has_line snis has_sni
  has_line-snis [] s = refl
  has_line-snis (e ∷ es) s = ap (λ b. text_eq e.sni s || b) (has_line-snis es s)

  All-snis :
      (es : List (PoolEntry F))
      → All (λ (e : PoolEntry F). OneLine e.sni) es
      → All OneLine (snis es)
  unfolding snis
  All-snis [] h = tt
  All-snis (e ∷ es) h = (h.0, All-snis es h.1)

  some_snis : (es : List (PoolEntry F)) (s : Bytes) → has_sni es s ≡ true → snis es ≢ []
  unfolding snis has_sni
  some_snis [] s h = cc
  some_snis (e ∷ es) s h = λ none. cc

module _ (fl : Floats) (rng : Rng fl.F) (h : Hmac) where
  -- With SNIs that have no line end, an SNI of the pool for a client's time is one of the lines that
  -- the server prints, if the two clocks are apart by at most the length of an epoch.
  pub published :
      (cfg : HydraConfig fl.F) (client_secs server_secs : ℕ) (s : Bytes)
      → All (λ (e : PoolEntry fl.F). OneLine e.sni) cfg.master_list.entries
      → client_secs < 2 ^ 64
      → abs_diff client_secs server_secs ≤ cfg.epoch_len
      → contains (server_names fl rng h cfg (resolve_epoch client_secs cfg none none) false) s
        ≡ true
      → has_line
          (lines (
            render_lines
              (server_names fl rng h cfg (resolve_epoch server_secs cfg none none) true)))
          s
        ≡ true
  unfolding server_names resolve_epoch render_lines
  published cfg client_secs server_secs s one_line small near there =
      let epoch = epoch_at server_secs cfg.epoch_len in
      let found =
        accepted_within_skew fl rng h cfg.master_secret cfg.server_salt cfg.master_list cfg.active_k
          client_secs server_secs cfg.epoch_len s small near there in
      let all =
        All-accepted_pool_window fl rng h cfg.master_secret cfg.server_salt cfg.master_list
          cfg.active_k (λ (e : PoolEntry fl.F). OneLine e.sni) epoch one_line in
      ap (λ (ls : List Bytes). has_line ls s)
        (lines-join_lines _ (All-snis _ all) (some_snis _ s found))
      ∙ has_line-snis _ s
      ∙ found
