-- ===== src/App/Reload.antt =====
-- What reloading the configuration does to the parts of internal/app/app.go.
use any_ns.Base.{◌≡◌, refl, ◌⊎◌, inl, inr, none, some, Text}
use any_ns.Base.Result.{Result, ok, err}
use any_ns.DnsName.{Idna}
use any_ns.Security.{Floats}
use any_ns.Config.{Config}
use any_ns.App.{App, Files, new_from_config, refreshed, reload_from_config}

module _ (fl : Floats) (idna : Idna) (files : Files) (cfg : Config fl.Float) where
  -- A reload either fails, with an error, and leaves every part of the app as it was, or its outcome
  -- depends on the configuration and the files alone: from any other state it would have led to the
  -- same app, so that plugins that were enabled or disabled by a request, cached answers, counters
  -- and windows of the analyzer are all forgotten.
  pub reload_from_config_lem :
      (app : App fl.Float)
      → ((e : Text) × (reload_from_config fl idna files cfg app ≡ (app, some e)))
        ⊎ ((fresh : App fl.Float) × ((before : App fl.Float)
              → reload_from_config fl idna files cfg before ≡ (fresh, none)))
  unfolding reload_from_config
  reload_from_config_lem app = go (new_from_config fl idna files cfg)
    where
      go :
          (r : Result (App fl.Float))
          → ((e : Text) × (refreshed app r ≡ (app, some e)))
            ⊎ ((fresh : App fl.Float) × ((before : App fl.Float)
                  → refreshed before r ≡ (fresh, none)))
      go (err e) = inl (e, refl)
      go (ok fresh) = inr (fresh, λ before. refl)
