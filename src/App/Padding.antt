-- ===== src/App/Padding.antt =====
-- Names of plugins with white space around them, between the checks of internal/config/config.go and
-- the registry that internal/app/app.go builds.
use any_ns.Base.{
  List, [], ◌∷◌, true, false, Option, none, some, ◌⊎◌, ◌≡◌, ◌≢◌, refl, sym, ap, ◌∙◌, Text, ◌=t◌,
  =t_iff, trim_space, trim_left, trim_right_by, is_space, All, map, if◌then◌else◌, Bool-cases, inl,
  inr,
}
use any_ns.Base.Dict.{Dict, lookup, insert, lookup-insert}
use any_ns.Plugins.{Route, ResolveRequest}
use any_ns.Plugins.Router.{
  Plugin, add_plugins, new_registry, match, with_plugin, first_of, route_applies, paired,
}
use any_ns.Plugins.Backends.{made}
use any_ns.Config.{PluginConfig}
use any_ns.App.{enabled_as, config_by_name, build_plugins}

abbrev IsTrimmed : Plugin → Type 0
IsTrimmed p = trim_space p.name ≡ p.name

enabled_as-IsTrimmed :
    (p : Plugin) (c : Option PluginConfig) → IsTrimmed p → IsTrimmed (enabled_as p c)
enabled_as-IsTrimmed p none h = h
enabled_as-IsTrimmed p (some c) h = h

all-IsTrimmed :
    (found : Dict PluginConfig) (ps : List Plugin)
    → All IsTrimmed ps
    → All IsTrimmed (map (λ p. enabled_as p (lookup p.name found)) ps)
all-IsTrimmed found [] h = tt
all-IsTrimmed found (p ∷ ps) h =
    (enabled_as-IsTrimmed p (lookup p.name found) h.0, all-IsTrimmed found ps h.1)

made-IsTrimmed : All IsTrimmed made
unfolding trim_space trim_left trim_right_by is_space
made-IsTrimmed = (
  refl,
  (
    refl,
    (
      refl,
      (
        refl,
        (
          refl,
          (
            refl,
            (
              refl,
              (
                refl,
                (
                  refl,
                  (
                    refl,
                    (refl, (refl, (refl, (refl, (refl, (refl, (refl, (refl, (refl, tt))))))))),
                  ),
                ),
              ),
            ),
          ),
        ),
      ),
    ),
  ),
)

not_added :
    (name : Text) (ps : List Plugin) (d : Dict Plugin)
    → trim_space name ≢ name
    → All IsTrimmed ps
    → lookup name d ≡ none
    → lookup name (add_plugins ps d) ≡ none
unfolding add_plugins
not_added name [] d n h e = e
not_added name (p ∷ ps) d n h e_none =
    not_added name ps (insert p.name p d) n h.1
      (lookup-insert p.name name p d ∙ apart (Bool-cases (p.name =t name)))
  where
    apart :
        ((p.name =t name) ≡ true) ⊎ ((p.name =t name) ≡ false)
        → (if p.name =t name then some p else lookup name d) ≡ none
    apart (inl same) =
        let e : p.name ≡ name = (=t_iff p.name name).0 same in
        absurd (n (ap trim_space (sym e) ∙ h.0 ∙ e))
    apart (inr other_name) = rw other_name e_none

-- A route whose plugin is written with white space around its name answers nothing: a request for
-- which it is the first route that applies finds no plugin, whatever the configuration of the plugins
-- is.
pub padded_route_dead :
    (cfgs : List PluginConfig) (routes : List Route) (req : ResolveRequest) (route : Route)
    → trim_space route.plugin ≢ route.plugin
    → first_of (route_applies req) (new_registry routes (build_plugins cfgs).0).routes ≡ some route
    → match req (new_registry routes (build_plugins cfgs).0) ≡ none
unfolding match new_registry build_plugins
padded_route_dead cfgs routes req route n h =
    let found = config_by_name cfgs [] in
    let plugs = map (λ p. enabled_as p (lookup p.name found)) made in
    ap (with_plugin (add_plugins plugs [])) h
    ∙ ap (paired route) (
        not_added route.plugin plugs [] n (all-IsTrimmed found made made-IsTrimmed)
          (unfold lookup in refl))
