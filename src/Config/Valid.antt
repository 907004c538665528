-- ===== src/Config/Valid.antt =====
-- What a configuration without problems is like.
use any_ns.Base.{
  ℕ, ◌+◌, List, [], ◌∷◌, ◌++◌, Bool, true, false, not, ◌&&◌, none, some, ◌≡◌, refl, inl, inr, Text,
  txt, is_empty, trim_space, All, map, if◌then◌else◌, arith, Bool-cases,
}
use any_ns.Base.Members.{has_text}
use mathlib.Core.Path.{subst}
use any_ns.DnsName.{Idna}
use any_ns.Plugins.{Route}
use any_ns.Access.{Platform, ManagementRole, ManagementKey, is_nil, parse_key_time}
use any_ns.Config.{
  Config, PluginConfig, Formats, is_blank, supported_management_scope, valid_client_cidr,
}
use any_ns.Config.Validation.{
  problem, check_each, check_plugins, plugin_problems, route_problems, check_routes, at,
}
use any_ns.Config.KeyChecks.{
  id_problems, check_roles, role_ids, ends_first, check_key_roles, key_problems, check_keys,
  problems, validate,
}

nil_append {ℓ} : {A : Type ℓ} (xs ys : List A) → xs ++ ys ≡ [] → (xs ≡ []) × (ys ≡ [])
nil_append [] ys h = (refl, h)
nil_append (x ∷ xs) ys h = cc

no_problem : (b : Bool) (m : Text) → problem b m ≡ [] → b ≡ false
no_problem true m h = cc
no_problem false m h = refl

no_problem_each :
    (bad : Text → Bool) (message : ℕ → Text → Text) (j : ℕ) (ss : List Text)
    → check_each bad message j ss ≡ []
    → All (λ s. bad s ≡ false) ss
unfolding check_each
no_problem_each bad message j [] h = tt
no_problem_each bad message j (s ∷ ss) h =
    let (a, b) = nil_append (problem (bad s) (message j s)) (check_each bad message (j + 1) ss) h in
    (no_problem (bad s) (message j s) a, no_problem_each bad message (j + 1) ss b)

nil_of {ℓ} : {A : Type ℓ} (xs : List A) → is_nil xs ≡ true → xs ≡ []
nil_of [] h = refl
nil_of (x ∷ xs) h = absurd (ground arith)

-- A text that is not missing, and one of those that are known.
is_known :
    (known : List Text) (s missing unknown : Text)
    → (if is_empty s then missing ∷ [] else problem (not (has_text s known)) unknown) ≡ []
    → has_text s known ≡ true
is_known known s missing unknown h = elim (Bool-cases (is_empty s)) [
  | inl blank ↦ let k : missing ∷ [] ≡ [] = rw blank at h in cc
  | inr more ↦ elim (Bool-cases (has_text s known)) [
    | inl found ↦ found
    | inr absent ↦ let k : unknown ∷ [] ≡ [] = rw (more, absent) at h in cc
  ]
]

-- Texts that, trimmed, are not empty and differ from one another and from those of a list.
abbrev pub AreIds : List Text → List Text → Type 0
AreIds seen [] = Unit
AreIds seen (s ∷ ss) =
    ((is_empty (trim_space s) ≡ false)
      × (has_text (trim_space s) seen ≡ false)
      × AreIds (seen ++ trim_space s ∷ []) ss)

-- The trimmed names that the loop over the plugins has seen at its end.
abbrev pub names_after : List Text → List PluginConfig → List Text
names_after names [] = names
names_after names (c ∷ cs) = names_after (names ++ trim_space c.name ∷ []) cs

module _ (p : Platform) (f : Formats p) (idna : Idna) where
  no_id_problem :
      (section : Text) (i : ℕ) (id : Text) (seen : Bool)
      → id_problems p f idna section i id seen ≡ []
      → (is_empty id ≡ false) × (seen ≡ false)
  no_id_problem section i id seen h = elim (Bool-cases (is_empty id)) [
    | inl blank ↦ let k : at section i (txt ".id is required") ∷ [] ≡ [] = rw blank at h in cc
    | inr more ↦
        let message = at section i (txt ".id " ++ f.quoted id ++ txt " is duplicated") in
        let k : problem seen message ≡ [] = rw more at h in (more, no_problem seen message k)
  ]

  -- A plugin has a name that no plugin before it has; a plugin's own settings are left to its checks.
  check_plugins-AreIds :
      (i : ℕ) (names : List Text) (cs : List PluginConfig)
      → (check_plugins p f i names cs).0 ≡ []
      → AreIds names (map (λ c. c.name) cs)
        × ((check_plugins p f i names cs).1 ≡ names_after names cs)
  unfolding check_plugins
  check_plugins-AreIds i names [] h = (tt, refl)
  check_plugins-AreIds i names (c ∷ cs) h = elim (Bool-cases (is_empty (trim_space c.name))) [
    | inl blank ↦
        let k : at (txt "plugins") i (txt ".name is required")
              ∷ (check_plugins p f (i + 1) names cs).0
            ≡ [] =
          rw blank at h in
        cc
    | inr more ↦
        let name = trim_space c.name in
        let own = plugin_problems p f i name (has_text name names) c in
        let after = check_plugins p f (i + 1) (names ++ name ∷ []) cs in
        let k : own ++ after.0 ≡ [] = rw more at h in
        let (a, b) = nil_append own after.0 k in
        let (ids, e) = check_plugins-AreIds (i + 1) (names ++ name ∷ []) cs b in
        let first =
          (nil_append _ _ ((nil_append _ _ ((nil_append _ _ ((nil_append _ _ a).0)).0)).0)).0 in
        ((more, no_problem (has_text name names) _ first, ids), rw more e)
  ]

  -- A route that names a configured plugin and something to match.
  abbrev pub IsRoute : List Text → Route → Type 0
  IsRoute names r =
      ((is_blank r.name ≡ false)
        × (has_text (trim_space r.plugin) names ≡ true)
        × ((is_nil r.domains && is_nil r.suffixes) ≡ false))

  route_problems-IsRoute :
      (names : List Text) (i : ℕ) (r : Route) → route_problems p f names i r ≡ [] → IsRoute names r
  route_problems-IsRoute names i r h =
      let three = (nil_append _ _ (nil_append _ _ h).0).0 in
      let (two, matched) = nil_append _ _ three in
      let (named, plugin_known) = nil_append _ _ two in
      (
        no_problem _ _ named,
        is_known names (trim_space r.plugin) _ _ plugin_known,
        no_problem _ _ matched,
      )

  check_routes-IsRoute :
      (names : List Text) (i : ℕ) (rs : List Route)
      → check_routes p f names i rs ≡ []
      → All (IsRoute names) rs
  unfolding check_routes
  check_routes-IsRoute names i [] h = tt
  check_routes-IsRoute names i (r ∷ rs) h =
      let (a, b) =
        nil_append (route_problems p f names i r) (check_routes p f names (i + 1) rs) h in
      (route_problems-IsRoute names i r a, check_routes-IsRoute names (i + 1) rs b)

  -- A role with scopes that the program knows.
  abbrev pub IsRole : ManagementRole → Type 0
  IsRole r =
      ((is_nil r.scopes ≡ false) × All (λ s. not (supported_management_scope s) ≡ false) r.scopes)

  check_roles-AreIds :
      (i : ℕ) (seen : List Text) (rs : List ManagementRole)
      → check_roles p f idna i seen rs ≡ []
      → AreIds seen (map (λ r. r.id) rs) × All IsRole rs
  unfolding check_roles
  check_roles-AreIds i seen [] h = (tt, tt)
  check_roles-AreIds i seen (r ∷ rs) h =
      let (own, rest) = nil_append _ _ h in
      let (two, scopes_known) = nil_append _ _ own in
      let (one, scoped) = nil_append _ _ two in
      let (more, fresh) =
        no_id_problem (txt "management.roles") i (trim_space r.id) (has_text (trim_space r.id) seen)
          one in
      let (ids, roles) = check_roles-AreIds (i + 1) (seen ++ trim_space r.id ∷ []) rs rest in
      (
        (more, fresh, ids),
        ((no_problem _ _ scoped, no_problem_each _ _ 0 r.scopes scopes_known), roles),
      )

  -- A key that does not end before it begins, with scopes that the program knows, roles that are
  -- configured and clients that are addresses or networks.
  abbrev pub IsKey : List Text → ManagementKey → Type 0
  IsKey roles k =
      ((ends_first p f idna (parse_key_time p k.not_before) (parse_key_time p k.expires_at) ≡ false)
        × All (λ s. not (supported_management_scope s) ≡ false) k.scopes
        × All (λ r. has_text (trim_space r) roles ≡ true) k.roles
        × All (λ s. not (valid_client_cidr p f s) ≡ false) k.allowed_client_cidrs)

  check_key_roles-All :
      (i : ℕ) (roles : List Text) (j : ℕ) (rs : List Text)
      → check_key_roles p f idna i roles j rs ≡ []
      → All (λ r. has_text (trim_space r) roles ≡ true) rs
  unfolding check_key_roles
  check_key_roles-All i roles j [] h = tt
  check_key_roles-All i roles j (r ∷ rs) h =
      let (own, rest) = nil_append _ _ h in
      (is_known roles (trim_space r) _ _ own, check_key_roles-All i roles (j + 1) rs rest)

  key_problems-IsKey :
      (roles : List Text) (i : ℕ) (k : ManagementKey)
      → key_problems p f idna roles i k ≡ []
      → IsKey roles k
  key_problems-IsKey roles i k h =
      let (seven, clients) = nil_append _ _ h in
      let (six, configured) = nil_append _ _ seven in
      let (five, scopes_known) = nil_append _ _ six in
      let (_, in_order) = nil_append _ _ five in
      (
        no_problem _ _ in_order,
        no_problem_each _ _ 0 k.scopes scopes_known,
        check_key_roles-All i roles 0 k.roles configured,
        no_problem_each _ _ 0 k.allowed_client_cidrs clients,
      )

  check_keys-AreIds :
      (roles : List Text) (i : ℕ) (seen : List Text) (ks : List ManagementKey)
      → check_keys p f idna roles i seen ks ≡ []
      → AreIds seen (map (λ k. k.id) ks) × All (IsKey roles) ks
  unfolding check_keys
  check_keys-AreIds roles i seen [] h = (tt, tt)
  check_keys-AreIds roles i seen (k ∷ ks) h =
      let (own, rest) = nil_append _ _ h in
      let (one, key_ok) = nil_append _ _ own in
      let (more, fresh) =
        no_id_problem (txt "management.keys") i (trim_space k.id) (has_text (trim_space k.id) seen)
          one in
      let (ids, keys) = check_keys-AreIds roles (i + 1) (seen ++ trim_space k.id ∷ []) ks rest in
      ((more, fresh, ids), (key_problems-IsKey roles i k key_ok, keys))

  -- What validation makes sure of.
  pub record IsValid {F : Type 0} (cfg : Config F) : Type 0 where
    pub plugins : AreIds [] (map (λ c. c.name) cfg.plugins)
    pub routes : All (IsRoute (names_after [] cfg.plugins)) cfg.routes
    pub role_names : AreIds [] (map (λ r. r.id) cfg.management.roles)
    pub roles : All IsRole cfg.management.roles
    pub key_names : AreIds [] (map (λ k. k.id) cfg.management.keys)
    pub keys : All (IsKey (role_ids p f idna cfg.management.roles)) cfg.management.keys

  no_problems-IsValid : {F : Type 0} (cfg : Config F) → problems p f idna cfg ≡ [] → IsValid cfg
  unfolding problems
  no_problems-IsValid cfg h =
      let (eight, keys_ok) = nil_append _ _ h in
      let (seven, roles_ok) = nil_append _ _ eight in
      let (six, _) = nil_append _ _ seven in
      let (five, _) = nil_append _ _ six in
      let (four, routes_ok) = nil_append _ _ five in
      let (_, plugins_ok) = nil_append _ _ four in
      let (plugin_ids, names) = check_plugins-AreIds 0 [] cfg.plugins plugins_ok in
      let (role_ids_ok, role_ok) = check_roles-AreIds 0 [] cfg.management.roles roles_ok in
      let (key_ids, key_ok) =
        check_keys-AreIds (role_ids p f idna cfg.management.roles) 0 [] cfg.management.keys
          keys_ok in
      record {
        plugins = plugin_ids;
        routes =
            subst (λ known. All (IsRoute known) cfg.routes) names
              (check_routes-IsRoute (check_plugins p f 0 [] cfg.plugins).1 0 cfg.routes routes_ok);
        role_names = role_ids_ok;
        roles = role_ok;
        key_names = key_ids;
        keys = key_ok;
      }

  -- Where validation finds no error, the following holds up to white space around a name. Plugins
  -- have names, and no two the same; every route has a name, and a domain or a suffix, and its
  -- plugin is configured. Roles have ids, and no two the same, and at least one scope, and so do keys
  -- but for the scopes; all scopes are known to the program; the roles of every key are configured,
  -- it ends after it starts, and its clients are addresses or networks.
  pub validate-IsValid : {F : Type 0} (cfg : Config F) → validate p f idna cfg ≡ none → IsValid cfg
  unfolding validate
  validate-IsValid cfg h = elim (Bool-cases (is_nil (problems p f idna cfg))) [
    | inl clean ↦ no_problems-IsValid cfg (nil_of (problems p f idna cfg) clean)
    | inr more ↦ let k : some (problems p f idna cfg) ≡ none = rw more at h in cc
  ]
