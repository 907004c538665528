-- ===== src/Plugins/Backends.antt =====
-- The plugins that internal/plugins/hns/plugin.go and internal/plugins/wave1/plugin.go make, with
-- what the router and the management interface see of them: name, suffixes, backend and health.
use any_ns.Base.{
  List, [], ◌∷◌, ◌++◌, true, false, not, Option, none, some, map, Text, txt, ◌=t◌, is_empty,
  to_lower, trim_space, if◌then◌else◌,
}
use any_ns.Base.Int.{ℤ, pos, is_pos}
use any_ns.Base.Dict.{Dict, lookup}
use any_ns.Plugins.Router.{Plugin}

abbrev pub hns_name : Text
hns_name = txt "hns"

abbrev pub hns_suffixes : List Text
hns_suffixes = txt ".hns" ∷ txt ".hsd" ∷ []

-- `wave1.NewAll`: names with suffixes.
abbrev pub wave1_all : Dict (List Text)
wave1_all =
    (txt "ens", txt ".eth" ∷ [])
    ∷ (txt "namecoin-bit", txt ".bit" ∷ [])
    ∷ (txt "stacks-bns", txt ".btc" ∷ txt ".stx" ∷ [])
    ∷ (txt "pns-polkadot", txt ".dot" ∷ [])
    ∷ (txt "pns-pulsechain", txt ".pls" ∷ [])
    ∷ (
      txt "unstoppable-domains",
      txt ".crypto"
          ∷ txt ".nft"
          ∷ txt ".wallet"
          ∷ txt ".x"
          ∷ txt ".dao"
          ∷ txt ".888"
          ∷ txt ".zil"
          ∷ txt ".blockchain"
          ∷ txt ".bitcoin"
          ∷ [],
    )
    ∷ (txt "solana-sns", txt ".sol" ∷ [])
    ∷ (txt "space-id", txt ".bnb" ∷ txt ".arb" ∷ [])
    ∷ (txt "ton-dns", txt ".ton" ∷ [])
    ∷ (txt "tezos-domains", txt ".tez" ∷ [])
    ∷ (txt "aptos-names", txt ".apt" ∷ [])
    ∷ (txt "suins", txt ".sui" ∷ [])
    ∷ (txt "freename-fns", txt ".fns" ∷ [])
    ∷ (txt "rif-rns", txt ".rsk" ∷ [])
    ∷ (txt "fio-handle", txt ".fio" ∷ [])
    ∷ (txt "openalias", txt ".openalias" ∷ [])
    ∷ (txt "ada-handle", txt ".ada" ∷ [])
    ∷ (txt "did-bit", txt ".bit" ∷ [])
    ∷ []

-- A plugin of the first package is enabled when it is made, the others are not.
abbrev pub made : List Plugin
made =
    record { name = hns_name; enabled = true }
    ∷ map (λ entry. record { name = entry.0; enabled = false }) wave1_all

pub record Backend : Type 0 where
  pub backend_type : Text
  pub url : Text
  pub api_key : Text
  pub timeout : ℤ

-- The backend of a new plugin: three seconds, and no URL.
abbrev pub no_backend : Backend
no_backend = record { backend_type = []; url = []; api_key = []; timeout = pos 3000000000 }

-- `ConfigureBackend` of a plugin of wave1.
unfoldable pub configure_backend : Text → Text → Text → ℤ → Backend → Backend
configure_backend backend_type url api_key timeout b = record {
  backend_type = to_lower (trim_space backend_type);
  url = trim_space url;
  api_key = trim_space api_key;
  timeout = if is_pos timeout then timeout else b.timeout;
}

-- `ConfigureBackend` of the plugin hns, which has no types of backend.
unfoldable pub configure_hns_backend : Text → Text → ℤ → Backend → Backend
configure_hns_backend url api_key timeout b = record b {
  url = trim_space url;
  api_key = trim_space api_key;
  timeout = if is_pos timeout then timeout else b.timeout;
}

abbrev pub backend_at : Text → Dict Backend → Backend
backend_at name backends = elim (lookup name backends) [ none ↦ no_backend | some b ↦ b ]

abbrev pub wave1_health : Plugin → Backend → Option Text
wave1_health p b =
    if not p.enabled
    then some (p.name ++ txt " plugin disabled")
    else if not (is_empty b.url)
    then none
    else some (p.name ++ txt " backend not configured")

-- `Health`: the error, if there is one.
unfoldable pub health : Plugin → Dict Backend → Option Text
health p backends =
    if p.name =t hns_name
    then if not p.enabled then some (txt "hns plugin disabled") else none
    else wave1_health p (backend_at p.name backends)

abbrev pub or_none : Option (List Text) → List Text
or_none none = []
or_none (some suffixes) = suffixes

unfoldable pub suffixes_of : Plugin → List Text
suffixes_of p = if p.name =t hns_name then hns_suffixes else or_none (lookup p.name wave1_all)
