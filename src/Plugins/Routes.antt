-- ===== src/Plugins/Routes.antt =====
-- The default routes of internal/plugins/router.go.
use any_ns.Base.{List, [], ◌∷◌, Text, txt}
use any_ns.Base.Int.{pos}
use any_ns.Plugins.{Route}

abbrev only_default : List Text
only_default = txt "default" ∷ []

abbrev pub default_routes : List Route
default_routes =
    record {
      name = txt "hns-default";
      domains = [];
      suffixes = txt ".hns" ∷ txt ".hsd" ∷ [];
      client_views = txt "default" ∷ txt "adguard" ∷ [];
      tenants = only_default;
      policy_tags = [];
      plugin = txt "hns";
      priority = pos 100;
      fallback = txt "icann-recursive";
    }
    ∷ []

abbrev pub default_wave1_routes : List Route
default_wave1_routes =
    record {
      name = txt "ens-wave1";
      domains = [];
      suffixes = txt ".eth" ∷ [];
      client_views = only_default;
      tenants = only_default;
      policy_tags = [];
      plugin = txt "ens";
      priority = pos 90;
      fallback = txt "nxdomain";
    }
    ∷ record {
      name = txt "namecoin-bit-wave1";
      domains = [];
      suffixes = txt ".bit" ∷ [];
      client_views = only_default;
      tenants = only_default;
      policy_tags = [];
      plugin = txt "namecoin-bit";
      priority = pos 90;
      fallback = txt "nxdomain";
    }
    ∷ record {
      name = txt "stacks-bns-wave1";
      domains = [];
      suffixes = txt ".btc" ∷ txt ".stx" ∷ [];
      client_views = only_default;
      tenants = only_default;
      policy_tags = [];
      plugin = txt "stacks-bns";
      priority = pos 90;
      fallback = txt "nxdomain";
    }
    ∷ record {
      name = txt "pns-polkadot-wave1";
      domains = [];
      suffixes = txt ".dot" ∷ [];
      client_views = only_default;
      tenants = only_default;
      policy_tags = [];
      plugin = txt "pns-polkadot";
      priority = pos 90;
      fallback = txt "nxdomain";
    }
    ∷ record {
      name = txt "pns-pulsechain-wave1";
      domains = [];
      suffixes = txt ".pls" ∷ [];
      client_views = only_default;
      tenants = only_default;
      policy_tags = [];
      plugin = txt "pns-pulsechain";
      priority = pos 90;
      fallback = txt "nxdomain";
    }
    ∷ record {
      name = txt "unstoppable-domains-wave1";
      domains = [];
      suffixes =
          txt ".crypto"
          ∷ txt ".nft"
          ∷ txt ".wallet"
          ∷ txt ".x"
          ∷ txt ".dao"
          ∷ txt ".888"
          ∷ txt ".zil"
          ∷ txt ".blockchain"
          ∷ txt ".bitcoin"
          ∷ [];
      client_views = only_default;
      tenants = only_default;
      policy_tags = [];
      plugin = txt "unstoppable-domains";
      priority = pos 90;
      fallback = txt "nxdomain";
    }
    ∷ []

abbrev pub default_wave2_routes : List Route
default_wave2_routes =
    record {
      name = txt "solana-sns-wave2";
      domains = [];
      suffixes = txt ".sol" ∷ [];
      client_views = only_default;
      tenants = only_default;
      policy_tags = [];
      plugin = txt "solana-sns";
      priority = pos 80;
      fallback = txt "nxdomain";
    }
    ∷ record {
      name = txt "space-id-wave2";
      domains = [];
      suffixes = txt ".bnb" ∷ txt ".arb" ∷ [];
      client_views = only_default;
      tenants = only_default;
      policy_tags = [];
      plugin = txt "space-id";
      priority = pos 80;
      fallback = txt "nxdomain";
    }
    ∷ record {
      name = txt "ton-dns-wave2";
      domains = [];
      suffixes = txt ".ton" ∷ [];
      client_views = only_default;
      tenants = only_default;
      policy_tags = [];
      plugin = txt "ton-dns";
      priority = pos 80;
      fallback = txt "nxdomain";
    }
    ∷ record {
      name = txt "tezos-domains-wave2";
      domains = [];
      suffixes = txt ".tez" ∷ [];
      client_views = only_default;
      tenants = only_default;
      policy_tags = [];
      plugin = txt "tezos-domains";
      priority = pos 80;
      fallback = txt "nxdomain";
    }
    ∷ record {
      name = txt "aptos-names-wave2";
      domains = [];
      suffixes = txt ".apt" ∷ [];
      client_views = only_default;
      tenants = only_default;
      policy_tags = [];
      plugin = txt "aptos-names";
      priority = pos 80;
      fallback = txt "nxdomain";
    }
    ∷ record {
      name = txt "suins-wave2";
      domains = [];
      suffixes = txt ".sui" ∷ [];
      client_views = only_default;
      tenants = only_default;
      policy_tags = [];
      plugin = txt "suins";
      priority = pos 80;
      fallback = txt "nxdomain";
    }
    ∷ []

abbrev pub default_wave3_routes : List Route
default_wave3_routes =
    record {
      name = txt "freename-fns-wave3";
      domains = [];
      suffixes = txt ".fns" ∷ [];
      client_views = only_default;
      tenants = only_default;
      policy_tags = [];
      plugin = txt "freename-fns";
      priority = pos 70;
      fallback = txt "nxdomain";
    }
    ∷ record {
      name = txt "rif-rns-wave3";
      domains = [];
      suffixes = txt ".rsk" ∷ [];
      client_views = only_default;
      tenants = only_default;
      policy_tags = [];
      plugin = txt "rif-rns";
      priority = pos 70;
      fallback = txt "nxdomain";
    }
    ∷ record {
      name = txt "fio-handle-wave3";
      domains = [];
      suffixes = txt ".fio" ∷ [];
      client_views = only_default;
      tenants = only_default;
      policy_tags = [];
      plugin = txt "fio-handle";
      priority = pos 70;
      fallback = txt "nxdomain";
    }
    ∷ record {
      name = txt "openalias-wave3";
      domains = [];
      suffixes = txt ".openalias" ∷ [];
      client_views = only_default;
      tenants = only_default;
      policy_tags = [];
      plugin = txt "openalias";
      priority = pos 70;
      fallback = txt "nxdomain";
    }
    ∷ record {
      name = txt "ada-handle-wave3";
      domains = [];
      suffixes = txt ".ada" ∷ [];
      client_views = only_default;
      tenants = only_default;
      policy_tags = [];
      plugin = txt "ada-handle";
      priority = pos 70;
      fallback = txt "nxdomain";
    }
    ∷ record {
      name = txt "did-bit-wave3";
      domains = [];
      suffixes = txt ".bit" ∷ [];
      client_views = only_default;
      tenants = only_default;
      policy_tags = [];
      plugin = txt "did-bit";
      priority = pos 70;
      fallback = txt "nxdomain";
    }
    ∷ []
