-- ===== src/Lib.antt =====
-- The Go services of anyNS: a DNS control plane for alternative name systems. What the program keeps
-- and decides is modelled here; what it only passes on is not.
--
-- The parts and how they interact. A resolver (PowerDNS with a Lua hook) sends queries and DNS events
-- to the plugin runtime (cmd/anyns-plugin-runtime, internal/app, internal/httpapi). A query is routed
-- to a plugin by the registry of internal/plugins, and judged by the analyzer of internal/security;
-- an event is kept in the log of internal/dnslog and delivered to a honeypot by the client of
-- internal/honeypot, which queues what could not be delivered. The admin API (internal/adminapi) reads both and runs the certificate manager of
-- internal/certificates, which normalizes names by internal/dnsname.
--
-- Files:
--   Base, Base/*           lists, texts, integers, maps, sorting, results and decimal numbers: the
--                          parts of Go and of its standard library that the models use
--   DnsLog, DnsLog/*       internal/dnslog/dnslog.go. Store is the struct with its file as a list of
--                          lines; append, list, list_filtered, list_filtered_page, summary, load and
--                          new_persistent_store are its methods (Query, Summary); Window, Matching,
--                          Paging, Counts, Latency and Top hold the theorems
--   Honeypot, Honeypot/*   internal/honeypot/client.go. FailedQueue and Client are the structs;
--                          enqueue, drain (select, drain_loop, settle), load, deliver,
--                          deliver_or_queue, client_drain and status are their methods
--   DnsName, DnsName/Ascii internal/dnsname/idna.go: to_ascii and to_unicode
--   Certificates, Certificates/*
--                          internal/certificates/manager.go. Manager holds the jobs, the state file
--                          and the certificates' files; start, renew, revoke, get, list, set_issuer
--                          and close are its methods (Manager), run, update, save_certificate, load and
--                          new_manager those of the worker and the start (Worker); Domains, Updates,
--                          Issuance, Runs, Requests, Revocation, Restart, Served, Steps and Histories hold the
--                          theorems
--   Plugins, Plugins/*     internal/plugins/types.go (Plugins) and router.go (Router, Routes):
--                          Registry with match, resolve, the cache, set_plugin_enabled; Backends has
--                          the plugins of internal/plugins/hns and wave1 with their backends and
--                          health; Matching, Caching, Keys and Names hold the theorems
--   Access, Access/*       internal/httpapi/httpapi.go, with the management keys and scopes of
--                          internal/config/config.go: principal_from_request and
--                          require_scope_principal (Access), the query's parameters (Params); Granted,
--                          Scopes and ScopeSets hold the theorems
--   Config, Config/*       internal/config/config.go: the records and checks of single settings (Config),
--                          defaults and the environment (Defaults, Overrides), a file's sections
--                          (Loading), its secrets (Secrets), loading as a whole (Files), Validate
--                          (Validation, KeyChecks), and from internal/config/editor.go the editable
--                          part (Editor) and its saving (Saving, Writing); Resolved, Clash, Valid,
--                          Secrecy, Editing, Sections, Written, Merged and Saved hold the theorems
--   App, App/*             internal/app/app.go: App with append_management_audit, new_from_config and
--                          reload_from_config; Reload and Padding hold the theorems
--   ControlPlane, ControlPlane/*
--                          internal/controlplane/controlplane.go: the views of keys (ControlPlane),
--                          of plugins and of the boundary (Handlers), and the handlers (Serve); Keys,
--                          Successors, SameScopes, Mutations and Audit hold the theorems
--   PowerDns, PowerDns/*   internal/powerdns/client.go: the records and names (PowerDns), SOA records (Soa),
--                          the checks of a patch (Patch, RrSets), the requests (Calls) and the client's
--                          operations (Client, Initial, Zones) and the snapshots (Snapshot); a Reply tells a ValidationError from
--                          other errors. Fit, Inside, Updates, Rollback,
--                          RoundTrip and Snapshots hold the theorems
--   Records, Records/*     internal/dnsrr/records.go: normalize_record, ds_from_dns_key,
--                          tlsa_from_certificate_pem and parse_tlsa_owner; Canonical, Generated and
--                          Owners hold the theorems
--   Security, Security/*   internal/security/analyzer.go. Policy and Finding are the structs (Security);
--                          Domains has the lists, Counters the Analyzer with its defaults and sliding
--                          windows, Analyzer both verdicts; Windows and Verdicts hold the theorems
--   */Tests                runs at concrete inputs
--
-- How the code is read. A method that holds a mutex for its whole body is a function on the state.
-- A drain of the failed queue takes the lock twice, and is two functions, select and settle, between
-- which deliveries may arrive. The critical sections of the certificate manager are the constructors
-- of Step in Certificates/Steps, where a worker goes on from the error that it holds itself, and a
-- history is any sequence of them. The clock, the network, the
-- operating system's answers and the random order of Go's maps are arguments: every theorem holds for
-- all of them, errors included. A failed write is taken to leave no line, and rewriting a file that
-- fails to leave any lines. An error that would be returned beside a value is the second part of the
-- result, or err where the value is empty then.
--
-- Bounds. A file is a list of lines that decode or do not; a bufio.Scanner stops at a line of 65536
-- bytes or more, by a length that the encoder gives (Scanner, DeliveryScanner). A text is its list of bytes; strings.ToLower, strings.ToUpper and strings.TrimSpace are
-- modelled on ASCII, and agree with Go there. Go's int is an unbounded integer by sign and magnitude:
-- the program compares such numbers and uses them as counts. Times are nanoseconds from a fixed start
-- as natural numbers, and a duration that is added to one is taken not to overflow. The loops over
-- lists and attempts are structural; collect in DnsLog/Paging goes through the pages on fuel, and the
-- number of events is enough.
--
-- Not modelled: JSON and HTTP themselves (what is encoded is decoded as the same value), SHA-256,
-- HMAC, IDNA tables, IP addresses and floating-point numbers (parameters), contexts, tickers and
-- channels, metrics text, the admin UI, the packages internal/adminapi and internal/pdnshook, the resolvers of the plugins
-- below internal/plugins, and ACME and the private CA in internal/certificates, which are clients of
-- the parts above or of outside services.
pub mod Access
pub mod App
mod Base
pub mod Certificates
pub mod Config
pub mod ControlPlane
pub mod DnsLog
pub mod DnsName
pub mod Honeypot
pub mod Plugins
pub mod PowerDns
pub mod Records
pub mod Security
