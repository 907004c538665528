-- ===== src/DnsLog/Matching.antt =====
-- `EventFilter.Matches` of internal/dnslog/dnslog.go against what a filter means, and what the
-- lists return.
use any_ns.Base.{
  ℕ, ◌≤◌, ◌≡◌, refl, ◌↔◌, ◌⊎◌, inl, inr, List, [], ◌∷◌, Bool, true, false, not, ◌&&◌, Text, ◌=t◌,
  =t_iff, is_empty, to_lower, contains, ltb, ◌==◌, if◌then◌else◌, arith, All,
}
use any_ns.DnsLog.{Event}
use any_ns.DnsLog.Query.{EventFilter, normalize, equal_qname, differs, matches}

-- A row of early returns of `false`.
unless : List Bool → Bool
unless [] = true
unless (c ∷ cs) = if c then false else unless cs

unless_iff : (cs : List Bool) → (unless cs ≡ true) ↔ All (λ c. c ≡ false) cs
unfolding unless
unless_iff [] = (λ _. tt, λ _. refl)
unless_iff (true ∷ cs) = (λ h. cc, λ h. cc (h.0))
unless_iff (false ∷ cs) = (λ h. (refl, (unless_iff cs).0 h), λ h. (unless_iff cs).1 h.1)

tests : EventFilter → Event → List Bool
tests f e =
    (not (f.since == 0) && ltb e.timestamp f.since)
    ∷ (not (f.until == 0) && ltb f.until e.timestamp)
    ∷ differs f.trace_id e.trace_id
    ∷ differs f.client_ip e.client_ip
    ∷ differs f.client_view e.client_view
    ∷ differs f.tenant e.tenant
    ∷ (not (is_empty f.qname) && not (equal_qname e.qname f.qname))
    ∷ (not (is_empty f.qname_contains)
        && not (contains (to_lower e.qname) (to_lower f.qname_contains)))
    ∷ differs f.qtype e.qtype
    ∷ differs f.source_plugin e.source_plugin
    ∷ differs f.risk_level e.risk_level
    ∷ differs f.action e.action
    ∷ differs f.matched_rule e.matched_rule
    ∷ differs f.rcode e.rcode
    ∷ []

matches-eq-unless : (f : EventFilter) (e : Event) → matches f e ≡ unless (tests f e)
unfolding matches unless tests
matches-eq-unless f e = refl

-- A field is unconstrained, or equal to what is asked for.
pub Asks : Text → Text → Type 0
Asks want have = (want ≡ []) ⊎ (have ≡ want)

-- What a filter asks of an event.
pub record Satisfies (f : EventFilter) (e : Event) : Type 0 where
  pub since : (f.since ≡ 0) ⊎ (f.since ≤ e.timestamp)
  pub until : (f.until ≡ 0) ⊎ (e.timestamp ≤ f.until)
  pub trace_id : Asks f.trace_id e.trace_id
  pub client_ip : Asks f.client_ip e.client_ip
  pub client_view : Asks f.client_view e.client_view
  pub tenant : Asks f.tenant e.tenant
  pub qname : (f.qname ≡ []) ⊎ (normalize e.qname ≡ normalize f.qname)
  pub qname_contains :
      (f.qname_contains ≡ []) ⊎ (contains (to_lower e.qname) (to_lower f.qname_contains) ≡ true)
  pub qtype : Asks f.qtype e.qtype
  pub source_plugin : Asks f.source_plugin e.source_plugin
  pub risk_level : Asks f.risk_level e.risk_level
  pub action : Asks f.action e.action
  pub matched_rule : Asks f.matched_rule e.matched_rule
  pub rcode : Asks f.rcode e.rcode

is_empty_iff : (s : Text) → (is_empty s ≡ true) ↔ (s ≡ [])
is_empty_iff [] = (λ _. refl, λ _. refl)
is_empty_iff (c ∷ s) = (λ h. cc, λ h. cc)

pass_iff : (s : Text) (b : Bool) → ((not (is_empty s) && not b) ≡ false) ↔ ((s ≡ []) ⊎ (b ≡ true))
pass_iff [] b = (λ _. inl refl, λ _. refl)
pass_iff (c ∷ s) true = (λ _. inr refl, λ _. refl)
pass_iff (c ∷ s) false = (λ h. cc, λ h. ground arith)

differs_iff : (want have : Text) → (differs want have ≡ false) ↔ Asks want have
unfolding Asks
differs_iff want have =
    let p = pass_iff want (have =t want) in
    (
      (λ h. elim (p.0 h) [ inl a ↦ inl a | inr b ↦ inr ((=t_iff have want).0 b) ]),
      (λ h. p.1 (elim h [ inl a ↦ inl a | inr b ↦ inr ((=t_iff have want).1 b) ])),
    )

equal_qname_iff : (a b : Text) → (equal_qname a b ≡ true) ↔ (normalize a ≡ normalize b)
unfolding equal_qname
equal_qname_iff a b = =t_iff (normalize a) (normalize b)

since_iff : (a t : ℕ) → ((not (a == 0) && ltb t a) ≡ false) ↔ ((a ≡ 0) ⊎ (a ≤ t))
since_iff a t = (λ h. ground arith, λ h. ground arith)

until_iff : (a t : ℕ) → ((not (a == 0) && ltb a t) ≡ false) ↔ ((a ≡ 0) ⊎ (t ≤ a))
until_iff a t = (λ h. ground arith, λ h. ground arith)

qname_iff :
    (want have : Text)
    → ((not (is_empty want) && not (equal_qname have want)) ≡ false)
      ↔ ((want ≡ []) ⊎ (normalize have ≡ normalize want))
qname_iff want have =
    let p = pass_iff want (equal_qname have want) in
    let q = equal_qname_iff have want in
    (
      (λ h. elim (p.0 h) [ inl a ↦ inl a | inr b ↦ inr (q.0 b) ]),
      (λ h. p.1 (elim h [ inl a ↦ inl a | inr b ↦ inr (q.1 b) ])),
    )

tests_iff : (f : EventFilter) (e : Event) → All (λ c. c ≡ false) (tests f e) ↔ Satisfies f e
unfolding tests
tests_iff f e = (
  (λ h. record {
    since = (since_iff f.since e.timestamp).0 h.0;
    until = (until_iff f.until e.timestamp).0 h.1.0;
    trace_id = (differs_iff f.trace_id e.trace_id).0 h.1.1.0;
    client_ip = (differs_iff f.client_ip e.client_ip).0 h.1.1.1.0;
    client_view = (differs_iff f.client_view e.client_view).0 h.1.1.1.1.0;
    tenant = (differs_iff f.tenant e.tenant).0 h.1.1.1.1.1.0;
    qname = (qname_iff f.qname e.qname).0 h.1.1.1.1.1.1.0;
    qname_contains = (pass_iff f.qname_contains _).0 h.1.1.1.1.1.1.1.0;
    qtype = (differs_iff f.qtype e.qtype).0 h.1.1.1.1.1.1.1.1.0;
    source_plugin = (differs_iff f.source_plugin e.source_plugin).0 h.1.1.1.1.1.1.1.1.1.0;
    risk_level = (differs_iff f.risk_level e.risk_level).0 h.1.1.1.1.1.1.1.1.1.1.0;
    action = (differs_iff f.action e.action).0 h.1.1.1.1.1.1.1.1.1.1.1.0;
    matched_rule = (differs_iff f.matched_rule e.matched_rule).0 h.1.1.1.1.1.1.1.1.1.1.1.1.0;
    rcode = (differs_iff f.rcode e.rcode).0 h.1.1.1.1.1.1.1.1.1.1.1.1.1.0;
  }),
  (λ s. (
    (since_iff f.since e.timestamp).1 s.since,
    (
      (until_iff f.until e.timestamp).1 s.until,
      (
        (differs_iff f.trace_id e.trace_id).1 s.trace_id,
        (
          (differs_iff f.client_ip e.client_ip).1 s.client_ip,
          (
            (differs_iff f.client_view e.client_view).1 s.client_view,
            (
              (differs_iff f.tenant e.tenant).1 s.tenant,
              (
                (qname_iff f.qname e.qname).1 s.qname,
                (
                  (pass_iff f.qname_contains _).1 s.qname_contains,
                  (
                    (differs_iff f.qtype e.qtype).1 s.qtype,
                    (
                      (differs_iff f.source_plugin e.source_plugin).1 s.source_plugin,
                      (
                        (differs_iff f.risk_level e.risk_level).1 s.risk_level,
                        (
                          (differs_iff f.action e.action).1 s.action,
                          (
                            (differs_iff f.matched_rule e.matched_rule).1 s.matched_rule,
                            ((differs_iff f.rcode e.rcode).1 s.rcode, tt),
                          ),
                        ),
                      ),
                    ),
                  ),
                ),
              ),
            ),
          ),
        ),
      ),
    ),
  )),
)

-- `Matches` accepts an event exactly when the event satisfies every field that the filter sets:
-- times within the bounds, a query name equal up to case, spaces and final dots, a substring of
-- the lower-cased name, and the other fields equal.
matches_iff : (f : EventFilter) (e : Event) → (matches f e ≡ true) ↔ Satisfies f e
matches_iff f e = rw (matches-eq-unless f e) (
  (λ h. (tests_iff f e).0 ((unless_iff (tests f e)).0 h)),
  (λ s. (unless_iff (tests f e)).1 ((tests_iff f e).1 s)),
)
