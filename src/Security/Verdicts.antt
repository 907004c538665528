-- ===== src/Security/Verdicts.antt =====
-- What the domain lists and the verdicts of internal/security/analyzer.go mean.
use any_ns.Base.{
  ℕ, ◌≡◌, ◌↔◌, ap, ◌∙◌, ◌++◌, true, Text, txt, ◌=t◌, =t_iff, has_suffix, arith, Bool-cases, inl,
  inr, ◌⊎◌,
}
use any_ns.Base.Suffixes.{suffix_split, has_suffix_append}
use any_ns.DnsName.{Idna}
use any_ns.Plugins.{ResolveRequest}
use any_ns.Plugins.Router.{normalized}
use any_ns.Plugins.Names.{normalize_qname-normalize_qname, normalize_qtype-normalize_qtype}
use any_ns.Security.{Floats}
use any_ns.Security.Domains.{is_under}
use any_ns.Security.Counters.{Analyzer}
use any_ns.Security.Analyzer.{analyze_query}

-- A name is matched by a domain of a list exactly if it is that domain, or ends in a dot and that
-- domain: the domain and all names below it, and never a longer last label.
is_under_iff :
    (q domain : Text)
    → (is_under q domain ≡ true)
      ↔ ((q ≡ domain) ⊎ ((front : Text) × (q ≡ front ++ (txt "." ++ domain))))
unfolding is_under
is_under_iff q domain = (
  λ h. elim (Bool-cases (q =t domain)) [
    | inl same ↦ inl ((=t_iff q domain).0 same)
    | inr apart ↦ inr (suffix_split q (txt "." ++ domain) (rw apart at h))
  ],
  λ h. elim h [
    | inl same ↦ rw ((=t_iff q domain).1 same)
    | inr (front, e) ↦
        let ends : has_suffix q (txt "." ++ domain) ≡ true =
          ap (λ x. has_suffix x (txt "." ++ domain)) e
          ∙ has_suffix_append front (txt "." ++ domain) in
        ground (arith, ends)
  ],
)

-- Neither the case of letters nor a final dot of a name, nor the case of a type, makes a difference
-- to the verdict on a query or to what is counted.
pub analyze_query-normalized :
    (fl : Floats) (idna : Idna) (now₁ now₂ : ℕ) (req : ResolveRequest) (a : Analyzer fl.Float)
    → analyze_query fl idna now₁ now₂ (normalized req) a ≡ analyze_query fl idna now₁ now₂ req a
unfolding analyze_query
analyze_query-normalized fl idna now₁ now₂ req a =
    rw (normalize_qname-normalize_qname req.qname, normalize_qtype-normalize_qtype req.qtype)
