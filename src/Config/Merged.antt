-- ===== src/Config/Merged.antt =====
-- What merging an edit keeps and writes of the document in the file (internal/config/editor.go).
use any_ns.Base.{List, ◌++◌, false, ◌≡◌, refl, sym, ap, ◌∙◌, some, Text, txt, ◌=t◌, All}
use mathlib.Core.Path.{subst}
use any_ns.Base.Result.{ok, ok-injective, >>=-eq-ok}
use any_ns.DnsName.{Idna}
use any_ns.Security.{Floats}
use any_ns.Security.Domains.{normalize_dns_log_platform_domains}
use any_ns.Security.Counters.{with_defaults}
use any_ns.Config.Editor.{EditableConfig}
use any_ns.Config.Saving.{
  Raw, object, array, Elements, Document, no_member, get_member, set_all, seconds_text,
  merge_plugins, honeypot_values, power_dns_values, certificates_values,
}
use any_ns.Config.Written.{
  other_member, same_member, IsNone, Holds, set_all-Holds, AllWritten, write_shared-AllWritten,
}
use any_ns.Config.Writing.{
  Json, not_nil, or_error, before_policy, after_policy, edited_document, edited_text,
}
use any_ns.Config.Sections.{
  inner, inner-merge_values, HoldsIn, merge_values-HoldsIn, inner_same, edited_keys, or_error_lem,
  not_nil_lem, with_log, with_honeypot, with_log_other, with_honeypot_other, after_other,
  kept_to_the_end,
}

module _ (fl : Floats) (idna : Idna) (json : Json fl.Float) (edit : EditableConfig fl.Float) where
  -- The policy of the edit as it is written.
  abbrev pub IsPolicy : Raw → Type 0
  IsPolicy policy =
      (domains : List Text) × (normalize_dns_log_platform_domains idna
          (with_defaults fl idna edit.security).dns_log_platform_domains
        ≡ some domains)
      × (json.policy
            (record (with_defaults fl idna edit.security) { dns_log_platform_domains = domains })
          ≡ ok policy)

  -- The document `d` with the edit merged in: what is written, and what is kept.
  pub record Merges (d d' : Document) : Type 0 where
    pub request_timeout :
        get_member (txt "request_timeout") d' ≡ some (seconds_text edit.request_timeout_seconds)
    pub routes : get_member (txt "routes") d' ≡ some (json.routes edit.routes)
    pub plugins :
        (es : Elements) × (get_member (txt "plugins") d' ≡ some (array es))
        × AllWritten edit.plugins edit.plugins es
    pub security : (policy : Raw) × IsPolicy policy × (get_member (txt "security") d' ≡ some policy)
    pub dns_log : get_member (txt "dnslog") d' ≡ some (json.dns_log edit.dns_log)
    pub control_plane :
        get_member (txt "control_plane") d' ≡ some (json.control_plane edit.control_plane)
    pub certificates :
        (o : Document) × (get_member (txt "certificates") d' ≡ some (object o))
        × Holds (certificates_values edit.certificates) o
    pub honeypot_written : HoldsIn (get_member (txt "honeypot") d') (honeypot_values edit.honeypot)
    pub power_dns_written :
        HoldsIn (get_member (txt "powerdns") d') (power_dns_values edit.power_dns)
    pub others :
        (j : Text) → All (λ k. (k =t j) ≡ false) edited_keys → get_member j d' ≡ get_member j d
    pub honeypot :
        (j : Text)
        → IsNone j (honeypot_values edit.honeypot)
        → inner (txt "honeypot") j d' ≡ inner (txt "honeypot") j d
    pub power_dns :
        (j : Text)
        → IsNone j (power_dns_values edit.power_dns)
        → inner (txt "powerdns") j d' ≡ inner (txt "powerdns") j d

  after_policy-Merges :
      (policy : Raw) (d : Document)
      → IsPolicy policy
      → Merges d (after_policy fl idna json edit policy (before_policy fl idna json edit d))
  unfolding ◌=t◌ merge_plugins
  after_policy-Merges policy d is_policy = record {
    request_timeout =
        kept_to_the_end fl idna json edit (txt "request_timeout") policy d
          (refl, (refl, (refl, (refl, (refl, (refl, tt))))))
        ∙ other_member (txt "plugins") (txt "request_timeout") _ _ refl
        ∙ other_member (txt "routes") (txt "request_timeout") _ _ refl
        ∙ same_member (txt "request_timeout") (seconds_text edit.request_timeout_seconds) d;
    routes =
        kept_to_the_end fl idna json edit (txt "routes") policy d
          (refl, (refl, (refl, (refl, (refl, (refl, tt))))))
        ∙ other_member (txt "plugins") (txt "routes") _ _ refl
        ∙ same_member (txt "routes") (json.routes edit.routes) _;
    plugins = (
      _,
      kept_to_the_end fl idna json edit (txt "plugins") policy d
            (refl, (refl, (refl, (refl, (refl, (refl, tt))))))
          ∙ same_member (txt "plugins") _ _,
      write_shared-AllWritten edit.plugins _,
    );
    security = (
      policy,
      is_policy,
      after_other fl idna json edit (txt "security") policy d refl refl
          ∙ with_honeypot_other fl idna json edit (txt "security") policy d refl refl
          ∙ other_member (txt "dnslog") (txt "security") _ _ refl
          ∙ same_member (txt "security") policy (before_policy fl idna json edit d),
    );
    dns_log =
        after_other fl idna json edit (txt "dnslog") policy d refl refl
        ∙ with_honeypot_other fl idna json edit (txt "dnslog") policy d refl refl
        ∙ same_member (txt "dnslog") (json.dns_log edit.dns_log) _;
    control_plane =
        after_other fl idna json edit (txt "control_plane") policy d refl refl
        ∙ same_member (txt "control_plane") (json.control_plane edit.control_plane) _;
    certificates = (
      set_all (certificates_values edit.certificates) no_member,
      same_member (txt "certificates") _ _,
      set_all-Holds (certificates_values edit.certificates) no_member refl,
    );
    honeypot_written =
        subst (λ r. HoldsIn r (honeypot_values edit.honeypot))
          (sym (
            after_other fl idna json edit (txt "honeypot") policy d refl refl
            ∙ other_member (txt "control_plane") (txt "honeypot") _ _ refl))
          (merge_values-HoldsIn (txt "honeypot") (honeypot_values edit.honeypot)
            (with_log fl idna json edit policy d) refl);
    power_dns_written =
        subst (λ r. HoldsIn r (power_dns_values edit.power_dns))
          (sym (other_member (txt "certificates") (txt "powerdns") _ _ refl))
          (merge_values-HoldsIn (txt "powerdns") (power_dns_values edit.power_dns)
            (with_honeypot fl idna json edit policy d) refl);
    others = λ j h.
        after_other fl idna json edit j policy d h.1.1.1.1.1.1.1.0 h.1.1.1.1.1.1.1.1.0
        ∙ with_honeypot_other fl idna json edit j policy d h.1.1.1.1.1.0 h.1.1.1.1.1.1.0
        ∙ with_log_other fl idna json edit j policy d h.0 h.1.0 h.1.1.0 h.1.1.1.0 h.1.1.1.1.0;
    honeypot = λ j h.
        inner_same (txt "honeypot") j _ _ (
          after_other fl idna json edit (txt "honeypot") policy d refl refl
          ∙ other_member (txt "control_plane") (txt "honeypot") _ _ refl)
        ∙ inner-merge_values (txt "honeypot") j (honeypot_values edit.honeypot)
            (with_log fl idna json edit policy d) h
        ∙ inner_same (txt "honeypot") j _ _
            (with_log_other fl idna json edit (txt "honeypot") policy d refl refl refl refl refl);
    power_dns = λ j h.
        inner_same (txt "powerdns") j _ _
          (other_member (txt "certificates") (txt "powerdns") _ _ refl)
        ∙ inner-merge_values (txt "powerdns") j (power_dns_values edit.power_dns)
            (with_honeypot fl idna json edit policy d) h
        ∙ inner_same (txt "powerdns") j _ _ (
            with_honeypot_other fl idna json edit (txt "powerdns") policy d refl refl
            ∙ with_log_other fl idna json edit (txt "powerdns") policy d refl refl refl refl refl);
  }

  edited_document-Merges :
      (d d' : Document) → edited_document fl idna json edit d ≡ ok d' → Merges d d'
  unfolding edited_document
  edited_document-Merges d d' h =
      let q = with_defaults fl idna edit.security in
      let (domains, a, h1) =
        >>=-eq-ok (or_error (normalize_dns_log_platform_domains idna q.dns_log_platform_domains)) _
          h in
      let (policy, b, h2) =
        >>=-eq-ok (json.policy (record q { dns_log_platform_domains = domains }))
          (λ policy. ok (after_policy fl idna json edit policy (before_policy fl idna json edit d)))
          h1 in
      let known : normalize_dns_log_platform_domains idna q.dns_log_platform_domains
          ≡ some domains =
        or_error_lem _ domains a in
      subst (Merges d) (ok-injective h2) (after_policy-Merges policy d (domains, known, b))

  pub edited_text-Merges :
      (body encoded : Text)
      → edited_text fl idna json edit body ≡ ok encoded
      → (d : Document) × (d' : Document) × (json.decode body ≡ ok (some d))
        × (encoded ≡ json.print d' ++ txt "\n")
        × Merges d d'
  unfolding edited_text
  edited_text-Merges body encoded h =
      let (o, decoded, h1) = >>=-eq-ok (json.decode body) _ h in
      let (d, there, h2) = >>=-eq-ok (not_nil o) _ h1 in
      let (d', made, h3) =
        >>=-eq-ok (edited_document fl idna json edit d)
          (λ edited. ok (json.print edited ++ txt "\n")) h2 in
      (
        d,
        d',
        decoded ∙ ap ok (not_nil_lem o d there),
        sym (ok-injective h3),
        edited_document-Merges d d' made,
      )
