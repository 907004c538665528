-- ===== src/Config/Sections.antt =====
-- The sections of a document in the order in which an edit is merged in (internal/config/editor.go).
use any_ns.Base.{
  List, [], ◌∷◌, false, ◌≡◌, sym, ap, ◌∙◌, Option, none, some, Text, txt, ◌=t◌, true, All,
}
use mathlib.Core.Path.{subst}
use any_ns.Base.Result.{ok, ok-injective}
use any_ns.DnsName.{Idna}
use any_ns.Security.{Floats}
use any_ns.Config.Editor.{EditableConfig}
use any_ns.Config.Saving.{
  Raw, object, Document, get_member, set_member, as_map, or_fresh, set_all, merge_values,
  merge_plugins, honeypot_values, power_dns_values,
}
use any_ns.Config.Written.{
  other_member, same_member, IsNone, set_all_other, distinct_keys, Holds, set_all-Holds,
}
use any_ns.Config.Writing.{Json, not_nil, or_error, before_policy, after_policy}

-- The member `j` of the object of a key.
abbrev pub inner : Text → Text → Document → Option Raw
inner key j d = get_member j (or_fresh (as_map (get_member key d)))

pub inner-merge_values :
    (key j : Text) (kvs : List (Text × Raw)) (d : Document)
    → IsNone j kvs
    → inner key j (merge_values key kvs d) ≡ inner key j d
unfolding merge_values as_map
inner-merge_values key j kvs d h =
    ap (λ r. get_member j (or_fresh (as_map r)))
      (same_member key (object (set_all kvs (or_fresh (as_map (get_member key d))))) d)
    ∙ set_all_other j kvs (or_fresh (as_map (get_member key d))) h

-- The values in the object of a key.
abbrev pub HoldsIn : Option Raw → List (Text × Raw) → Type 0
HoldsIn r kvs = Holds kvs (or_fresh (as_map r))

pub merge_values-HoldsIn :
    (key : Text) (kvs : List (Text × Raw)) (d : Document)
    → distinct_keys kvs ≡ true
    → HoldsIn (get_member key (merge_values key kvs d)) kvs
unfolding merge_values as_map
merge_values-HoldsIn key kvs d h =
    let old = or_fresh (as_map (get_member key d)) in
    subst (λ r. HoldsIn r kvs) (sym (same_member key (object (set_all kvs old)) d))
      (set_all-Holds kvs old h)

pub inner_same :
    (key j : Text) (d e : Document)
    → get_member key d ≡ get_member key e
    → inner key j d ≡ inner key j e
inner_same key j d e h = ap (λ r. get_member j (or_fresh (as_map r))) h

pub merge_other :
    (key j : Text) (kvs : List (Text × Raw)) (d : Document)
    → (key =t j) ≡ false
    → get_member j (merge_values key kvs d) ≡ get_member j d
unfolding merge_values
merge_other key j kvs d h = other_member key j _ d h

-- The keys that are written.
abbrev pub edited_keys : List Text
edited_keys =
    txt "request_timeout"
    ∷ txt "routes"
    ∷ txt "plugins"
    ∷ txt "security"
    ∷ txt "dnslog"
    ∷ txt "honeypot"
    ∷ txt "control_plane"
    ∷ txt "powerdns"
    ∷ txt "certificates"
    ∷ []

pub or_error_lem : (o : Option (List Text)) (ds : List Text) → or_error o ≡ ok ds → o ≡ some ds
or_error_lem none ds h = cc
or_error_lem (some es) ds h = ap some (ok-injective h)

pub not_nil_lem : (o : Option Document) (d : Document) → not_nil o ≡ ok d → o ≡ some d
not_nil_lem none d h = cc
not_nil_lem (some e) d h = ap some (ok-injective h)

-- Those that are written after the plugins.
abbrev pub later_keys : List Text
later_keys =
    txt "security"
    ∷ txt "dnslog"
    ∷ txt "honeypot"
    ∷ txt "control_plane"
    ∷ txt "powerdns"
    ∷ txt "certificates"
    ∷ []

module _ (fl : Floats) (idna : Idna) (json : Json fl.Float) (edit : EditableConfig fl.Float) where
  pub before_other :
      (j : Text) (d : Document)
      → (txt "request_timeout" =t j) ≡ false
      → (txt "routes" =t j) ≡ false
      → (txt "plugins" =t j) ≡ false
      → get_member j (before_policy fl idna json edit d) ≡ get_member j d
  unfolding merge_plugins
  before_other j d a b c =
      other_member (txt "plugins") j _ _ c
      ∙ other_member (txt "routes") j _ _ b
      ∙ other_member (txt "request_timeout") j _ _ a

  -- The document before the honeypot's section is merged, and the one before PowerDNS's.
  abbrev pub with_log : Raw → Document → Document
  with_log policy d =
      set_member (txt "dnslog") (json.dns_log edit.dns_log)
        (set_member (txt "security") policy (before_policy fl idna json edit d))

  abbrev pub with_honeypot : Raw → Document → Document
  with_honeypot policy d =
      set_member (txt "control_plane") (json.control_plane edit.control_plane)
        (merge_values (txt "honeypot") (honeypot_values edit.honeypot) (with_log policy d))

  pub with_log_other :
      (j : Text) (policy : Raw) (d : Document)
      → (txt "request_timeout" =t j) ≡ false
      → (txt "routes" =t j) ≡ false
      → (txt "plugins" =t j) ≡ false
      → (txt "security" =t j) ≡ false
      → (txt "dnslog" =t j) ≡ false
      → get_member j (with_log policy d) ≡ get_member j d
  with_log_other j policy d a b c e f =
      other_member (txt "dnslog") j _ _ f
      ∙ other_member (txt "security") j _ _ e
      ∙ before_other j d a b c

  pub with_honeypot_other :
      (j : Text) (policy : Raw) (d : Document)
      → (txt "honeypot" =t j) ≡ false
      → (txt "control_plane" =t j) ≡ false
      → get_member j (with_honeypot policy d) ≡ get_member j (with_log policy d)
  with_honeypot_other j policy d a b =
      other_member (txt "control_plane") j _ _ b
      ∙ merge_other (txt "honeypot") j (honeypot_values edit.honeypot) (with_log policy d) a

  pub after_other :
      (j : Text) (policy : Raw) (d : Document)
      → (txt "powerdns" =t j) ≡ false
      → (txt "certificates" =t j) ≡ false
      → get_member j (after_policy fl idna json edit policy (before_policy fl idna json edit d))
        ≡ get_member j (with_honeypot policy d)
  after_other j policy d a b =
      other_member (txt "certificates") j _ _ b
      ∙ merge_other (txt "powerdns") j (power_dns_values edit.power_dns) (with_honeypot policy d) a

  -- What `before_policy` writes is still there in the end.
  pub kept_to_the_end :
      (j : Text) (policy : Raw) (d : Document)
      → All (λ k. (k =t j) ≡ false) later_keys
      → get_member j (after_policy fl idna json edit policy (before_policy fl idna json edit d))
        ≡ get_member j (before_policy fl idna json edit d)
  kept_to_the_end j policy d h =
      after_other j policy d h.1.1.1.1.0 h.1.1.1.1.1.0
      ∙ with_honeypot_other j policy d h.1.1.0 h.1.1.1.0
      ∙ other_member (txt "dnslog") j _ _ h.1.0
      ∙ other_member (txt "security") j _ _ h.0
