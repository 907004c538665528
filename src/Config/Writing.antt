-- ===== src/Config/Writing.antt =====
-- The whole of SaveEditableFile (internal/config/editor.go): the document that is written, and the
-- steps by which it takes the place of the file.
use any_ns.Base.{List, ◌++◌, Option, none, some, Text, txt, is_empty, if◌then◌else◌}
use any_ns.Base.Result.{Result, ok, err, ◌>>=◌}
use any_ns.DnsName.{Idna}
use any_ns.Plugins.{Route}
use any_ns.Security.{Policy, Floats}
use any_ns.Security.Domains.{normalize_dns_log_platform_domains}
use any_ns.Security.Counters.{with_defaults}
use any_ns.Config.{DnsLogConfig, ControlPlaneConfig}
use any_ns.Config.Editor.{EditableConfig}
use any_ns.Config.Saving.{
  Raw, object, Document, no_member, set_member, set_all, seconds_text, merge_values, merge_plugins,
  honeypot_values, power_dns_values, certificates_values,
}

-- `encoding/json` on the values that are passed on. The decoder has `none` for a null.
pub record Json (F : Type 0) : Type 0 where
  pub routes : List Route → Raw
  pub policy : Policy F → Result Raw
  pub dns_log : DnsLogConfig → Raw
  pub control_plane : ControlPlaneConfig → Raw
  pub decode : Text → Result (Option Document)
  pub print : Document → Text

-- An error of each step that may have one.
pub record FileSteps : Type 0 where
  pub create : Option Text
  pub chmod : Option Text
  pub write : Option Text
  pub sync : Option Text
  pub close : Option Text
  pub rename : Option Text
  pub remove : Option Text
  pub rename_again : Option Text

-- The error that is returned, and what the file at the path then holds.
abbrev pub Outcome : Type 0
Outcome = Option Text × Option Text

abbrev pub or_stop : Option Text → Option Text → Outcome → Outcome
or_stop (some e) old next = (some e, old)
or_stop none old next = next

abbrev pub renamed_again : Option Text → Text → Outcome
renamed_again none encoded = (none, some encoded)
renamed_again (some e) encoded = (some e, none)

-- After a first rename that failed, the file is removed.
abbrev pub or_removed : Option Text → Text → Outcome → Outcome
or_removed none encoded next = (none, some encoded)
or_removed (some e) encoded next = next

abbrev pub renamed : FileSteps → Text → Option Text → Outcome
renamed steps encoded old =
    or_removed steps.rename encoded
      (or_stop steps.remove old (renamed_again steps.rename_again encoded))

-- The steps from `os.CreateTemp` on. The temporary file is gone after them in every case.
unfoldable pub replace_file : FileSteps → Text → Option Text → Outcome
replace_file steps encoded old = or_stop steps.create old (
    or_stop steps.chmod old (
      or_stop steps.write old
        (or_stop steps.sync old (or_stop steps.close old (renamed steps encoded old)))))

-- The text of the error of the domains is left out.
abbrev pub or_error : Option (List Text) → Result (List Text)
or_error none = err (txt "security.dnslog_platform_domains")
or_error (some domains) = ok domains

-- The assignment of a member of a nil map panics.
abbrev pub not_nil : Option Document → Result Document
not_nil none = err (txt "panic: assignment to entry in nil map")
not_nil (some d) = ok d

module _ (fl : Floats) (idna : Idna) (json : Json fl.Float) where
  abbrev pub before_policy : EditableConfig fl.Float → Document → Document
  before_policy edit document = merge_plugins edit.plugins (
      set_member (txt "routes") (json.routes edit.routes)
        (set_member (txt "request_timeout") (seconds_text edit.request_timeout_seconds) document))

  abbrev pub after_policy : EditableConfig fl.Float → Raw → Document → Document
  after_policy edit policy document =
      set_member (txt "certificates")
        (object (set_all (certificates_values edit.certificates) no_member))
        (merge_values (txt "powerdns") (power_dns_values edit.power_dns) (
          set_member (txt "control_plane") (json.control_plane edit.control_plane) (
            merge_values (txt "honeypot") (honeypot_values edit.honeypot) (
              set_member (txt "dnslog") (json.dns_log edit.dns_log)
                (set_member (txt "security") policy document)))))

  unfoldable pub edited_document : EditableConfig fl.Float → Document → Result Document
  edited_document edit document = do
    domains ← or_error (
        normalize_dns_log_platform_domains idna
          (with_defaults fl idna edit.security).dns_log_platform_domains)
    policy ←
        json.policy
          (record (with_defaults fl idna edit.security) { dns_log_platform_domains = domains })
    ok (after_policy edit policy (before_policy edit document))

  -- The text that is to be written over that of the file.
  unfoldable pub edited_text : EditableConfig fl.Float → Text → Result Text
  edited_text edit body = do
    decoded ← json.decode body
    document ← not_nil decoded
    edited ← edited_document edit document
    ok (json.print edited ++ txt "\n")

  abbrev pub written_over : FileSteps → Text → Result Text → Outcome
  written_over steps body (err e) = (some e, some body)
  written_over steps body (ok encoded) = replace_file steps encoded (some body)

  -- `read` has the error of `os.ReadFile` where there is no file to read.
  unfoldable pub save_editable_file :
      Text → Result Text → FileSteps → EditableConfig fl.Float → Outcome
  save_editable_file path (err e) steps edit =
      (some (if is_empty path then txt "config_file is not set" else e), none)
  save_editable_file path (ok body) steps edit =
      if is_empty path
      then (some (txt "config_file is not set"), some body)
      else written_over steps body (edited_text edit body)
