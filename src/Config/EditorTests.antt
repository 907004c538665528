-- ===== src/Config/EditorTests.antt =====
-- Runs of the editor of internal/config at concrete inputs.
use any_ns.Base.{ℕ, [], ◌∷◌, true, none, some, ◌≡◌, refl, txt}
use any_ns.Base.Int.{pos}
use any_ns.Base.Result.{ok}
use any_ns.Security.{default_policy}
use any_ns.Security.Tests.{thousandths, plain}
use any_ns.Security.Domains.{normalize_dns_log_platform_domains, collect_platforms}
use any_ns.Security.Counters.{with_defaults}
use any_ns.Config.{Config, PluginConfig}
use any_ns.Config.Defaults.{defaults, env, env_int, env_bool, seconds, whole_seconds}
use any_ns.Config.Editor.{editable, settled_policy, apply_editable}
use any_ns.Config.Secrecy.{masked, editable_hides}
use any_ns.Config.Editing.{IsPlain, apply_editable-editable}
use any_ns.Config.Saving.{string, literal, object, member, no_member}
use any_ns.Config.Writing.{
  Json, FileSteps, replace_file, edited_document, edited_text, save_editable_file,
}
use any_ns.Config.Saved.{Saves, save_editable_file-Saves}

abbrev ens : PluginConfig
ens = record {
  name = txt "ens";
  enabled = true;
  backend_type = [];
  backend_url = txt "http://e";
  backend_api_key = txt "k";
  backend_api_key_file = [];
  request_timeout = pos 2000000000;
}

abbrev start_config : Config ℕ
start_config = record (defaults (λ key. []) thousandths) { plugins = ens ∷ [] }

-- The same, with another key that is in a file.
abbrev rekeyed : Config ℕ
rekeyed = record start_config {
  plugins = record ens { backend_api_key = []; backend_api_key_file = txt "f" } ∷ [];
}

same_masked : masked start_config ≡ masked rekeyed
unfolding masked
same_masked = refl

editable_hides_example : editable (λ path. true) start_config ≡ editable (λ path. true) rekeyed
editable_hides_example = editable_hides (λ path. true) start_config rekeyed same_masked

start_config-IsPlain : IsPlain thousandths plain start_config
unfolding defaults env env_int env_bool seconds whole_seconds settled_policy with_defaults
    normalize_dns_log_platform_domains default_policy collect_platforms
start_config-IsPlain = record {
  timeout = refl;
  apart = (tt, tt);
  timeouts = (record { positive = refl; whole = refl }, tt);
  policy = refl;
  honeypot = record { interval = refl; timeout = refl };
  same_url = refl;
  power_dns = record { timeout = refl; same = refl };
  certificates = record {
    timeout = refl;
    same_timeout = refl;
    propagation = refl;
    same_propagation = refl;
    interval = refl;
    same_interval = refl;
  };
}

apply_editable-editable_example :
    apply_editable thousandths plain start_config (editable (λ path. true) start_config)
    ≡ start_config
apply_editable-editable_example =
    apply_editable-editable thousandths plain (λ path. true) start_config start_config-IsPlain

-- Every file holds a honeypot's key, and every document is printed alike.
abbrev example_json : Json ℕ
example_json = record {
  routes = λ routes. literal (txt "[]");
  policy = λ policy. ok (literal (txt "{}"));
  dns_log = λ log. literal (txt "{}");
  control_plane = λ control. literal (txt "{}");
  decode = λ body. ok (
      some (
        member (txt "honeypot") (object (member (txt "api_key") (string (txt "k")) no_member))
          no_member));
  print = λ document. txt "{...}";
}

abbrev all_fine : FileSteps
all_fine = record {
  create = none;
  chmod = none;
  write = none;
  sync = none;
  close = none;
  rename = none;
  remove = none;
  rename_again = none;
}

-- Neither rename is done.
abbrev no_rename : FileSteps
no_rename = record all_fine { rename = some (txt "denied"); rename_again = some (txt "denied") }

file_is_lost :
    save_editable_file thousandths plain example_json
      (txt "c.json")
      (ok (txt "{}"))
      no_rename
      (editable (λ path. true) start_config)
    ≡ (some (txt "denied"), none)
unfolding save_editable_file edited_text edited_document replace_file editable defaults env env_int
    env_bool with_defaults normalize_dns_log_platform_domains default_policy collect_platforms
file_is_lost = refl

save_editable_file-Saves_example :
    Saves thousandths plain example_json
      (editable (λ path. true) start_config)
      (ok (txt "{}"))
      no_rename
      (save_editable_file thousandths plain example_json
        (txt "c.json")
        (ok (txt "{}"))
        no_rename
        (editable (λ path. true) start_config))
save_editable_file-Saves_example =
    save_editable_file-Saves thousandths plain example_json (editable (λ path. true) start_config)
      (txt "c.json") (ok (txt "{}")) no_rename
