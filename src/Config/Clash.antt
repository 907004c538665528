-- ===== src/Config/Clash.antt =====
-- Secrets of a configuration file against the environment.
use any_ns.Base.{
  [], ◌∷◌, trim_left, trim_right_by, true, false, ◌≡◌, refl, sym, ap, ◌∙◌, inl, inr, Text, txt,
  is_empty, trim_space, arith, Bool-cases,
}
use any_ns.Base.Result.{Result, ok, err, >>=-eq-ok, ok-injective, Result-cases}
use any_ns.DnsName.{Idna}
use any_ns.Security.{Floats}
use any_ns.Config.{Config, is_blank}
use any_ns.Config.Defaults.{defaults, env}
use any_ns.Config.Overrides.{apply_env_overrides}
use any_ns.Config.Loading.{FileConfig, text_or, apply_honeypot, apply_power_dns, apply_certificates}
use any_ns.Config.Secrets.{FileSystem, resolve_secret_files}
use any_ns.Config.Files.{
  apply_file, decode_file, load_with_base, load_file, load_file_with_env_overrides,
}
use any_ns.Config.Resolved.{IsResolved, resolve_secret_files-IsResolved}

blank_empty : (s : Text) → is_empty s ≡ true → is_blank s ≡ true
unfolding trim_space trim_left trim_right_by
blank_empty [] h = refl
blank_empty (c ∷ s) h = absurd (ground arith)

module _ (fl : Floats) (idna : Idna) (fs : FileSystem)
    (decode : Text → Result (FileConfig fl.Float)) (get : Text → Text) where
  env_blank : (key fallback : Text) → is_blank (get key) ≡ false → env get key fallback ≡ get key
  unfolding env
  env_blank key fallback h = elim (Bool-cases (is_empty (get key))) [
    | inl none_set ↦ absurd (ground (arith, blank_empty (get key) none_set, h))
    | inr is_set ↦ rw is_set refl
  ]

  file_kept : (raw : Text) → is_blank raw ≡ false → text_or raw [] ≡ raw
  file_kept raw h = elim (Bool-cases (is_empty raw)) [
    | inl none_set ↦ absurd (ground (arith, blank_empty raw none_set, h))
    | inr is_set ↦ rw is_set refl
  ]

  not_both : false ≡ true → ⊥
  not_both h = ground (arith, h)

  clashes :
      (dir : Text) (raw : FileConfig fl.Float) (based : Config fl.Float)
      → raw.honeypot.api_key ≡ []
      → is_blank raw.honeypot.api_key_file ≡ false
      → is_blank (get (txt "ANYNS_HONEYPOT_API_KEY")) ≡ false
      → IsResolved fs dir (apply_file fl idna raw (defaults get fl)) based
      → ⊥
  unfolding apply_file apply_honeypot apply_power_dns apply_certificates defaults
  clashes dir raw based inline file set h = elim h.honeypot_key [
    | inl left ↦ absurd (
        not_both (sym file ∙ ap is_blank (sym (file_kept raw.honeypot.api_key_file file)) ∙ left.0))
    | inr right ↦
        let value : text_or raw.honeypot.api_key (env get (txt "ANYNS_HONEYPOT_API_KEY") [])
            ≡ get (txt "ANYNS_HONEYPOT_API_KEY") =
          ap (λ x. text_or x (env get (txt "ANYNS_HONEYPOT_API_KEY") [])) inline
          ∙ env_blank (txt "ANYNS_HONEYPOT_API_KEY") [] set in
        absurd (not_both (sym set ∙ ap is_blank (sym value) ∙ right.1))
  ]

  never_loads :
      (path body : Text) (raw : FileConfig fl.Float) (cfg : Config fl.Float)
      → fs.read path ≡ ok body
      → decode body ≡ ok raw
      → raw.honeypot.api_key ≡ []
      → is_blank raw.honeypot.api_key_file ≡ false
      → is_blank (get (txt "ANYNS_HONEYPOT_API_KEY")) ≡ false
      → load_file_with_env_overrides fl idna fs decode get path ≡ ok cfg
      → ⊥
  unfolding load_file_with_env_overrides load_file load_with_base
  never_loads path body raw cfg r d inline file set h =
      let (loaded, l, _) =
        >>=-eq-ok (load_file fl idna fs decode get path) (λ c. ok (apply_env_overrides get c)) h in
      let start = defaults get fl in
      let (based, b, _) =
        >>=-eq-ok
          (load_with_base fl idna fs (decode_file fl idna decode (fs.read path)) (fs.dir path)
            start)
          (λ c. ok (record c { config_file = path })) l in
      let (raw', dec, res) =
        >>=-eq-ok (decode_file fl idna decode (fs.read path))
          (λ raw. resolve_secret_files fs (fs.dir path) (apply_file fl idna raw start)) b in
      let same : raw ≡ raw' =
        ok-injective (sym d ∙ ap (decode_file fl idna decode) (sym r) ∙ dec) in
      let res' : resolve_secret_files fs (fs.dir path) (apply_file fl idna raw start) ≡ ok based =
        ap (λ x. resolve_secret_files fs (fs.dir path) (apply_file fl idna x start)) same ∙ res in
      clashes (fs.dir path) raw based inline file set
        (resolve_secret_files-IsResolved fs (fs.dir path) (apply_file fl idna raw start) based res')

  -- A configuration file that names a file for the honeypot's API key, and no key, is not loaded
  -- while the environment has the key, although the environment is to override the file: the answer
  -- is an error.
  pub honeypot_key_clash :
      (path body : Text) (raw : FileConfig fl.Float)
      → fs.read path ≡ ok body
      → decode body ≡ ok raw
      → raw.honeypot.api_key ≡ []
      → is_blank raw.honeypot.api_key_file ≡ false
      → is_blank (get (txt "ANYNS_HONEYPOT_API_KEY")) ≡ false
      → (e : Text) × (load_file_with_env_overrides fl idna fs decode get path ≡ err e)
  honeypot_key_clash path body raw r d inline file set =
      elim (Result-cases (load_file_with_env_overrides fl idna fs decode get path)) [
        | inl failed ↦ failed
        | inr (cfg, h) ↦ absurd (never_loads path body raw cfg r d inline file set h)
      ]
