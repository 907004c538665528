-- ===== src/Config/Saved.antt =====
-- What saving an edit does to the file (internal/config/editor.go).
use any_ns.Base.{
  ◌++◌, true, ◌≡◌, refl, sym, ap, ◌∙◌, inl, inr, Option, none, some, is_some, Option-cases, Text,
  txt, is_empty, Bool-cases,
}
use mathlib.Core.Path.{subst}
use any_ns.Base.Result.{Result, ok, err, Result-cases}
use any_ns.DnsName.{Idna}
use any_ns.Security.{Floats}
use any_ns.Config.Editor.{EditableConfig}
use any_ns.Config.Saving.{Document}
use any_ns.Config.Merged.{Merges, edited_text-Merges}
use any_ns.Config.Writing.{
  Json, FileSteps, Outcome, replace_file, or_stop, renamed, edited_text, save_editable_file,
}

module _ (fl : Floats) (idna : Idna) (json : Json fl.Float) (edit : EditableConfig fl.Float) where
  -- What can be read of the file before.
  abbrev pub contents : Result Text → Option Text
  contents (err e) = none
  contents (ok body) = some body

  -- How saving may end.
  pub data Saves (read : Result Text) (steps : FileSteps) (out : Outcome) : Type 0 where
    saved :
        (body : Text) (d d' : Document)
        → read ≡ ok body
        → json.decode body ≡ ok (some d)
        → Merges fl idna json edit d d'
        → out.0 ≡ none
        → out.1 ≡ some (json.print d' ++ txt "\n")
        → Saves read steps out
    untouched : is_some out.0 ≡ true → out.1 ≡ contents read → Saves read steps out
    lost :
        is_some steps.rename ≡ true
        → steps.remove ≡ none
        → is_some steps.rename_again ≡ true
        → out.0 ≡ steps.rename_again
        → out.1 ≡ none
        → Saves read steps out

  -- The three ends of the steps.
  data Replaces (steps : FileSteps) (encoded : Text) (old : Option Text) (out : Outcome)
      : Type 0 where
    replaced : out.0 ≡ none → out.1 ≡ some encoded → Replaces steps encoded old out
    kept : is_some out.0 ≡ true → out.1 ≡ old → Replaces steps encoded old out
    gone :
        is_some steps.rename ≡ true
        → steps.remove ≡ none
        → is_some steps.rename_again ≡ true
        → out.0 ≡ steps.rename_again
        → out.1 ≡ none
        → Replaces steps encoded old out

  or_stop-Replaces :
      (steps : FileSteps) (encoded : Text) (old e : Option Text) (next : Outcome)
      → Replaces steps encoded old next
      → Replaces steps encoded old (or_stop e old next)
  or_stop-Replaces steps encoded old none next h = h
  or_stop-Replaces steps encoded old (some e) next h = kept refl refl

  renamed-Replaces :
      (steps : FileSteps) (encoded : Text) (old : Option Text)
      → Replaces steps encoded old (renamed steps encoded old)
  renamed-Replaces steps encoded old = elim (Option-cases steps.rename) [
    | inl fine ↦
        let e : renamed steps encoded old ≡ (none, some encoded) = simp (fine) in
        subst (Replaces steps encoded old) (sym e) (replaced refl refl)
    | inr (first, refused) ↦ elim (Option-cases steps.remove) [
      | inr (second, kept_back) ↦
          let e : renamed steps encoded old ≡ (some second, old) = simp (refused, kept_back) in
          subst (Replaces steps encoded old) (sym e) (kept refl refl)
      | inl removed ↦ elim (Option-cases steps.rename_again) [
        | inl fine ↦
            let e : renamed steps encoded old ≡ (none, some encoded) =
              simp (refused, removed, fine) in
            subst (Replaces steps encoded old) (sym e) (replaced refl refl)
        | inr (third, failed) ↦
            let e : renamed steps encoded old ≡ (some third, none) =
              simp (refused, removed, failed) in
            subst (Replaces steps encoded old) (sym e)
              (gone (ap is_some refused) removed (ap is_some failed) (sym failed) refl)
      ]
    ]
  ]

  replace_file-Replaces :
      (steps : FileSteps) (encoded : Text) (old : Option Text)
      → Replaces steps encoded old (replace_file steps encoded old)
  unfolding replace_file
  replace_file-Replaces steps encoded old = or_stop-Replaces steps encoded old steps.create _ (
      or_stop-Replaces steps encoded old steps.chmod _ (
        or_stop-Replaces steps encoded old steps.write _ (
          or_stop-Replaces steps encoded old steps.sync _ (
            or_stop-Replaces steps encoded old steps.close _
              (renamed-Replaces steps encoded old)))))

  written_over-Saves :
      (body encoded : Text) (steps : FileSteps) (d d' : Document) (out : Outcome)
      → json.decode body ≡ ok (some d)
      → encoded ≡ json.print d' ++ txt "\n"
      → Merges fl idna json edit d d'
      → Replaces steps encoded (some body) out
      → Saves (ok body) steps out
  written_over-Saves body encoded steps d d' out decoded made keeps (replaced e f) =
      saved body d d' refl decoded keeps e (f ∙ ap some made)
  written_over-Saves body encoded steps d d' out decoded made keeps (kept e f) = untouched e f
  written_over-Saves body encoded steps d d' out decoded made keeps (gone a b c e f) =
      lost a b c e f

  -- Saving ends in one of three ways. There is no error, and the file holds the document that was
  -- in it with the edit merged in. Then the request timeout, the routes, the policy with its defaults
  -- and its domains in normal form, the log and the control plane are those of the edit; there is one
  -- object for each plugin of the edit, in this order, which holds the values of a plugin of the edit
  -- of that name; the certificates hold the edit's values, and so do the sections of the honeypot and
  -- of PowerDNS, where every other setting is as it was; and so is every member but these nine. Or
  -- there is an error and the file is as it was. Or there is an error and no file: the first rename
  -- failed, the file was removed, and the second rename failed as well.
  pub save_editable_file-Saves :
      (path : Text) (read : Result Text) (steps : FileSteps)
      → Saves read steps (save_editable_file fl idna json path read steps edit)
  unfolding save_editable_file
  save_editable_file-Saves path (err e) steps = untouched refl refl
  save_editable_file-Saves path (ok body) steps = elim (Bool-cases (is_empty path)) [
    | inl unset ↦
        let e : save_editable_file fl idna json path (ok body) steps edit
            ≡ (some (txt "config_file is not set"), some body) =
          simp (unset) in
        subst (Saves (ok body) steps) (sym e) (untouched refl refl)
    | inr set ↦ elim (Result-cases (edited_text fl idna json edit body)) [
      | inl (e, failed) ↦
          let out : save_editable_file fl idna json path (ok body) steps edit
              ≡ (some e, some body) =
            simp (set, failed) in
          subst (Saves (ok body) steps) (sym out) (untouched refl refl)
      | inr (encoded, made) ↦
          let out : save_editable_file fl idna json path (ok body) steps edit
              ≡ replace_file steps encoded (some body) =
            simp (set, made) in
          let (d, d', decoded, text, keeps) =
            edited_text-Merges fl idna json edit body encoded made in
          subst (Saves (ok body) steps) (sym out) (
            written_over-Saves body encoded steps d d' _ decoded text keeps
              (replace_file-Replaces steps encoded (some body)))
    ]
  ]
