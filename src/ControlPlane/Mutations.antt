-- ===== src/ControlPlane/Mutations.antt =====
-- The paths by which plugins are enabled and disabled.
use any_ns.Base.{
  ℕ, List, [], ◌∷◌, ◌++◌, Bool, true, false, Option, some, ◌≡◌, refl, sym, ap, ◌∙◌, ◌↔◌, Text, txt,
  ◌=t◌, =t_iff, is_empty, has_prefix, trim_prefix, split, drop, length, All, ◌==◌, ==_iff,
  if◌then◌else◌, arith, Bool-cases, inl, inr, some_inj, join, cons_first,
}
use mathlib.Core.List.{append_assoc}
use any_ns.Base.Splits.{IsFree, split_at}
use any_ns.Access.{is_nil}
use any_ns.ControlPlane.Handlers.{prefix, two_parts, parse_plugin_mutation}

abbrev pub verb_of : Bool → Text
verb_of enabled = if enabled then txt "enable" else txt "disable"

-- What a text is cut into holds no separator, and makes the text again.
record Cuts (c : ℕ) (s : Text) (parts : List Text) : Type 0 where
  free : All (IsFree c) parts
  whole : join parts (c ∷ []) ≡ s
  some_part : is_nil parts ≡ false

at_separator :
    (c x : ℕ) (s : Text) (parts : List Text) → x ≡ c → Cuts c s parts → Cuts c (x ∷ s) ([] ∷ parts)
unfolding join
at_separator c x s [] e h = absurd (ground (arith, h.some_part))
at_separator c x s (w ∷ ws) e h = record {
  free = (tt, h.free);
  whole = rw e (ap (◌∷◌ c) h.whole);
  some_part = refl;
}

past_byte :
    (c x : ℕ) (s : Text) (parts : List Text)
    → (x == c) ≡ false
    → Cuts c s parts
    → Cuts c (x ∷ s) (cons_first x parts)
unfolding join
past_byte c x s [] e h = absurd (ground (arith, h.some_part))
past_byte c x s (w ∷ []) e h = record {
  free = ((e, h.free.0), tt);
  whole = ap (◌∷◌ x) h.whole;
  some_part = refl;
}
past_byte c x s (w ∷ v ∷ ws) e h = record {
  free = ((e, h.free.0), h.free.1);
  whole = ap (◌∷◌ x) h.whole;
  some_part = refl;
}

split-Cuts : (c : ℕ) (s : Text) → Cuts c s (split s c)
unfolding split join
split-Cuts c [] = record { free = (tt, tt); whole = refl; some_part = refl }
split-Cuts c (x ∷ s) = elim (Bool-cases (x == c)) [
  | inl e ↦ rw e (at_separator c x s (split s c) ((==_iff x c).0 e) (split-Cuts c s))
  | inr e ↦ rw e (past_byte c x s (split s c) e (split-Cuts c s))
]

-- The path of a control.
abbrev pub control_path : Text → Bool → Text
control_path name enabled = prefix ++ (name ++ b'/' ∷ verb_of enabled)

read_off :
    (s n name : Text) (on enabled : Bool)
    → is_empty n ≡ false
    → IsFree b'/' n
    → n ++ b'/' ∷ [] ++ verb_of on ≡ s
    → ◌≡◌ {A = Option (Text × Bool)} (some (n, on)) (some (name, enabled))
    → ((is_empty name ≡ false) × IsFree b'/' name × (s ≡ name ++ b'/' ∷ verb_of enabled))
read_off s n name on enabled more free whole h =
    let same_name : n ≡ name = ap (λ (x : Text × Bool). x.0) (some_inj h) in
    let same_verb : on ≡ enabled = ap (λ (x : Text × Bool). x.1) (some_inj h) in
    rw (← same_name, ← same_verb) (more, free, sym whole ∙ append_assoc n (b'/' ∷ []) (verb_of on))

two_parts_of :
    (parts : List Text) (s name : Text) (enabled : Bool)
    → Cuts b'/' s parts
    → two_parts parts ≡ some (name, enabled)
    → ((is_empty name ≡ false) × IsFree b'/' name × (s ≡ name ++ b'/' ∷ verb_of enabled))
unfolding join
two_parts_of [] s name enabled c h = cc
two_parts_of (n ∷ []) s name enabled c h = cc
two_parts_of (n ∷ v ∷ w ∷ ws) s name enabled c h = cc
two_parts_of (n ∷ v ∷ []) s name enabled c h = elim (Bool-cases (is_empty n)) [
  | inl blank ↦ absurd (ground (arith, blank, h))
  | inr more ↦ elim (Bool-cases (v =t txt "enable")) [
    | inl on ↦
        let k : ◌≡◌ {A = Option (Text × Bool)} (some (n, true)) (some (name, enabled)) =
          rw (more, on) at h in
        read_off s n name true enabled more c.free.0
          (ap (λ x. n ++ b'/' ∷ [] ++ x) (sym ((=t_iff v _).0 on)) ∙ c.whole) k
    | inr not_on ↦ elim (Bool-cases (v =t txt "disable")) [
      | inl off ↦
          let k : ◌≡◌ {A = Option (Text × Bool)} (some (n, false)) (some (name, enabled)) =
            rw (more, not_on, off) at h in
          read_off s n name false enabled more c.free.0
            (ap (λ x. n ++ b'/' ∷ [] ++ x) (sym ((=t_iff v _).0 off)) ∙ c.whole) k
      | inr neither ↦ absurd (ground (arith, more, not_on, neither, h))
    ]
  ]
]

verb_free : (enabled : Bool) → split (verb_of enabled) b'/' ≡ verb_of enabled ∷ []
unfolding split
verb_free true = refl
verb_free false = refl

two_parts_back :
    (name : Text) (enabled : Bool)
    → is_empty name ≡ false
    → two_parts (name ∷ verb_of enabled ∷ []) ≡ some (name, enabled)
unfolding ◌=t◌
two_parts_back name true h = rw h refl
two_parts_back name false h = rw h refl

prefix_append :
    (s : Text) → (has_prefix (prefix ++ s) prefix ≡ true) × (trim_prefix (prefix ++ s) prefix ≡ s)
unfolding trim_prefix has_prefix
prefix_append s = (refl, refl)

drop_prefix : (p s : Text) → has_prefix s p ≡ true → s ≡ p ++ drop (length p) s
unfolding has_prefix
drop_prefix [] [] h = refl
drop_prefix [] (y ∷ s) h = refl
drop_prefix (x ∷ p) [] h = absurd (ground arith)
drop_prefix (x ∷ p) (y ∷ s) h =
    let same : y ≡ x = ground (arith, h, ==_iff y x) in
    let rest : has_prefix s p ≡ true = ground (arith, h) in
    rw same (ap (◌∷◌ x) (drop_prefix p s rest))

prefix_split : (p s : Text) → has_prefix s p ≡ true → s ≡ p ++ trim_prefix s p
unfolding trim_prefix
prefix_split p s h = rw h (drop_prefix p s h)

-- The path of a request is that of a control exactly if it is the prefix of such paths, a name that
-- is not empty and holds no slash, a slash, and the verb: the name and the verb that are read are
-- the ones that the path was made of.
pub parse_plugin_mutation_iff :
    (path name : Text) (enabled : Bool)
    → (parse_plugin_mutation path ≡ some (name, enabled))
      ↔ ((is_empty name ≡ false) × IsFree b'/' name × (path ≡ control_path name enabled))
unfolding parse_plugin_mutation
parse_plugin_mutation_iff path name enabled = (
  λ h. elim (Bool-cases (has_prefix path prefix)) [
    | inr apart ↦ absurd (ground (arith, apart, h))
    | inl at_prefix ↦
        let rest = trim_prefix path prefix in
        let k : two_parts (split rest b'/') ≡ some (name, enabled) = rw at_prefix at h in
        let (more, free, e) =
          two_parts_of (split rest b'/') rest name enabled (split-Cuts b'/' rest) k in
        (more, free, prefix_split prefix path at_prefix ∙ ap (λ x. prefix ++ x) e)
  ],
  λ (more, free, e).
      let rest = name ++ b'/' ∷ verb_of enabled in
      ap parse_plugin_mutation e
      ∙ rw ((prefix_append rest).0, (prefix_append rest).1)
          (ap two_parts
              (split_at b'/' name (verb_of enabled) free ∙ ap (λ x. name ∷ x) (verb_free enabled))
            ∙ two_parts_back name enabled more),
)
