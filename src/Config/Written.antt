-- ===== src/Config/Written.antt =====
-- What merging an edit writes into a map and into the maps of the plugins (internal/config/editor.go).
use any_ns.Base.{
  List, [], ◌∷◌, Bool, true, false, not, ◌&&◌, ◌≡◌, refl, sym, ap, ◌∙◌, ◌⊎◌, inl, inr, Option, none,
  some, Option-cases, Text, ◌=t◌, =t_iff, All, all, if◌then◌else◌, arith, Bool-cases,
}
use mathlib.Core.Logic.{Lift}
use mathlib.Core.Path.{subst}
use any_ns.Base.Dict.{Dict, lookup, lookup-insert}
use any_ns.Config.Editor.{EditablePlugin}
use any_ns.Config.Saving.{
  Raw, object, Document, Elements, no_element, element, no_member, member, get_member, set_member,
  set_all, joined, put_over, or_own, plugin_values, write_one, write_shared, written, array_of,
}

get_member-set_member :
    (k j : Text) (v : Raw) (d : Document)
    → get_member j (set_member k v d) ≡ (if k =t j then some v else get_member j d)
unfolding get_member set_member
get_member-set_member k j v no_member = refl
get_member-set_member k j v (member i w d) =
    ground (arith, =t_iff k j, =t_iff i k, =t_iff i j, get_member-set_member k j v d)

pub other_member :
    (k j : Text) (v : Raw) (d : Document)
    → (k =t j) ≡ false
    → get_member j (set_member k v d) ≡ get_member j d
other_member k j v d h = get_member-set_member k j v d ∙ rw h refl

pub same_member : (k : Text) (v : Raw) (d : Document) → get_member k (set_member k v d) ≡ some v
same_member k v d = get_member-set_member k k v d ∙ rw ((=t_iff k k).1 refl) refl

-- None of the keys is `j`.
abbrev pub IsNone : Text → List (Text × Raw) → Type 0
IsNone j kvs = All (λ kv. (kv.0 =t j) ≡ false) kvs

pub set_all_other :
    (j : Text) (kvs : List (Text × Raw)) (d : Document)
    → IsNone j kvs
    → get_member j (set_all kvs d) ≡ get_member j d
unfolding set_all
set_all_other j [] d h = refl
set_all_other j ((k, v) ∷ kvs) d h =
    set_all_other j kvs (set_member k v d) h.1 ∙ other_member k j v d h.0

-- No key comes twice.
abbrev pub distinct_keys : List (Text × Raw) → Bool
distinct_keys [] = true
distinct_keys ((k, v) ∷ kvs) =
    let rest = distinct_keys kvs in all (λ kv. not (kv.0 =t k)) kvs && rest

all-IsNone :
    (k : Text) (kvs : List (Text × Raw)) → all (λ kv. not (kv.0 =t k)) kvs ≡ true → IsNone k kvs
all-IsNone k [] h = tt
all-IsNone k ((j, v) ∷ kvs) h = (ground (arith, h), all-IsNone k kvs (ground (arith, h)))

-- A map holds the values.
abbrev pub Holds : List (Text × Raw) → Document → Type 0
Holds kvs d = All (λ kv. get_member kv.0 d ≡ some kv.1) kvs

pub set_all-Holds :
    (kvs : List (Text × Raw)) (d : Document) → distinct_keys kvs ≡ true → Holds kvs (set_all kvs d)
unfolding set_all
set_all-Holds [] d h = tt
set_all-Holds ((k, v) ∷ kvs) d h = (
  set_all_other k kvs (set_member k v d) (all-IsNone k kvs (ground (arith, h))) ∙ same_member k v d,
  set_all-Holds kvs (set_member k v d) (ground (arith, h)),
)

abbrev pub IsOneOf : EditablePlugin → List EditablePlugin → Type 0
IsOneOf q [] = Lift ⊥
IsOneOf q (p ∷ ps) = (q ≡ p) ⊎ IsOneOf q ps

-- The values of an edited plugin of that name, over what a map had.
abbrev WrittenBy : List EditablePlugin → Text → Document → Type 0
WrittenBy edited name o =
    (q : EditablePlugin) × IsOneOf q edited
    × (q.name ≡ name)
    × ((d : Document) × (o ≡ set_all (plugin_values q) d))

module _ (edited : List EditablePlugin) where
  -- The map of a name, if there is one, is written by an edited plugin.
  abbrev Good : Text → Dict (Option Document) → Type 0
  Good n m =
      (joined (lookup n m) ≡ none)
      ⊎ ((o : Document) × (joined (lookup n m) ≡ some o) × WrittenBy edited n o)

  write_one-head :
      (p : EditablePlugin) (m : Dict (Option Document))
      → IsOneOf p edited
      → Good p.name (write_one p m)
  unfolding write_one
  write_one-head p m one = elim (Option-cases (joined (lookup p.name m))) [
    | inl missing ↦ subst (Good p.name) (sym (ap (λ x. put_over p x m) missing)) (inl missing)
    | inr (d, there) ↦
        let o = set_all (plugin_values p) d in
        subst (Good p.name) (sym (ap (λ x. put_over p x m) there)) (
          inr (
            o,
            ap joined {y = some (some o)}
                (lookup-insert p.name p.name (some o) m ∙ rw ((=t_iff p.name p.name).1 refl) refl),
            (p, one, refl, (d, refl)),
          ))
  ]

  write_one-untouched :
      (n : Text) (p : EditablePlugin) (m : Dict (Option Document))
      → (p.name =t n) ≡ false
      → lookup n (write_one p m) ≡ lookup n m
  unfolding write_one
  write_one-untouched n p m apart = elim (Option-cases (joined (lookup p.name m))) [
    | inl missing ↦ ap (λ x. lookup n (put_over p x m)) missing
    | inr (d, there) ↦
        ap (λ x. lookup n (put_over p x m)) there ∙ lookup-insert p.name n _ m ∙ rw apart refl
  ]

  write_one-stays :
      (n : Text) (p : EditablePlugin) (m : Dict (Option Document))
      → IsOneOf p edited
      → Good n m
      → Good n (write_one p m)
  write_one-stays n p m one h = elim (Bool-cases (p.name =t n)) [
    | inl same ↦
        subst (λ x. Good x (write_one p m)) ((=t_iff p.name n).0 same) (write_one-head p m one)
    | inr apart ↦
        subst
          (λ o. (joined o ≡ none) ⊎ ((d : Document) × (joined o ≡ some d) × WrittenBy edited n d))
          (sym (write_one-untouched n p m apart)) h
  ]

  write_shared-stays :
      (n : Text) (ps : List EditablePlugin) (m : Dict (Option Document))
      → ((q : EditablePlugin) → IsOneOf q ps → IsOneOf q edited)
      → Good n m
      → Good n (write_shared ps m)
  unfolding write_shared
  write_shared-stays n [] m sub h = h
  write_shared-stays n (p ∷ ps) m sub h =
      write_shared-stays n ps (write_one p m) (λ q i. sub q (inr i))
        (write_one-stays n p m (sub p (inl refl)) h)

  write_shared-Good :
      (p : EditablePlugin) (ps : List EditablePlugin) (m : Dict (Option Document))
      → ((q : EditablePlugin) → IsOneOf q ps → IsOneOf q edited)
      → IsOneOf p ps
      → Good p.name (write_shared ps m)
  unfolding write_shared
  write_shared-Good p [] m sub i = absurd i.lower
  write_shared-Good p (r ∷ ps) m sub (inl same) =
      subst (λ x. Good x.name (write_shared ps (write_one r m))) (sym same)
        (write_shared-stays r.name ps (write_one r m) (λ q i. sub q (inr i))
          (write_one-head r m (sub r (inl refl))))
  write_shared-Good p (r ∷ ps) m sub (inr later) =
      write_shared-Good p ps (write_one r m) (λ q i. sub q (inr i)) later

  -- The elements for the plugins `ps`: each is an object that holds the values of an edited plugin of
  -- the same name.
  abbrev pub AllWritten : List EditablePlugin → Elements → Type 0
  AllWritten [] no_element = Unit
  AllWritten (p ∷ ps) (element (object o) es) =
      ((q : EditablePlugin) × IsOneOf q edited × (q.name ≡ p.name) × Holds (plugin_values q) o)
      × AllWritten ps es
  AllWritten _ _ = Lift ⊥

  written-Holds :
      (p : EditablePlugin) (m : Dict (Option Document))
      → IsOneOf p edited
      → Good p.name m
      → (q : EditablePlugin) × IsOneOf q edited
        × (q.name ≡ p.name)
        × Holds (plugin_values q) (written m p)
  unfolding ◌=t◌
  written-Holds p m one (inl missing) = (
    p,
    one,
    refl,
    subst (Holds (plugin_values p)) (sym (ap (or_own p) missing))
        (set_all-Holds (plugin_values p) no_member refl),
  )
  written-Holds p m one (inr (o, there, (q, i, named, (d, e)))) = (
    q,
    i,
    named,
    subst (Holds (plugin_values q)) (sym (ap (or_own p) there ∙ e))
        (set_all-Holds (plugin_values q) d refl),
  )

  array_of-AllWritten :
      (m : Dict (Option Document)) (ps : List EditablePlugin)
      → ((q : EditablePlugin) → IsOneOf q ps → IsOneOf q edited × Good q.name m)
      → AllWritten ps (array_of m ps)
  unfolding array_of
  array_of-AllWritten m [] good = tt
  array_of-AllWritten m (p ∷ ps) good =
      let (one, g) = good p (inl refl) in
      (written-Holds p m one g, array_of-AllWritten m ps (λ q i. good q (inr i)))

pub write_shared-AllWritten :
    (ps : List EditablePlugin) (m : Dict (Option Document))
    → AllWritten ps ps (array_of (write_shared ps m) ps)
write_shared-AllWritten ps m =
    array_of-AllWritten ps (write_shared ps m) ps
      (λ q i. (i, write_shared-Good ps q ps m (λ r j. j) i))
