-- ===== src/Plugins/Matching.antt =====
-- Which route `match` of internal/plugins/router.go takes.
use any_ns.Base.{
  ◌≡◌, refl, sym, ap, ◌∙◌, List, [], ◌∷◌, ◌++◌, Bool, true, false, Option, none, some,
  if◌then◌else◌, arith, Bool-cases, Option-cases, inl, inr, All, All-append, All-map,
}
use mathlib.Core.Path.{subst}
use any_ns.Base.Int.{ℤ, pos, negsuc, int_lt}
use any_ns.Base.Sort.{sort, insert_sorted, IsWeakOrder, IsSortedBy, sort-IsSortedBy, All-behind}
use any_ns.Plugins.{Route, ResolveRequest}
use any_ns.Plugins.Router.{
  Plugin, new_registry, goes_first, route_applies, first_of, with_plugin, match,
}

int_lt-asymm : (a b : ℤ) → int_lt a b ≡ true → int_lt b a ≡ false
unfolding int_lt
int_lt-asymm (pos a) (pos b) h = ground arith
int_lt-asymm (pos a) (negsuc b) h = cc
int_lt-asymm (negsuc a) (pos b) h = refl
int_lt-asymm (negsuc a) (negsuc b) h = ground arith

int_lt_behind : (a b c : ℤ) → int_lt b a ≡ false → int_lt c b ≡ false → int_lt c a ≡ false
unfolding int_lt
int_lt_behind (pos a) (pos b) (pos c) h k = ground arith
int_lt_behind (pos a) (pos b) (negsuc c) h k = cc
int_lt_behind (pos a) (negsuc b) c h k = absurd (cc)
int_lt_behind (negsuc a) (pos b) (pos c) h k = refl
int_lt_behind (negsuc a) (pos b) (negsuc c) h k = absurd (cc)
int_lt_behind (negsuc a) (negsuc b) (pos c) h k = refl
int_lt_behind (negsuc a) (negsuc b) (negsuc c) h k = ground arith

goes_first-IsWeakOrder : IsWeakOrder goes_first
goes_first-IsWeakOrder = record {
  asymm = λ a b h. int_lt-asymm b.priority a.priority h;
  behind = λ a b c h k. int_lt_behind c.priority b.priority a.priority k h;
}

module _ (p : Route → Bool) where
  -- The best of the routes that pass a test: of the highest priority, and of those the first.
  abbrev better : Route → Option Route → Option Route
  better x none = some x
  better x (some y) = if goes_first y x then some y else some x

  abbrev best : List Route → Option Route
  best [] = none
  best (x ∷ xs) = let rest = best xs in if p x then better x rest else rest

  first_behind :
      (x : Route) (ys : List Route)
      → All (λ y. goes_first y x ≡ false) ys
      → better x (first_of p ys) ≡ some x
  first_behind x [] h = refl
  first_behind x (y ∷ ys) h = elim (Bool-cases (p y)) [
    | inl e ↦ rw (e, h.0)
    | inr e ↦ rw e (first_behind x ys h.1)
  ]

  first_of-insert_sorted :
      (x : Route) (ys : List Route)
      → IsSortedBy goes_first ys
      → first_of p (insert_sorted goes_first x ys)
        ≡ (if p x then better x (first_of p ys) else first_of p ys)
  unfolding insert_sorted
  first_of-insert_sorted x [] s = refl
  first_of-insert_sorted x (y ∷ ys) s = elim (Bool-cases (goes_first y x)) [
    | inl e ↦ elim (Bool-cases (p y)) [
      | inl py ↦ elim (Bool-cases (p x)) [ inl px ↦ rw (e, py, px, e) | inr px ↦ rw (e, py, px) ]
      | inr py ↦ rw (e, py) (first_of-insert_sorted x ys s.1)
    ]
    | inr e ↦ elim (Bool-cases (p x)) [
      | inl px ↦
          rw (e, px)
            (sym (
              first_behind x (y ∷ ys)
                (e, All-behind goes_first goes_first-IsWeakOrder x y ys e s.0)))
      | inr px ↦ rw (e, px)
    ]
  ]

  first_of-sort : (xs : List Route) → first_of p (sort goes_first xs) ≡ best xs
  unfolding sort
  first_of-sort [] = refl
  first_of-sort (x ∷ xs) =
      first_of-insert_sorted x (sort goes_first xs)
        (sort-IsSortedBy goes_first goes_first-IsWeakOrder xs)
      ∙ rw (first_of-sort xs)

-- `r` is taken from `routes`: it passes the test, no route that passes has a higher priority, and
-- none before it has the same.
pub record IsChosen (p : Route → Bool) (routes : List Route) (r : Route) : Type 0 where
  pub before : List Route
  pub after : List Route
  pub split_at : routes ≡ before ++ r ∷ after
  pub applies : p r ≡ true
  pub first : All (λ s. p s ≡ true → int_lt s.priority r.priority ≡ true) before
  pub highest : All (λ s. p s ≡ true → int_lt r.priority s.priority ≡ false) after

none_pass : (p : Route → Bool) (xs : List Route) → best p xs ≡ none → All (λ s. p s ≡ false) xs
none_pass p [] h = tt
none_pass p (x ∷ xs) h = elim (Bool-cases (p x)) [
  | inr e ↦ (e, none_pass p xs (rw e at h))
  | inl e ↦ elim (Option-cases (best p xs)) [
    | inl empty ↦ absurd (cc (rw (e, empty) at h))
    | inr (y, some_y) ↦ elim (Bool-cases (goes_first y x)) [
      | inl f ↦ absurd (cc (rw (e, some_y, f) at h))
      | inr f ↦ absurd (cc (rw (e, some_y, f) at h))
    ]
  ]
]

-- What is chosen has the highest priority of all.
not_beaten :
    (p : Route → Bool) (xs : List Route) (x y : Route)
    → IsChosen p xs y
    → goes_first y x ≡ false
    → All (λ s. p s ≡ true → goes_first s x ≡ false) xs
not_beaten p xs x y c h =
    let o = goes_first-IsWeakOrder in
    subst (All (λ s. p s ≡ true → goes_first s x ≡ false)) (sym c.split_at) (
      All-append _ c.before (y ∷ c.after)
        (All-map c.before (λ s f e. o.behind x y s h (o.asymm y s (f e))) c.first)
        (λ e. h, All-map c.after (λ s f e. o.behind x y s h (f e)) c.highest))

-- A route in front that is not taken.
later :
    (p : Route → Bool) (x : Route) (xs : List Route) (r : Route)
    → IsChosen p xs r
    → (p x ≡ true → int_lt x.priority r.priority ≡ true)
    → IsChosen p (x ∷ xs) r
later p x xs r c f = record {
  before = x ∷ c.before;
  after = c.after;
  split_at = ap (◌∷◌ x) c.split_at;
  applies = c.applies;
  first = (f, c.first);
  highest = c.highest;
}

-- The route in front is taken.
now :
    (p : Route → Bool) (x : Route) (xs : List Route) (r : Route)
    → p x ≡ true
    → x ≡ r
    → All (λ s. p s ≡ true → goes_first s x ≡ false) xs
    → IsChosen p (x ∷ xs) r
now p x xs r e same f =
    subst (IsChosen p (x ∷ xs)) same
      (record { before = []; after = xs; split_at = refl; applies = e; first = tt; highest = f })

best-IsChosen :
    (p : Route → Bool) (xs : List Route) (r : Route) → best p xs ≡ some r → IsChosen p xs r
best-IsChosen p [] r h = absurd (cc)
best-IsChosen p (x ∷ xs) r h = elim (Bool-cases (p x)) [
  | inr e ↦ later p x xs r (best-IsChosen p xs r (rw e at h)) (λ k. absurd (cc (e, k)))
  | inl e ↦ elim (Option-cases (best p xs)) [
    | inl empty ↦
        now p x xs r e (cc (rw (e, empty) at h))
          (All-map xs (λ s fails passes. absurd (cc (fails, passes))) (none_pass p xs empty))
    | inr (y, some_y) ↦ elim (Bool-cases (goes_first y x)) [
      | inl f ↦
          let same : y ≡ r = cc (rw (e, some_y, f) at h) in
          later p x xs r (best-IsChosen p xs r (some_y ∙ ap some same))
            (λ k. subst (λ z. goes_first z x ≡ true) same f)
      | inr f ↦
          now p x xs r e (cc (rw (e, some_y, f) at h))
            (not_beaten p xs x y (best-IsChosen p xs y some_y) f)
    ]
  ]
]

-- The route that a registry made from `routes` takes for a request.
pub data Matches (req : ResolveRequest) (routes : List Route) (found : Option Route) : Type 0 where
  none_applies :
      found ≡ none → All (λ s. route_applies req s ≡ false) routes → Matches req routes found
  chosen :
      (r : Route)
      → found ≡ some r
      → IsChosen (route_applies req) routes r
      → Matches req routes found

first_of-Matches :
    (req : ResolveRequest) (routes : List Route) (plugs : List Plugin)
    → Matches req routes (first_of (route_applies req) (new_registry routes plugs).routes)
unfolding new_registry
first_of-Matches req routes plugs =
    let p = route_applies req in
    rw (first_of-sort p routes) (elim (Option-cases (best p routes)) [
      | inl empty ↦ none_applies empty (none_pass p routes empty)
      | inr (r, found) ↦ chosen r found (best-IsChosen p routes r found)
    ])

-- The registry made from a list of routes, in any order, decides a request by one route of the
-- list: one that applies to it, no route that applies has a higher priority, and every one that
-- applies and stands before it in the list has a lower one. The match is that route with its
-- plugin, or fails if the plugin is not registered. Otherwise no route of the list applies, and
-- the match fails.
pub match-Matches :
    (req : ResolveRequest) (routes : List Route) (plugs : List Plugin)
    → let r = new_registry routes plugs in
      (found : Option Route) × (match req r ≡ with_plugin r.plugins found)
      × Matches req routes found
unfolding match
match-Matches req routes plugs = (
  first_of (route_applies req) (new_registry routes plugs).routes,
  refl,
  first_of-Matches req routes plugs,
)
