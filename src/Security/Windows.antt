-- ===== src/Security/Windows.antt =====
-- What the sliding windows of internal/security/analyzer.go count.
use any_ns.Base.{
  ℕ, suc, ◌≤◌, ◌≡◌, refl, sym, ap, ◌∙◌, List, [], ◌∷◌, ◌++◌, false, some, Text, ◌=t◌, =t_iff,
  filter, filter-append, length, leb, if◌then◌else◌, arith, Bool-cases, inl, inr, All,
}
use mathlib.Core.Path.{subst}
use mathlib.Core.List.{append-nil, append_assoc}
use any_ns.Base.Int.{pos}
use any_ns.Base.Dict.{Dict, lookup, insert, lookup-insert}
use any_ns.Security.Counters.{is_recent, values_at, within, track_window_count}

-- Events of several keys, each with its time.
unfoldable pub track_all : ℕ → ℕ → List (Text × ℕ) → Dict (List ℕ) → Dict (List ℕ)
track_all window threshold [] store = store
track_all window threshold ((key, t) ∷ events) store =
    track_all window threshold events
      (track_window_count t key (pos (suc window)) (pos (suc threshold)) store).0

-- The times of one key.
abbrev pub times_of : Text → List (Text × ℕ) → List ℕ
times_of key [] = []
times_of key ((k, t) ∷ events) =
    let rest = times_of key events in if k =t key then t ∷ rest else rest

filter-filter_recent :
    (w now t : ℕ) (xs : List ℕ)
    → t ≤ now
    → filter (is_recent w now) (filter (is_recent w t) xs) ≡ filter (is_recent w now) xs
filter-filter_recent w now t [] h = refl
filter-filter_recent w now t (x ∷ xs) h = elim (Bool-cases (is_recent w t x)) [
  | inl e ↦ rw (e, filter-filter_recent w now t xs h)
  | inr e ↦
      let gone : is_recent w now x ≡ false = ground arith in
      rw (e, gone) (filter-filter_recent w now t xs h)
]

-- The times of each key that can still be recent are stored.
abbrev Keeps : ℕ → List (Text × ℕ) → Dict (List ℕ) → Type 0
Keeps w past store =
    (key : Text) (now : ℕ)
    → All (λ t. t ≤ now) (times_of key past)
    → filter (is_recent w now) (values_at (lookup key store))
      ≡ filter (is_recent w now) (times_of key past)

times_of-append :
    (key : Text) (xs ys : List (Text × ℕ))
    → times_of key (xs ++ ys) ≡ times_of key xs ++ times_of key ys
times_of-append key [] ys = refl
times_of-append key ((k, t) ∷ xs) ys = elim (Bool-cases (k =t key)) [
  | inl e ↦ rw e (ap (◌∷◌ t) (times_of-append key xs ys))
  | inr e ↦ rw e (times_of-append key xs ys)
]

All_front : (P : ℕ → Type 0) (xs ys : List ℕ) → All P (xs ++ ys) → All P xs × All P ys
All_front P [] ys h = (tt, h)
All_front P (x ∷ xs) ys h = let (a, b) = All_front P xs ys h.1 in ((h.0, a), b)

-- What `Keeps` says of one key.
abbrev KeepsAt : ℕ → List (Text × ℕ) → Dict (List ℕ) → Text → Type 0
KeepsAt w past store key =
    (now : ℕ)
    → All (λ t. t ≤ now) (times_of key past)
    → filter (is_recent w now) (values_at (lookup key store))
      ≡ filter (is_recent w now) (times_of key past)

module _ (w threshold t : ℕ) (k : Text) (past : List (Text × ℕ)) (store : Dict (List ℕ)) where
  kept_times : List ℕ
  kept_times = within (suc w) t (values_at (lookup k store))

  same_key :
      KeepsAt (suc w) past store k
      → KeepsAt (suc w) (past ++ (k, t) ∷ []) (insert k kept_times store) k
  unfolding kept_times
  same_key s now h =
      let v = values_at (lookup k store) in
      let self = (=t_iff k k).1 refl in
      let last : times_of k (past ++ (k, t) ∷ []) ≡ times_of k past ++ t ∷ [] =
        times_of-append k past ((k, t) ∷ []) ∙ rw self in
      let (old, new) = All_front (λ u. u ≤ now) (times_of k past) (t ∷ []) (rw last at h) in
      ap (λ o. filter (is_recent (suc w) now) (values_at o)) {y = some kept_times}
        (lookup-insert k k kept_times store ∙ rw self)
      ∙ filter-append (is_recent (suc w) now) (filter (is_recent (suc w) t) v) (t ∷ [])
      ∙ ap (λ xs. xs ++ filter (is_recent (suc w) now) (t ∷ []))
          (filter-filter_recent (suc w) now t v new.0 ∙ s now old)
      ∙ sym (filter-append (is_recent (suc w) now) (times_of k past) (t ∷ []))
      ∙ ap (filter (is_recent (suc w) now)) (sym last)

  other_key :
      (key : Text)
      → (k =t key) ≡ false
      → KeepsAt (suc w) past store key
      → KeepsAt (suc w) (past ++ (k, t) ∷ []) (insert k kept_times store) key
  other_key key e s now h =
      let same : times_of key (past ++ (k, t) ∷ []) ≡ times_of key past =
        times_of-append key past ((k, t) ∷ []) ∙ rw e (append-nil (times_of key past)) in
      ap (λ o. filter (is_recent (suc w) now) (values_at o)) {y = lookup key store}
        (lookup-insert k key kept_times store ∙ rw e)
      ∙ s now (rw same at h)
      ∙ ap (filter (is_recent (suc w) now)) (sym same)

  track_window_count-Keeps :
      Keeps (suc w) past store
      → Keeps
          (suc w)
          (past ++ (k, t) ∷ [])
          (track_window_count t k (pos (suc w)) (pos (suc threshold)) store).0
  unfolding track_window_count kept_times
  track_window_count-Keeps s key = elim (Bool-cases (k =t key)) [
    | inl e ↦
        subst (KeepsAt (suc w) (past ++ (k, t) ∷ []) (insert k kept_times store))
          ((=t_iff k key).0 e) (same_key (s k))
    | inr e ↦ other_key key e (s key)
  ]

track_all-Keeps :
    (w threshold : ℕ) (events past : List (Text × ℕ)) (store : Dict (List ℕ))
    → Keeps (suc w) past store
    → Keeps (suc w) (past ++ events) (track_all w threshold events store)
unfolding track_all
track_all-Keeps w threshold [] past store s =
    subst (λ p. Keeps (suc w) p store) (sym (append-nil past)) s
track_all-Keeps w threshold ((k, t) ∷ events) past store s =
    subst (λ p. Keeps (suc w) p (track_all w threshold ((k, t) ∷ events) store))
      (append_assoc past ((k, t) ∷ []) events)
      (track_all-Keeps w threshold events (past ++ (k, t) ∷ [])
        (track_window_count t k (pos (suc w)) (pos (suc threshold)) store).0
        (track_window_count-Keeps w threshold t k past store s))

-- The sliding window is exact: after any events of any keys, none of the times of this key lying
-- after the present, an event of a key reaches a threshold exactly if that many of the key's
-- events, this one included, lie less than the window's seconds back. What was thrown away
-- earlier, and other keys, make no difference.
pub track_window_count-exact :
    (w threshold now : ℕ) (key : Text) (events : List (Text × ℕ))
    → All (λ t. t ≤ now) (times_of key events)
    → (track_window_count now key
        (pos (suc w))
        (pos (suc threshold))
        (track_all w threshold events [])).1
      ≡ leb
          (suc threshold)
          (length (filter (is_recent (suc w) now) (times_of key events) ++ now ∷ []))
unfolding track_window_count lookup
track_window_count-exact w threshold now key events h =
    ap (λ xs. leb (suc threshold) (length (xs ++ now ∷ [])))
      (track_all-Keeps w threshold events [] [] (λ k n e. refl) key now h)
