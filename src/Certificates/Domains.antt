-- ===== src/Certificates/Domains.antt =====
-- What `normalizeDomains` of internal/certificates/manager.go returns.
use any_ns.Base.{
  suc, ◌+◌, ◌≤◌, ◌≡◌, refl, ap, List, [], ◌∷◌, ◌++◌, true, false, ◌||◌, Text, ◌=t◌, =t_iff, text_lt,
  length, length-append, any, ltb, ◌==◌, if◌then◌else◌, arith, Bool-cases, inl, inr, ◌⊎◌, All,
  All-append, Has, ==_iff,
}
use any_ns.Base.Result.{ok, >>=-eq-ok, ok-injective}
use any_ns.Base.Sort.{sort, insert_sorted, length-sort, sort-All, sort-Has, insert_sorted-All}
use any_ns.Base.Order.{text_lt-IsStrictOrder}
use any_ns.DnsName.{Idna}
use any_ns.Certificates.{normalize_domain, collect_domains, normalize_domains}

-- No text stands twice.
abbrev Distinct : List Text → Type 0
Distinct [] = Unit
Distinct (x ∷ xs) = All (λ y. (y =t x) ≡ false) xs × Distinct xs

-- Each text comes before all later ones.
abbrev pub Increasing : List Text → Type 0
Increasing [] = Unit
Increasing (x ∷ xs) = All (λ y. text_lt x y ≡ true) xs × Increasing xs

Distinct-snoc :
    (xs : List Text) (a : Text)
    → Distinct xs
    → any (λ seen. seen =t a) xs ≡ false
    → Distinct (xs ++ a ∷ [])
Distinct-snoc [] a d h = (tt, tt)
Distinct-snoc (x ∷ xs) a d h = (
  All-append (λ y. (y =t x) ≡ false) xs (a ∷ []) d.0 (ground (arith, =t_iff x a, =t_iff a x), tt),
  Distinct-snoc xs a d.1 (ground arith),
)

before-All :
    (x y : Text) (ys : List Text)
    → text_lt x y ≡ true
    → All (λ z. text_lt y z ≡ true) ys
    → All (λ z. text_lt x z ≡ true) ys
before-All x y [] h k = tt
before-All x y (z ∷ ys) h k = (text_lt-IsStrictOrder.trans x y z h k.0, before-All x y ys h k.1)

insert-Increasing :
    (x : Text) (xs : List Text)
    → All (λ y. (y =t x) ≡ false) xs
    → Increasing xs
    → Increasing (insert_sorted text_lt x xs)
unfolding insert_sorted
insert-Increasing x [] n h = (tt, tt)
insert-Increasing x (y ∷ ys) n h = elim (Bool-cases (text_lt y x)) [
  | inl e ↦ rw e (
    insert_sorted-All text_lt (λ z. text_lt y z ≡ true) x ys e h.0,
    insert-Increasing x ys n.1 h.1,
  )
  | inr e ↦
      let first : text_lt x y ≡ true =
        ground (arith, =t_iff y x, text_lt-IsStrictOrder.connex x y) in
      rw e ((first, before-All x y ys first h.0), h)
]

sort-Increasing : (xs : List Text) → Distinct xs → Increasing (sort text_lt xs)
unfolding sort
sort-Increasing [] d = tt
sort-Increasing (x ∷ xs) d =
    insert-Increasing x (sort text_lt xs) (sort-All text_lt (λ y. (y =t x) ≡ false) xs d.0)
      (sort-Increasing xs d.1)

found_in : (a : Text) (xs : List Text) → any (λ seen. seen =t a) xs ≡ true → Has a xs
found_in a [] h = cc
found_in a (x ∷ xs) h = elim (Bool-cases (x =t a)) [
  | inl same ↦ inl ((=t_iff x a).0 same)
  | inr apart ↦ inr (found_in a xs (rw apart at h))
]

append-Has : (x : Text) (xs ys : List Text) → Has x xs ⊎ Has x ys → Has x (xs ++ ys)
append-Has x [] ys (inl h) = absurd h.lower
append-Has x [] ys (inr h) = h
append-Has x (y ∷ xs) ys (inl (inl e)) = inl e
append-Has x (y ∷ xs) ys (inl (inr h)) = inr (append-Has x xs ys (inl h))
append-Has x (y ∷ xs) ys (inr h) = inr (append-Has x xs ys (inr h))

-- The list after one domain.
abbrev with_domain : Text → List Text → List Text
with_domain ascii out = if any (λ seen. seen =t ascii) out then out else out ++ ascii ∷ []

record OneMore (a : Text) (out next : List Text) : Type 1 where
  distinct : Distinct out → Distinct next
  kept : (x : Text) → Has x out → Has x next
  there : Has a next
  only : (Q : Text → Type 0) → All Q out → Q a → All Q next
  size : length next ≤ suc (length out)

with_domain-OneMore : (a : Text) (out : List Text) → OneMore a out (with_domain a out)
with_domain-OneMore a out = elim (Bool-cases (any (λ seen. seen =t a) out)) [
  | inl e ↦ rw e (record {
    distinct = λ d. d;
    kept = λ x h. h;
    there = found_in a out e;
    only = λ Q h q. h;
    size = omega arith;
  })
  | inr e ↦ rw e (record {
    distinct = λ d. Distinct-snoc out a d e;
    kept = λ x h. append-Has x out (a ∷ []) (inl h);
    there = append-Has a out (a ∷ []) (inr (inl refl));
    only = λ Q h q. All-append Q out (a ∷ []) h (q, tt);
    size = omega (arith, length-append out (a ∷ []));
  })
]

-- `d` is a domain whose normal form is in the list.
abbrev pub IsCovered : Idna → List Text → Text → Type 0
IsCovered idna r d = (a : Text) × (normalize_domain idna d ≡ ok a) × Has a r

-- `a` is the normal form of a domain of the list.
abbrev pub IsFrom : Idna → List Text → Text → Type 0
IsFrom idna domains a = (d : Text) × Has d domains × (normalize_domain idna d ≡ ok a)

record Collected (idna : Idna) (domains out r : List Text) : Type 1 where
  distinct : Distinct out → Distinct r
  kept : (x : Text) → Has x out → Has x r
  covered : All (IsCovered idna r) domains
  only : (Q : Text → Type 0) → All Q out → ((a : Text) → IsFrom idna domains a → Q a) → All Q r
  size : length r ≤ length out + length domains

collect_domains-Collected :
    (idna : Idna) (domains out r : List Text)
    → collect_domains idna domains out ≡ ok r
    → Collected idna domains out r
unfolding collect_domains
collect_domains-Collected idna [] out r h =
    let same = ok-injective h in
    record {
      distinct = λ d. rw (← same) d;
      kept = λ x k. rw (← same) k;
      covered = tt;
      only = λ Q q f. rw (← same) q;
      size = omega (arith, ap length same);
    }
collect_domains-Collected idna (d ∷ domains) out r h =
    let (a, one, more) = >>=-eq-ok (normalize_domain idna d) _ h in
    let ih = collect_domains-Collected idna domains (with_domain a out) r more in
    let step = with_domain-OneMore a out in
    record {
      distinct = λ e. ih.distinct (step.distinct e);
      kept = λ x e. ih.kept x (step.kept x e);
      covered = ((a, one, ih.kept a step.there), ih.covered);
      only = λ Q q f.
          ih.only Q (step.only Q q (f a (d, inl refl, one))) (λ b (e, k, o). f b (e, inr k, o));
      size = omega (arith, ih.size, step.size);
    }

sort-IsCovered :
    (idna : Idna) (r domains : List Text)
    → All (IsCovered idna r) domains
    → All (IsCovered idna (sort text_lt r)) domains
sort-IsCovered idna r [] h = tt
sort-IsCovered idna r (d ∷ domains) ((a, n, k), h) =
    ((a, n, sort-Has text_lt a r k), sort-IsCovered idna r domains h)

some_covered :
    (idna : Idna) (r domains : List Text)
    → All (IsCovered idna r) domains
    → 1 ≤ length domains
    → 1 ≤ length r
some_covered idna r [] h k = absurd (omega arith)
some_covered idna [] (d ∷ domains) ((a, n, e), h) k = absurd e.lower
some_covered idna (x ∷ r) (d ∷ domains) h k = omega arith

-- The normal forms of `domains`, each once and in order.
pub record IsDomainSet (idna : Idna) (domains out : List Text) : Type 0 where
  increasing : Increasing out
  covered : All (IsCovered idna out) domains
  only : All (IsFrom idna domains) out
  at_least : 1 ≤ length out
  at_most : length out ≤ 10

-- Whatever the IDNA library answers, when the domains of a request are accepted, the result is in
-- strictly increasing order, so without duplicates; it has the normal form of every domain of the
-- request, every one of its elements is the normal form of one of them, and it has 1 to 10
-- elements.
pub normalize_domains-IsDomainSet :
    (idna : Idna) (domains out : List Text)
    → normalize_domains idna domains ≡ ok out
    → IsDomainSet idna domains out
unfolding normalize_domains
normalize_domains-IsDomainSet idna domains out h =
    elim (Bool-cases (length domains == 0 || ltb 10 (length domains))) [
      | inl bad ↦ absurd (cc (rw bad at h))
      | inr good ↦
          let (r, done, sorted) = >>=-eq-ok (collect_domains idna domains []) _ (rw good at h) in
          let c = collect_domains-Collected idna domains [] r done in
          rw (← ok-injective sorted) (record {
            increasing = sort-Increasing r (c.distinct tt);
            covered = sort-IsCovered idna r domains c.covered;
            only =
                sort-All text_lt (IsFrom idna domains) r
                  (c.only (IsFrom idna domains) tt (λ a f. f));
            at_least = ground (
              arith,
              length-sort text_lt r,
              some_covered idna r domains c.covered,
              ==_iff (length domains) 0,
            );
            at_most = ground (arith, length-sort text_lt r, c.size, good);
          })
    ]
