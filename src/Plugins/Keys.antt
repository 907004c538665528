-- ===== src/Plugins/Keys.antt =====
-- The key under which internal/plugins/router.go caches an answer, and who else gets it.
use any_ns.Base.{
  ◌+◌, ◌*◌, ◌≤◌, true, none, some, ltb, arith, sym, ◌≡◌, refl, ap, ◌∙◌, [], ◌∷◌, ◌++◌, false, Text,
  txt, lower, is_space, to_lower, trim_space_none, All, All-append, All-map, join,
}
use mathlib.Core.List.{append_assoc}
use any_ns.Base.Int.{is_pos, to_ℕ}
use any_ns.Base.Result.{ok}
use any_ns.Plugins.{ResolveRequest, ResolveResult, Route}
use any_ns.Plugins.Router.{
  normalize_route_value, cache_key, Registry, Plugin, Call, second, get_cached, set_cached,
  cache_hit, normalized, match, answered, resolve,
}
use any_ns.Plugins.Caching.{
  returned, get_cached-set_cached, match-set_cached, resolve_missed, resolve_hit,
}

-- A text without spaces and capital letters.
abbrev pub IsPlain : Text → Type 0
IsPlain s = All (λ c. (is_space c ≡ false) × (lower c ≡ c)) s

to_lower_plain : (s : Text) → IsPlain s → to_lower s ≡ s
unfolding to_lower
to_lower_plain [] h = refl
to_lower_plain (c ∷ s) h = rw (h.0.1, to_lower_plain s h.1)

normalize_plain : (s : Text) → IsPlain s → normalize_route_value s ≡ s
unfolding normalize_route_value
normalize_plain s h =
    ap to_lower (trim_space_none s (All-map s (λ c k. k.0) h)) ∙ to_lower_plain s h

abbrev bar : Text
bar = txt "|"

bar-IsPlain : (s t : Text) → IsPlain s → IsPlain t → IsPlain (s ++ bar ++ t)
unfolding is_space lower
bar-IsPlain s t h k = All-append _ (s ++ bar) t (All-append _ s bar h ((refl, refl), tt)) k

-- Where a tenant ends and a view begins.
abbrev pub from : Text → Text → ResolveRequest → ResolveRequest
from tenant view req = record req {
  context = record req.context { tenant = tenant; client_view = view };
}

cache_key-from :
    (t u v : Text) (req : ResolveRequest)
    → IsPlain t
    → IsPlain u
    → IsPlain v
    → cache_key (from t (u ++ txt "|" ++ v) req) ≡ cache_key (from (t ++ txt "|" ++ u) v req)
unfolding cache_key join
cache_key-from t u v req a b c =
    rw
      (
        normalize_plain t a,
        normalize_plain v c,
        normalize_plain (u ++ bar ++ v) (bar-IsPlain u v b c),
        normalize_plain (t ++ bar ++ u) (bar-IsPlain t u a b),
      )
      (simp append_assoc refl)

-- The cache does not tell where the tenant ends and the view begins. For any three texts without
-- spaces and capital letters, let a request of tenant t and view u|v be routed to an enabled plugin
-- for which nothing is cached, and let the plugin answer with a positive TTL. While that answer
-- lives, the same request of tenant t|u and view v, if it is routed to the same plugin, is answered
-- by it as a cache hit, whatever the plugin would say to that request, and the registry stays as it
-- is.
pub shared_answer :
    (t u v : Text) (req : ResolveRequest) (c c' : Call) (r : Registry) (route route' : Route)
    (p : Plugin) (res : ResolveResult)
    → IsPlain t
    → IsPlain u
    → IsPlain v
    → match (normalized (from t (u ++ txt "|" ++ v) req)) r ≡ some (route, p)
    → match (normalized (from (t ++ txt "|" ++ u) v req)) r ≡ some (route', p)
    → p.enabled ≡ true
    → get_cached c.reads p.name (cache_key (normalized (from t (u ++ txt "|" ++ v) req))) r ≡ none
    → c.answer p.name (normalized (from t (u ++ txt "|" ++ v) req)) ≡ ok res
    → is_pos res.ttl ≡ true
    → c'.reads ≤ c.writes + to_ℕ res.ttl * second
    → let r' = (resolve c (from t (u ++ txt "|" ++ v) req) r).0 in
      resolve c' (from (t ++ txt "|" ++ u) v req) r'
      ≡ (r', returned route' (cache_hit c'.elapsed res))
unfolding answered
shared_answer t u v req c c' r route route' p res plain_t plain_u plain_v m m' e g a h live =
    let one = from t (u ++ txt "|" ++ v) req in
    let two = from (t ++ txt "|" ++ u) v req in
    let key = cache_key (normalized one) in
    let stored = set_cached c.writes p.name key res r in
    let first : resolve c one r ≡ (stored, returned route res) =
      resolve_missed c one r route p m e g ∙ ap (λ x. answered c route p key x r) a in
    let same : key ≡ cache_key (normalized two) =
      cache_key-from t u v (normalized req) plain_t plain_u plain_v in
    let soon : ltb (c.writes + to_ℕ res.ttl * second) c'.reads ≡ false = ground (arith, live) in
    let found : get_cached c'.reads p.name (cache_key (normalized two)) stored ≡ some res =
      ap (λ k. get_cached c'.reads p.name k stored) (sym same)
      ∙ get_cached-set_cached c'.reads c.writes p.name key res r h
      ∙ rw soon in
    simp (ap (λ x. x.0) first) (
      resolve_hit c' two stored route' p res
        (match-set_cached (normalized two) c.writes p.name key res r ∙ m') e found)
