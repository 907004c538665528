-- ===== src/Access/Granted.antt =====
-- Which requests internal/httpapi/httpapi.go takes to come from whom.
use any_ns.Base.{
  ℕ, List, [], ◌∷◌, ◌++◌, true, false, Option, none, some, ◌≡◌, refl, ap, Text, ◌=t◌, =t_iff,
  is_empty, has_prefix, All, arith, Bool-cases, inl, inr, ◌⊎◌, ◌≤◌,
}
use any_ns.Access.{
  Platform, ManagementConfig, ManagementKey, Principal, Request, management_key_active,
  management_key_allows_client, is_passed, find_key, anonymous, legacy, principal_of, is_legacy,
  is_reached, parse_key_time, scopes_for_key, bearer, token_of, found_or_legacy,
  principal_from_request,
}

module _ (p : Platform) where
  -- A key that stands for a request: it has a token, it is active, it allows the client, and its
  -- token is the one presented.
  abbrev pub IsUsable : ℕ → Request → ManagementKey → Type 0
  IsUsable now r key =
      ((is_empty key.api_key ≡ false)
        × (management_key_active p key now ≡ true)
        × (management_key_allows_client p key r ≡ true)
        × (token_of p r ≡ key.api_key))

  -- A key that does not.
  abbrev pub IsUseless : ℕ → Request → ManagementKey → Type 0
  IsUseless now r key = IsUsable now r key → ⊥

  -- Who is behind a request.
  pub data Comes (m : ManagementConfig) (now : ℕ) (r : Request) : Option Principal → Type 0 where
    from_anyone : m.auth_required ≡ false → Comes m now r (some (anonymous p))
    without_token :
        m.auth_required ≡ true → has_prefix r.authorization (bearer p) ≡ false → Comes m now r none
    from_key :
        m.auth_required ≡ true
        → has_prefix r.authorization (bearer p) ≡ true
        → (before after : List ManagementKey) (key : ManagementKey) → m.keys ≡ before ++ key ∷ after
        → All (IsUseless now r) before
        → IsUsable now r key
        → Comes m now r (some (principal_of p m key))
    from_legacy :
        m.auth_required ≡ true
        → has_prefix r.authorization (bearer p) ≡ true
        → All (IsUseless now r) m.keys
        → is_empty m.api_key ≡ false
        → token_of p r ≡ m.api_key
        → Comes m now r (some (legacy p))
    from_nobody :
        m.auth_required ≡ true
        → has_prefix r.authorization (bearer p) ≡ true
        → All (IsUseless now r) m.keys
        → is_legacy p m (token_of p r) ≡ false
        → Comes m now r none

  -- How the search for a key ends.
  data Search (now : ℕ) (r : Request) (keys : List ManagementKey)
      : Option ManagementKey → Type 0 where
    hit :
        (before after : List ManagementKey) (key : ManagementKey)
        → keys ≡ before ++ key ∷ after
        → All (IsUseless now r) before
        → IsUsable now r key
        → Search now r keys (some key)
    miss : All (IsUseless now r) keys → Search now r keys none

  Search-cons :
      (now : ℕ) (r : Request) (key : ManagementKey) (keys : List ManagementKey)
      (o : Option ManagementKey)
      → IsUseless now r key
      → Search now r keys o
      → Search now r (key ∷ keys) o
  Search-cons now r key keys _ u (hit before after k e b h) =
      hit (key ∷ before) after k (ap (◌∷◌ key) e) (u, b) h
  Search-cons now r key keys _ u (miss b) = miss (u, b)

  find_key-Search :
      (now : ℕ) (r : Request) (keys : List ManagementKey)
      → Search now r keys (find_key p now r (token_of p r) keys)
  unfolding find_key
  find_key-Search now r [] = miss tt
  find_key-Search now r (key ∷ keys) = elim (Bool-cases (is_passed p key now r)) [
    | inl passed ↦
        rw passed (
          Search-cons now r key keys _ (λ u. ground (arith, u, passed))
            (find_key-Search now r keys))
    | inr kept ↦ elim (Bool-cases (token_of p r =t key.api_key)) [
      | inl same ↦
          rw (kept, same)
            (hit [] keys key refl tt (
              ground (arith, kept),
              ground (arith, kept),
              ground (arith, kept),
              (=t_iff _ _).0 same,
            ))
      | inr other_token ↦
          rw (kept, other_token)
            (Search-cons now r key keys _
              (λ u. ground (arith, (=t_iff (token_of p r) key.api_key).1 u.3))
              (find_key-Search now r keys))
    ]
  ]

  principal_found :
      (m : ManagementConfig) (now : ℕ) (r : Request) (o : Option ManagementKey)
      → m.auth_required ≡ true
      → has_prefix r.authorization (bearer p) ≡ true
      → Search now r m.keys o
      → Comes m now r (found_or_legacy p m (token_of p r) o)
  principal_found m now r _ a b (hit before after k e u h) = from_key a b before after k e u h
  principal_found m now r _ a b (miss u) = elim (Bool-cases (is_legacy p m (token_of p r))) [
    | inl h ↦ rw h (from_legacy a b u (ground (arith, h)) ((=t_iff _ _).0 (ground (arith, h))))
    | inr h ↦ rw h (from_nobody a b u h)
  ]

  -- Who a request is taken to come from, in every case. Without authentication that is the
  -- anonymous principal, and without a bearer token nobody. Otherwise it is the first key that has a
  -- token, is active, allows the client and has the token presented, with that key's id and scopes;
  -- where no key is such, it is the legacy principal if the presented token is the configured legacy
  -- token, which is not empty, and nobody if not.
  pub principal_from_request-Comes :
      (m : ManagementConfig) (now : ℕ) (r : Request)
      → Comes m now r (principal_from_request p m now r)
  unfolding principal_from_request
  principal_from_request-Comes m now r = elim (Bool-cases m.auth_required) [
    | inr off ↦ simp off (from_anyone off)
    | inl on ↦ elim (Bool-cases (has_prefix r.authorization (bearer p))) [
      | inr bare ↦ simp (on, bare) (without_token on bare)
      | inl token ↦
          simp (on, token) (principal_found m now r _ on token (find_key-Search now r m.keys))
    ]
  ]

  find_key_skips :
      (now : ℕ) (r : Request) (got : Text) (before after : List ManagementKey) (key : ManagementKey)
      → is_passed p key now r ≡ true
      → find_key p now r got (before ++ key ∷ after) ≡ find_key p now r got (before ++ after)
  unfolding find_key
  find_key_skips now r got [] after key h = rw h refl
  find_key_skips now r got (k ∷ before) after key h =
      rw (find_key_skips now r got before after key h) refl

  passed_inactive :
      (key : ManagementKey) (now : ℕ) (r : Request)
      → management_key_active p key now ≡ false
      → is_passed p key now r ≡ true
  passed_inactive key now r h = ground (arith, h)

  found_without :
      (m : ManagementConfig) (keys : List ManagementKey) (got : Text) (o : Option ManagementKey)
      → found_or_legacy p (record m { keys = keys }) got o ≡ found_or_legacy p m got o
  unfolding scopes_for_key
  found_without m keys got none = refl
  found_without m keys got (some key) = refl

  -- The end of a key has come: it is revoked, or expired.
  abbrev pub IsOver : ℕ → ManagementKey → Type 0
  IsOver now key =
      (is_reached now (parse_key_time p key.revoked_at) ≡ true)
      ⊎ (is_reached now (parse_key_time p key.expires_at) ≡ true)

  is_reached_later :
      (now later : ℕ) (t : Option ℕ)
      → now ≤ later
      → is_reached now t ≡ true
      → is_reached later t ≡ true
  is_reached_later now later none h e = e
  is_reached_later now later (some t) h e = ground arith

  pub inactive_over :
      (now later : ℕ) (key : ManagementKey)
      → now ≤ later
      → IsOver now key
      → management_key_active p key later ≡ false
  unfolding management_key_active
  inactive_over now later key h (inl e) =
      ground (arith, is_reached_later now later (parse_key_time p key.revoked_at) h e)
  inactive_over now later key h (inr e) =
      ground (arith, is_reached_later now later (parse_key_time p key.expires_at) h e)

  -- Once a key is revoked or expired, no request is ever answered with it again: from that time on,
  -- every request is taken to come from whom it would come from if the key were not configured.
  pub over_key_ignored :
      (m : ManagementConfig) (before after : List ManagementKey) (key : ManagementKey)
      (now later : ℕ) (r : Request)
      → now ≤ later
      → IsOver now key
      → principal_from_request p (record m { keys = before ++ key ∷ after }) later r
        ≡ principal_from_request p (record m { keys = before ++ after }) later r
  unfolding principal_from_request
  over_key_ignored m before after key now later r h over =
      let skipped =
        find_key_skips later r (token_of p r) before after key
          (passed_inactive key later r (inactive_over now later key h over)) in
      simp
        (
          skipped,
          found_without m (before ++ key ∷ after) (token_of p r),
          found_without m (before ++ after) (token_of p r),
        )
        refl
