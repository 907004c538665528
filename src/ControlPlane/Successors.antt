-- ===== src/ControlPlane/Successors.antt =====
-- Which keys count as the successor of another.
use any_ns.Base.{
  ℕ, ◌<◌, ◌≤◌, Bool, true, false, Option, none, some, ◌≡◌, ◌≢◌, refl, sym, ap, ◌↔◌, txt, ◌=t◌,
  =t_iff, trim_space, ltb, if◌then◌else◌, arith, Bool-cases, inl, inr, Has, some_inj,
}
use mathlib.Core.Path.{subst}
use any_ns.Base.Members.{any_iff}
use any_ns.Access.Granted.{inactive_over}
use any_ns.Access.{
  Platform, ManagementConfig, ManagementKey, is_ahead, is_reached, parse_key_time, scopes_for_key,
  management_key_active,
}
use any_ns.ControlPlane.{
  management_key_status, same_scopes, ends_by, is_after, is_successor, successor_of,
  has_overlapping_successor,
}

module _ (p : Platform) (m : ManagementConfig) where
  -- A key that takes over from one that ends at `end`: another key with the same scopes, that starts
  -- by then and ends after it, if ever.
  abbrev pub Succeeds : ManagementKey → ℕ → ManagementKey → Type 0
  Succeeds key end candidate =
      ((trim_space candidate.id ≢ trim_space key.id)
        × (same_scopes (scopes_for_key m key) (scopes_for_key m candidate) ≡ true)
        × (ends_by end (parse_key_time p candidate.expires_at) ≡ false)
        × (is_after end (parse_key_time p candidate.not_before) ≡ false))

  late_end :
      (now end : ℕ) (o : Option ℕ) → now < end → ends_by end o ≡ false → is_reached now o ≡ false
  late_end now end none h e = refl
  late_end now end (some t) h e = ground arith

  -- What ends after `end` is not expired before it.
  not_expired :
      (candidate : ManagementKey) (now end : ℕ)
      → now < end
      → ends_by end (parse_key_time p candidate.expires_at) ≡ false
      → (management_key_status p candidate now =t txt "expired") ≡ false
  unfolding management_key_status ◌=t◌
  not_expired candidate now end h e =
      rw (late_end now end (parse_key_time p candidate.expires_at) h e) (
        go (is_reached now (parse_key_time p candidate.revoked_at))
          (is_ahead now (parse_key_time p candidate.not_before)))
    where
      go :
          (r a : Bool)
          → ((if r then txt "revoked" else if a then txt "not_yet_active" else txt "active")
              =t txt "expired")
            ≡ false
      go true a = refl
      go false true = refl
      go false false = refl

  is_successor_iff :
      (key candidate : ManagementKey) (end now : ℕ)
      → now < end
      → (is_successor p m key end now candidate ≡ true) ↔ Succeeds key end candidate
  unfolding is_successor
  is_successor_iff key candidate end now h = (
    λ s.
        let late : ends_by end (parse_key_time p candidate.expires_at) ≡ false =
          ground (arith, s) in
        (
          ground (arith, s, =t_iff (trim_space candidate.id) (trim_space key.id)),
          ground (arith, s),
          late,
          ground (arith, s),
        ),
    λ s. ground (
      arith,
      s,
      =t_iff (trim_space candidate.id) (trim_space key.id),
      not_expired candidate now end h s.2,
    ),
  )

  -- A key has a successor exactly if it ends, and has not ended yet, and some configured key with
  -- another id has the same scopes, starts at the latest when the key ends, and ends after it or
  -- never. That the other key is not revoked is no part of it, and that it is not expired follows.
  pub has_overlapping_successor_iff :
      (key : ManagementKey) (now : ℕ)
      → (has_overlapping_successor p m key now ≡ true) ↔ (
          (end : ℕ) × (parse_key_time p key.expires_at ≡ some end)
          × (now < end)
          × ((candidate : ManagementKey) × Has candidate m.keys × Succeeds key end candidate))
  unfolding has_overlapping_successor
  has_overlapping_successor_iff key now = go (parse_key_time p key.expires_at)
    where
      go :
          (o : Option ℕ)
          → (successor_of p m key now o ≡ true) ↔ (
              (end : ℕ) × (o ≡ some end)
              × (now < end)
              × ((candidate : ManagementKey) × Has candidate m.keys × Succeeds key end candidate))
      go none = (λ h. absurd (ground (arith, h)), λ h. absurd (ground (arith, h.2)))
      go (some end) = elim (Bool-cases (ltb now end)) [
        | inr over ↦ rw over (
          λ h. absurd (ground (arith, h)),
          λ (e, same, later, _). absurd (ground (arith, some_inj same, later, over)),
        )
        | inl ahead ↦
            let (there, back) = any_iff (is_successor p m key end now) m.keys in
            rw ahead (
              λ h.
                  let (c, i, s) = there h in
                  (
                    end,
                    refl,
                    ground arith,
                    (c, i, (is_successor_iff key c end now (ground arith)).0 s),
                  ),
              λ (e, same, later, (c, i, s)). back (
                c,
                i,
                (is_successor_iff key c end now (ground arith)).1
                    (subst (λ x. Succeeds key x c) (sym (some_inj same)) s),
              ),
            )
      ]

  -- A revoked key counts as a successor: if a key that ends in the future is followed by a key with
  -- another id and the same scopes that is revoked already, and that has no other limits in time,
  -- then the key is shown to have a successor, although the other one opens nothing from now on.
  pub revoked_successor_counts :
      (key candidate : ManagementKey) (now end : ℕ)
      → parse_key_time p key.expires_at ≡ some end
      → now < end
      → Has candidate m.keys
      → trim_space candidate.id ≢ trim_space key.id
      → same_scopes (scopes_for_key m key) (scopes_for_key m candidate) ≡ true
      → parse_key_time p candidate.expires_at ≡ none
      → parse_key_time p candidate.not_before ≡ none
      → is_reached now (parse_key_time p candidate.revoked_at) ≡ true
      → ((has_overlapping_successor p m key now ≡ true)
          × ((later : ℕ) → now ≤ later → management_key_active p candidate later ≡ false))
  revoked_successor_counts key candidate now end e ahead i other_id scopes forever started revoked =
      (
        (has_overlapping_successor_iff key now).1 (
          end,
          e,
          ahead,
          (candidate, i, (other_id, scopes, ap (ends_by end) forever, ap (is_after end) started)),
        ),
        λ later h. inactive_over p now later candidate h (inl revoked),
      )
