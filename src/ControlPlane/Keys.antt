-- ===== src/ControlPlane/Keys.antt =====
-- What the status and the lifecycle of a management key mean.
use any_ns.Base.{
  ℕ, ◌+◌, ◌≤◌, Bool, true, false, Option, none, some, ◌≡◌, refl, ◌↔◌, ◌⊎◌, inl, inr, Text, txt,
  ◌=t◌, leb, if◌then◌else◌, arith, Bool-cases, some_inj, leb→le,
}
use any_ns.Access.{
  Platform, ManagementConfig, ManagementKey, is_ahead, is_reached, parse_key_time,
  management_key_active,
}
use any_ns.ControlPlane.{
  management_key_status, has_overlapping_successor, nearing, management_rotation_warning,
  management_key_lifecycle, management_key_view,
}

-- The status that is shown of a key is "active" exactly if the key opens the interface at that time:
-- the two packages agree on when a key is active.
management_key_status_iff :
    (p : Platform) (key : ManagementKey) (now : ℕ)
    → (management_key_status p key now ≡ txt "active") ↔ (management_key_active p key now ≡ true)
unfolding management_key_status management_key_active
management_key_status_iff p key now =
    agree (is_reached now (parse_key_time p key.revoked_at))
      (is_ahead now (parse_key_time p key.not_before))
      (is_reached now (parse_key_time p key.expires_at))
  where
    agree :
        (revoked ahead expired : Bool)
        → ((if revoked
              then txt "revoked"
              else if ahead
              then txt "not_yet_active"
              else if expired
              then txt "expired"
              else txt "active")
            ≡ txt "active")
          ↔ ((if ahead then false else if expired then false else if revoked then false else true)
              ≡ true)
    agree true true expired = (λ h. absurd (ground (arith, h)), λ h. absurd (ground (arith, h)))
    agree true false true = (λ h. absurd (ground (arith, h)), λ h. absurd (ground (arith, h)))
    agree true false false = (λ h. absurd (ground (arith, h)), λ h. absurd (ground (arith, h)))
    agree false true expired = (λ h. absurd (ground (arith, h)), λ h. absurd (ground (arith, h)))
    agree false false true = (λ h. absurd (ground (arith, h)), λ h. absurd (ground (arith, h)))
    agree false false false = (λ h. refl, λ h. refl)

module _ (p : Platform) (m : ManagementConfig) where
  -- What asks for a change of a key: it is over, it never ends, or it ends within seven days and
  -- nothing follows it.
  abbrev pub IsDue : ManagementKey → ℕ → Type 0
  IsDue key now =
      let status = management_key_status p key now in
      ((status ≡ txt "revoked")
        ⊎ ((status ≡ txt "expired")
            ⊎ ((status ≡ txt "active")
                × ((parse_key_time p key.expires_at ≡ none)
                    ⊎ ((end : ℕ) × (parse_key_time p key.expires_at ≡ some end)
                        × (end ≤ now + management_rotation_warning)
                        × (has_overlapping_successor p m key now ≡ false))))))

  data IsStatus : Text → Type 0 where
    revoked : IsStatus (txt "revoked")
    not_yet_active : IsStatus (txt "not_yet_active")
    expired : IsStatus (txt "expired")
    active : IsStatus (txt "active")

  status_of : (key : ManagementKey) (now : ℕ) → IsStatus (management_key_status p key now)
  unfolding management_key_status
  status_of key now =
      go (is_reached now (parse_key_time p key.revoked_at))
        (is_ahead now (parse_key_time p key.not_before))
        (is_reached now (parse_key_time p key.expires_at))
    where
      go :
          (r a e : Bool)
          → IsStatus (
              if r
              then txt "revoked"
              else if a
              then txt "not_yet_active"
              else if e
              then txt "expired"
              else txt "active")
      go true a e = revoked
      go false true e = not_yet_active
      go false false true = expired
      go false false false = active

  -- That a key is to be rotated, by its end and its successor.
  abbrev Nears : Option ℕ → ℕ → Bool → Type 0
  Nears o now successor =
      ((o ≡ none)
        ⊎ ((end : ℕ) × (o ≡ some end)
            × (end ≤ now + management_rotation_warning)
            × (successor ≡ false)))

  nearing_iff :
      (end now : ℕ) (successor : Bool)
      → ((nearing end now successor).0 ≡ true) ↔ Nears (some end) now successor
  nearing_iff end now successor = elim (Bool-cases (leb end (now + management_rotation_warning))) [
    | inl soon ↦ rw soon (go successor (leb→le _ _ soon))
    | inr late ↦ rw late (
      λ h. absurd (go_late successor h),
      λ h. elim h [
        | inl e ↦ absurd (ground (arith, e))
        | inr (x, e, l, _) ↦ absurd (ground (arith, late, some_inj e, l))
      ],
    )
  ]
    where
      go :
          (s : Bool)
          → end ≤ now + management_rotation_warning
          → ((let pair : Bool × Text =
                  if s
                  then (false, txt "successor_overlap_ready")
                  else (true, txt "schedule_successor_before_expiry") in
                pair.0)
              ≡ true)
            ↔ Nears (some end) now s
      go true l = (
        λ h. absurd (ground (arith, h)),
        λ h. elim h [
          | inl e ↦ absurd (ground (arith, e))
          | inr (x, e, _, t) ↦ absurd (ground (arith, t))
        ],
      )
      go false l = (λ h. inr (end, refl, l, refl), λ h. refl)

      go_late :
          (s : Bool)
          → ((let pair : Bool × Text =
                  if s then (false, txt "rotation_scheduled") else (false, txt "active") in
                pair.0)
              ≡ true)
          → ⊥
      go_late true h = ground (arith, h)
      go_late false h = ground (arith, h)

  due_iff :
      (status : Text) (o : Option ℕ) (now : ℕ) (successor : Bool)
      → IsStatus status
      → ((management_key_lifecycle status o now successor).0 ≡ true) ↔ (
          (status ≡ txt "revoked")
          ⊎ ((status ≡ txt "expired")
              ⊎ ((status ≡ txt "active")
                  × ((o ≡ none)
                      ⊎ ((end : ℕ) × (o ≡ some end)
                          × (end ≤ now + management_rotation_warning)
                          × (successor ≡ false))))))
  unfolding management_key_lifecycle ◌=t◌
  due_iff _ o now successor revoked = (λ h. inl refl, λ h. refl)
  due_iff _ o now successor expired = (λ h. inr (inl refl), λ h. refl)
  due_iff _ o now successor not_yet_active = (λ h. absurd (ground arith), λ h. ground (arith, h))
  due_iff _ none now successor active = (λ h. inr (inr (refl, inl refl)), λ h. refl)
  due_iff _ (some end) now successor active =
      let (there, back) = nearing_iff end now successor in
      (
        λ h. inr (inr (refl, there h)),
        λ h. elim h [
          | inl e ↦ absurd (ground (arith, e))
          | inr k ↦ elim k [ inl e ↦ absurd (ground (arith, e)) | inr (_, n) ↦ back n ]
        ],
      )

  -- A rotation of a key is shown as due exactly if the key is revoked or expired, or it is active and
  -- either has no end, or ends within the next seven days without a successor.
  pub rotation_due_iff :
      (key : ManagementKey) (now : ℕ)
      → ((management_key_view p m key now).rotation_due ≡ true) ↔ IsDue key now
  unfolding management_key_view
  rotation_due_iff key now =
      due_iff (management_key_status p key now) (parse_key_time p key.expires_at) now
        (has_overlapping_successor p m key now) (status_of key now)
