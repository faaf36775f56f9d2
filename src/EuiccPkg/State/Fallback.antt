-- ===== src/EuiccPkg/State/Fallback.antt =====
-- euiccpkg/state.go: setFallbackAttribute and unsetFallbackAttribute on the stored state.
use openiotrsp.EuiccPkg.State.Marks.{
  StandsFor, Marks, marked, through, still_marked, right_already, flagged, keep_standing,
}
use mathlib.Core.List.{Memᴰ}
use openiotrsp.EuiccPkg.State.{fallback_loop, empty_profile, set_profile_fallback}
use openiotrsp.EuiccPkg.State.{bool_eq}
use openiotrsp.Common.{
  ◌≡◌, refl, sym, ap, ◌∙◌, subst, ◌≢◌, inl, inr, Bool, true, false, ◌||◌, Option, none, some, List,
  [], ◌∷◌, arith, if◌then◌else◌, Bool-cases, Option-cases, All, Bytes, eq_nat, eq_bytes, beq_refl,
  bytes_eq_iff, bytes_eq, ok,
}
use openiotrsp.Storage.{TenantId, ProfileState}
use openiotrsp.Storage.Api.{StoreApi, DeviceView, live}

-- What the flag of a profile should be.
abbrev pub wanted : Bytes → Bytes → Bool
wanted iccid i = bytes_eq i iccid

-- Whether a state of the list is the profile's.
abbrev pub names_it : Bytes → List ProfileState → Bool
names_it iccid [] = false
names_it iccid (p ∷ ps) = bytes_eq p.iccid iccid || names_it iccid ps

or_assoc : (a b c : Bool) → ((a || b) || c) ≡ (a || (b || c))
or_assoc a b c = ground arith

pub names_it_Memᴰ :
    (iccid : Bytes) (p : ProfileState) (ps : List ProfileState)
    → p.iccid ≡ iccid
    → Memᴰ p ps
    → names_it iccid ps ≡ true
names_it_Memᴰ iccid p [] e m = elim m [ ]
names_it_Memᴰ iccid p (q ∷ ps) e (Memᴰ.head f) =
    ground (arith, bytes_eq_iff q.iccid iccid, ap (λ (x : ProfileState). x.iccid) f)
names_it_Memᴰ iccid p (q ∷ ps) e (Memᴰ.tail m) = ground (arith, names_it_Memᴰ iccid p ps e m)

module _ {S : Type 0} (api : StoreApi S) (t : TenantId) (eid : Bytes)
    (w : DeviceView api t eid) where
  fallback_loop-Marks :
      (iccid : Bytes) (l : List ProfileState) (found : Bool) (s : S)
      → w.Ready s
      → All (StandsFor api t eid w (wanted iccid) s) l
      → (r : S) × (fallback_loop api live t eid iccid l found s
          ≡ (ok (found || names_it iccid l), r))
        × Marks api t eid w (wanted iccid) s r l
  unfolding fallback_loop
  fallback_loop-Marks iccid [] found s ready a =
      (s, ground arith, record { ready = ready; either = λ j. inl refl; all = tt })
  fallback_loop-Marks iccid (p ∷ l) found s ready a =
      elim (Bool-cases (bool_eq p.is_fallback (bytes_eq p.iccid iccid))) [
        | inl same ↦
            let (r, e, m) =
              fallback_loop-Marks iccid l (found || bytes_eq p.iccid iccid) s ready a.1 in
            (
              r,
              rw same (
                  e
                  ∙ ap (λ b. (ok b, r))
                      (or_assoc found (bytes_eq p.iccid iccid) (names_it iccid l))),
              record {
                ready = m.ready;
                either = m.either;
                all = (
                  still_marked api t eid w (wanted iccid) s r p.iccid p
                      (right_already api t eid w (wanted iccid) s p same a.0) (m.either p.iccid),
                  m.all,
                );
              },
            )
        | inr other ↦
            let (u, eu, ku, q, euicc_same, associated_same) =
              w.set_profile s (flagged (wanted iccid) p) ready a.0.0 in
            let (r, e, m) =
              fallback_loop-Marks iccid l (found || bytes_eq p.iccid iccid) u ku
                (keep_standing api t eid w (wanted iccid) s u p l a.0 q a.1) in
            (
              r,
              rw (other, eu)
                  (e
                    ∙ ap (λ b. (ok b, r))
                        (or_assoc found (bytes_eq p.iccid iccid) (names_it iccid l))),
              record {
                ready = m.ready;
                either = λ j. through api t eid w (wanted iccid) s u r p a.0 q j (m.either j);
                all = (
                  still_marked api t eid w (wanted iccid) u r p.iccid p
                      (q p.iccid ∙ rw (beq_refl p.iccid)) (m.either p.iccid),
                  m.all,
                );
              },
            )
      ]

  -- The states that a store lists stand for what it holds.
  pub listed_stands :
      (want : Bytes → Bool) (s : S) (l : List ProfileState)
      → All (λ (p : ProfileState). (p.eid ≡ eid) × (w.profile s p.iccid ≡ some p)) l
      → All (StandsFor api t eid w want s) l
  listed_stands want s [] a = tt
  listed_stands want s (p ∷ l) a = ((a.0.0, inl a.0.1), listed_stands want s l a.1)

  All-at :
      (P : ProfileState → Type 0) (l : List ProfileState) (p : ProfileState)
      → All P l
      → Memᴰ p l
      → P p
  All-at P [] p a m = elim m [ ]
  All-at P (q ∷ l) p a (Memᴰ.head e) = subst P (sym e) a.0
  All-at P (q ∷ l) p a (Memᴰ.tail m) = All-at P l p a.1 m

  -- Every stored profile is in the list, so a mark of the list is a mark of the device.
  pub all_marked :
      (want : Bytes → Bool) (s r : S) (l : List ProfileState)
      → ((i : Bytes) (p : ProfileState) → w.profile s i ≡ some p → (p.iccid ≡ i) × Memᴰ p l)
      → Marks api t eid w want s r l
      → (j : Bytes) → w.profile r j ≡ marked want (w.profile s j)
  all_marked want s r l complete m j = elim (Option-cases (w.profile s j)) [
    | inl missing ↦ elim (m.either j) [
      | inl e ↦ e ∙ missing ∙ sym (ap (marked want) missing)
      | inr e ↦ e
    ]
    | inr (p, held) ↦
        let (named, listed) = complete j p held in
        subst (λ i. w.profile r i ≡ some (flagged want p)) named
          (All-at (λ (q : ProfileState). w.profile r q.iccid ≡ some (flagged want q)) l p m.all
            listed)
        ∙ sym (ap (marked want) held)
  ]

  abbrev pub fresh_fallback : Bytes → ProfileState
  fresh_fallback iccid = record (empty_profile eid iccid) { is_fallback = true }

  -- The profile that the fallback attribute is given to, where the device does not hold it yet.
  pub named_held :
      (iccid : Bytes) (s : S) (l : List ProfileState)
      → All (λ (p : ProfileState). (p.eid ≡ eid) × (w.profile s p.iccid ≡ some p)) l
      → ((i : Bytes) (p : ProfileState) → w.profile s i ≡ some p → (p.iccid ≡ i) × Memᴰ p l)
      → names_it iccid l ≡ false
      → w.profile s iccid ≡ none
  named_held iccid s l sound complete h = elim (Option-cases (w.profile s iccid)) [
    | inl missing ↦ missing
    | inr (p, held) ↦
        let (named, listed) = complete iccid p held in
        ground (arith, h, names_it_Memᴰ iccid p l named listed)
  ]

  held_named :
      (iccid : Bytes) (s : S) (l : List ProfileState)
      → All (λ (p : ProfileState). (p.eid ≡ eid) × (w.profile s p.iccid ≡ some p)) l
      → names_it iccid l ≡ true
      → w.profile s iccid ≢ none
  held_named iccid s [] sound h = ground arith
  held_named iccid s (p ∷ l) sound h = elim (Bool-cases (bytes_eq p.iccid iccid)) [
    | inl same ↦
        λ e. ground (arith, e, sound.0.1, ap (w.profile s) ((bytes_eq_iff p.iccid iccid).0 same))
    | inr other ↦ held_named iccid s l sound.1 (ground (arith, other, h))
  ]

  -- The device with the fallback attribute given to one profile and taken from all others.
  abbrev pub with_fallback : S → Bytes → Bytes → Option ProfileState
  with_fallback s iccid j = elim (w.profile s j) [
    | some p ↦ some (flagged (wanted iccid) p)
    | none ↦ if bytes_eq iccid j then some (fresh_fallback iccid) else none
  ]

  with_fallback_held :
      (s : S) (iccid j : Bytes)
      → (bytes_eq iccid j ≡ true → w.profile s j ≢ none)
      → marked (wanted iccid) (w.profile s j) ≡ with_fallback s iccid j
  with_fallback_held s iccid j h = ground arith

  with_fallback_fresh :
      (s : S) (iccid j : Bytes)
      → w.profile s iccid ≡ none
      → (if bytes_eq iccid j
          then some (fresh_fallback iccid)
          else marked (wanted iccid) (w.profile s j))
        ≡ with_fallback s iccid j
  with_fallback_fresh s iccid j h = elim (Bool-cases (bytes_eq iccid j)) [
    | inl same ↦
        let missing : w.profile s j ≡ none =
          ap (w.profile s) (sym ((bytes_eq_iff iccid j).0 same)) ∙ h in
        ground (arith, same, missing)
    | inr other ↦ ground (arith, other)
  ]

  -- On a ready device, giving the fallback attribute to a profile succeeds. Afterwards that
  -- profile has the attribute (it is created where the device did not hold it), every other
  -- profile of the device has lost it, and nothing else of a profile has changed.
  pub set_profile_fallback_lem :
      (s : S) (iccid : Bytes)
      → w.Ready s
      → (r : S) × (set_profile_fallback api live t eid iccid s ≡ (ok tt, r))
        × w.Ready r
        × ((j : Bytes) → w.profile r j ≡ with_fallback s iccid j)
  unfolding set_profile_fallback
  set_profile_fallback_lem s iccid ready =
      let (l, el, sound, complete) = w.list_profiles s ready in
      let (u, eu, m) =
        fallback_loop-Marks iccid l false s ready (listed_stands (wanted iccid) s l sound) in
      let after = all_marked (wanted iccid) s u l complete m in
      elim (Bool-cases (names_it iccid l)) [
        | inl named ↦ (
          u,
          rw (el, eu, named) refl,
          m.ready,
          λ j.
              after j
              ∙ with_fallback_held s iccid j (λ same.
                subst (λ i. w.profile s i ≢ none) ((bytes_eq_iff iccid j).0 same)
                  (held_named iccid s l sound named)),
        )
        | inr fresh ↦
            let missing = named_held iccid s l sound complete fresh in
            let (r, er, kr, q, e_same, a_same) =
              w.set_profile u (fresh_fallback iccid) m.ready refl in
            (
              r,
              rw (el, eu, fresh, er) refl,
              kr,
              λ j.
                  q j
                  ∙ ap
                      (λ (x : Option ProfileState).
                        if bytes_eq iccid j then some (fresh_fallback iccid) else x)
                      (after j)
                  ∙ with_fallback_fresh s iccid j missing,
            )
      ]
