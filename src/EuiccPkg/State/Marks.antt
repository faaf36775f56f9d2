-- ===== src/EuiccPkg/State/Marks.antt =====
-- euiccpkg/state.go: writes that set the fallback flag of stored profiles as a test of the ICCID wants it.
use openiotrsp.EuiccPkg.State.{bool_eq}
use openiotrsp.Common.{
  ◌≡◌, sym, ap, ◌∙◌, ◌⊎◌, inl, inr, Bool, true, Option, none, some, List, [], ◌∷◌, arith,
  if◌then◌else◌, Bool-cases, All, Bytes, eq_nat, eq_bytes, bytes_eq_iff, bytes_eq,
}
use openiotrsp.Storage.{TenantId, ProfileState}
use openiotrsp.Storage.Api.{StoreApi, DeviceView}

-- The profile with the flag that it should have.
abbrev pub flagged : (Bytes → Bool) → ProfileState → ProfileState
flagged want p = record p { is_fallback = want p.iccid }

abbrev pub marked : (Bytes → Bool) → Option ProfileState → Option ProfileState
marked want none = none
marked want (some p) = some (flagged want p)

flagged_already :
    (want : Bytes → Bool) (p : ProfileState)
    → bool_eq p.is_fallback (want p.iccid) ≡ true
    → flagged want p ≡ p
unfolding bool_eq
flagged_already want p h = ground arith

module _ {S : Type 0} (api : StoreApi S) (t : TenantId) (eid : Bytes)
    (w : DeviceView api t eid) where
  -- A state that stands for the stored one, up to the flag.
  abbrev pub StandsFor : (Bytes → Bool) → S → ProfileState → Type 0
  StandsFor want s p =
      (p.eid ≡ eid)
      × ((w.profile s p.iccid ≡ some p) ⊎ (w.profile s p.iccid ≡ some (flagged want p)))

  stands_marked :
      (want : Bytes → Bool) (s : S) (p : ProfileState)
      → StandsFor want s p
      → marked want (w.profile s p.iccid) ≡ some (flagged want p)
  stands_marked want s p (own, inl e) = ap (marked want) e
  stands_marked want s p (own, inr e) = ap (marked want) e

  -- A state whose flag is right already stands for a marked one.
  pub right_already :
      (want : Bytes → Bool) (s : S) (p : ProfileState)
      → bool_eq p.is_fallback (want p.iccid) ≡ true
      → StandsFor want s p
      → w.profile s p.iccid ≡ some (flagged want p)
  right_already want s p same (own, inl e) = e ∙ ap some (sym (flagged_already want p same))
  right_already want s p same (own, inr e) = e

  -- The store after the loop: every profile is as before or marked, those of the list are marked.
  pub record Marks (want : Bytes → Bool) (s r : S) (l : List ProfileState) : Type 0 where
    pub ready : w.Ready r
    pub either :
        (j : Bytes)
        → (w.profile r j ≡ w.profile s j) ⊎ (w.profile r j ≡ marked want (w.profile s j))
    pub all : All (λ (p : ProfileState). w.profile r p.iccid ≡ some (flagged want p)) l

  same_flagged :
      (want : Bytes → Bool) (s : S) (p p' : ProfileState)
      → StandsFor want s p
      → StandsFor want s p'
      → p.iccid ≡ p'.iccid
      → some (flagged want p) ≡ some (flagged want p')
  same_flagged want s p p' h h' e =
      sym (stands_marked want s p h)
      ∙ ap (λ i. marked want (w.profile s i)) e
      ∙ stands_marked want s p' h'

  -- What a state stands for after the write of `p`.
  stand_after :
      (want : Bytes → Bool) (s r : S) (p p' : ProfileState)
      → StandsFor want s p
      → ((j : Bytes)
          → w.profile r j ≡ (if bytes_eq p.iccid j then some (flagged want p) else w.profile s j))
      → StandsFor want s p'
      → StandsFor want r p'
  stand_after want s r p p' h q h' = elim (Bool-cases (bytes_eq p.iccid p'.iccid)) [
    | inl same ↦ (
      h'.0,
      inr (
          q p'.iccid
          ∙ rw same (same_flagged want s p p' h h' ((bytes_eq_iff p.iccid p'.iccid).0 same))),
    )
    | inr other ↦ (h'.0, rw (q p'.iccid, other) h'.1)
  ]

  pub keep_standing :
      (want : Bytes → Bool) (s r : S) (p : ProfileState) (l : List ProfileState)
      → StandsFor want s p
      → ((j : Bytes)
          → w.profile r j ≡ (if bytes_eq p.iccid j then some (flagged want p) else w.profile s j))
      → All (StandsFor want s) l
      → All (StandsFor want r) l
  keep_standing want s r p [] h q a = tt
  keep_standing want s r p (p' ∷ l) h q a =
      (stand_after want s r p p' h q a.0, keep_standing want s r p l h q a.1)

  -- A profile that is marked stays so.
  pub still_marked :
      (want : Bytes → Bool) (s r : S) (j : Bytes) (p : ProfileState)
      → w.profile s j ≡ some (flagged want p)
      → (w.profile r j ≡ w.profile s j) ⊎ (w.profile r j ≡ marked want (w.profile s j))
      → w.profile r j ≡ some (flagged want p)
  still_marked want s r j p h (inl e) = e ∙ h
  still_marked want s r j p h (inr e) = e ∙ ap (marked want) h

  -- A write of `p` and then a mark or nothing is a mark or nothing.
  pub through :
      (want : Bytes → Bool) (s u r : S) (p : ProfileState)
      → StandsFor want s p
      → ((j : Bytes)
          → w.profile u j ≡ (if bytes_eq p.iccid j then some (flagged want p) else w.profile s j))
      → (j : Bytes)
      → (w.profile r j ≡ w.profile u j) ⊎ (w.profile r j ≡ marked want (w.profile u j))
      → (w.profile r j ≡ w.profile s j) ⊎ (w.profile r j ≡ marked want (w.profile s j))
  through want s u r p h q j e = elim (Bool-cases (bytes_eq p.iccid j)) [
    | inl same ↦
        let written : w.profile u j ≡ some (flagged want p) = q j ∙ rw same in
        let before : marked want (w.profile s j) ≡ some (flagged want p) =
          ap (λ i. marked want (w.profile s i)) (sym ((bytes_eq_iff p.iccid j).0 same))
          ∙ stands_marked want s p h in
        inr (still_marked want u r j p written e ∙ sym before)
    | inr other ↦ let kept : w.profile u j ≡ w.profile s j = q j ∙ rw other in rw (← kept) e
  ]
