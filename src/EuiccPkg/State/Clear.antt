-- ===== src/EuiccPkg/State/Clear.antt =====
-- euiccpkg/state.go: unsetFallbackAttribute on the stored state.
use openiotrsp.EuiccPkg.State.Marks.{
  StandsFor, Marks, marked, through, still_marked, right_already, flagged, keep_standing,
}
use openiotrsp.EuiccPkg.State.Fallback.{listed_stands, all_marked}
use openiotrsp.EuiccPkg.State.{clear_loop, clear_profile_fallback, bool_eq}
use openiotrsp.Common.{
  ◌≡◌, refl, ◌∙◌, inl, inr, Bool, true, false, List, [], ◌∷◌, arith, Bool-cases, All, Bytes, eq_nat,
  eq_bytes, beq_refl, ok,
}
use openiotrsp.Storage.{TenantId, ProfileState}
use openiotrsp.Storage.Api.{StoreApi, DeviceView, live}

abbrev pub never : Bytes → Bool
never _ = false

not_fallback :
    (p : ProfileState) → p.is_fallback ≡ false → bool_eq p.is_fallback (never p.iccid) ≡ true
unfolding bool_eq
not_fallback p h = ground (arith, h)

module _ {S : Type 0} (api : StoreApi S) (t : TenantId) (eid : Bytes)
    (w : DeviceView api t eid) where
  clear_loop-Marks :
      (l : List ProfileState) (s : S)
      → w.Ready s
      → All (StandsFor api t eid w never s) l
      → (r : S) × (clear_loop api live t eid l s ≡ (ok tt, r)) × Marks api t eid w never s r l
  unfolding clear_loop
  clear_loop-Marks [] s ready a =
      (s, refl, record { ready = ready; either = λ j. inl refl; all = tt })
  clear_loop-Marks (p ∷ l) s ready a = elim (Bool-cases p.is_fallback) [
    | inl had ↦
        let (u, eu, ku, q, euicc_same, associated_same) =
          w.set_profile s (flagged never p) ready a.0.0 in
        let (r, e, m) =
          clear_loop-Marks l u ku (keep_standing api t eid w never s u p l a.0 q a.1) in
        (
          r,
          rw (had, eu) e,
          record {
            ready = m.ready;
            either = λ j. through api t eid w never s u r p a.0 q j (m.either j);
            all = (
              still_marked api t eid w never u r p.iccid p (q p.iccid ∙ rw (beq_refl p.iccid))
                  (m.either p.iccid),
              m.all,
            );
          },
        )
    | inr lacked ↦
        let (r, e, m) = clear_loop-Marks l s ready a.1 in
        (
          r,
          rw lacked e,
          record {
            ready = m.ready;
            either = m.either;
            all = (
              still_marked api t eid w never s r p.iccid p
                  (right_already api t eid w never s p (not_fallback p lacked) a.0)
                  (m.either p.iccid),
              m.all,
            );
          },
        )
  ]

  -- On a ready device, unsetting the fallback attribute succeeds. Afterwards the device holds the
  -- same profiles, none of them has the attribute, and nothing else of a profile has changed.
  pub clear_profile_fallback_lem :
      (s : S)
      → w.Ready s
      → (r : S) × (clear_profile_fallback api live t eid s ≡ (ok tt, r))
        × w.Ready r
        × ((j : Bytes) → w.profile r j ≡ marked never (w.profile s j))
  unfolding clear_profile_fallback
  clear_profile_fallback_lem s ready =
      let (l, el, sound, complete) = w.list_profiles s ready in
      let (r, e, m) = clear_loop-Marks l s ready (listed_stands api t eid w never s l sound) in
      (r, rw (el, e) refl, m.ready, all_marked api t eid w never s r l complete m)
