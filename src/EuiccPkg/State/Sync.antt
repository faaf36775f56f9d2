-- ===== src/EuiccPkg/State/Sync.antt =====
-- euiccpkg/state.go: listProfileInfo on the stored state.
use mathlib.Core.List.{Memᴰ}
use openiotrsp.EuiccPkg.State.Fallback.{names_it, named_held}
use openiotrsp.EuiccPkg.State.{
  by_iccid, reported, report_loop, prune_loop, sync_profile_inventory, missing_as,
}
use openiotrsp.EuiccPkg.Result.{ProfileInfo}
use openiotrsp.Common.{
  ◌≡◌, refl, sym, ap, ◌∙◌, inl, inr, Bool, true, false, not, ◌&&◌, Option, none, some, List, [],
  ◌∷◌, arith, if◌then◌else◌, Bool-cases, Option-cases, All, Bytes, eq_nat, eq_bytes, bytes_eq_iff,
  bytes_eq, Dict, lookup-insert, lookup, insert, not_found, ok, err,
}
use openiotrsp.Storage.{TenantId, ProfileState}
use openiotrsp.Storage.Api.{StoreApi, DeviceView, live}

-- The last report of a profile. An empty ICCID names none.
abbrev pub latest : List ProfileInfo → Bytes → Option ProfileInfo
latest [] j = none
latest (p ∷ ps) j = elim (latest ps j) [
  | some q ↦ some q
  | none ↦ if not (bytes_eq p.iccid []) && bytes_eq p.iccid j then some p else none
]

latest_iccid :
    (l : List ProfileInfo) (j : Bytes) (p : ProfileInfo) → latest l j ≡ some p → p.iccid ≡ j
latest_iccid [] j p h = ground (arith, h)
latest_iccid (q ∷ l) j p h = ground (arith, h, latest_iccid l j p, bytes_eq_iff q.iccid j)

-- The entry for a report, or what was there before.
abbrev or_before {ℓ} :
    {A : Type ℓ} → Option ProfileInfo → (ProfileInfo → Option A) → Option A → Option A
or_before none f old = old
or_before (some p) f old = f p

abbrev unseen : Option Bool → Bool
unseen none = true
unseen (some _) = false

missing_or_gone {ℓ} :
    {S : Type ℓ} (o : Option ProfileState) (s : S)
    → missing_as {A = Unit {0}} tt (elim o [ none ↦ err not_found | some _ ↦ ok tt ], s)
      ≡ (ok tt, s)
missing_or_gone none s = refl
missing_or_gone (some p) s = refl

module _ {S : Type 0} (api : StoreApi S) (t : TenantId) (eid : Bytes)
    (w : DeviceView api t eid) where
  abbrev Sound : S → ProfileState → Type 0
  Sound s p = (p.eid ≡ eid) × (w.profile s p.iccid ≡ some p)

  lookup-by_iccid :
      (s : S) (l : List ProfileState) (index : Dict Bytes ProfileState) (j : Bytes)
      → All (Sound s) l
      → lookup j (by_iccid api live t eid l index)
        ≡ (if names_it j l then w.profile s j else lookup j index)
  unfolding by_iccid
  lookup-by_iccid s [] index j a = refl
  lookup-by_iccid s (p ∷ l) index j a =
      lookup-by_iccid s l (insert p.iccid p index) j a.1 ∙ elim (Bool-cases (bytes_eq p.iccid j)) [
        | inl same ↦
            let held : w.profile s j ≡ some p =
              ap (w.profile s) (sym ((bytes_eq_iff p.iccid j).0 same)) ∙ a.0.1 in
            ground (arith, same, held, lookup-insert p.iccid j p index)
        | inr other ↦ ground (arith, other, lookup-insert p.iccid j p index)
      ]

  report_loop_lem :
      (index : Dict Bytes ProfileState) (l : List ProfileInfo) (seen : Dict Bytes Bool) (s : S)
      → w.Ready s
      → (r : S) × (seen' : Dict Bytes Bool) × (report_loop api live t eid index l seen s
          ≡ (ok seen', r))
        × w.Ready r
        × ((j : Bytes)
            → w.profile r j
              ≡ or_before
                  (latest l j)
                  (λ p. some (reported api live t eid index p))
                  (w.profile s j))
        × ((j : Bytes) → lookup j seen' ≡ or_before (latest l j) (λ _. some true) (lookup j seen))
  unfolding report_loop reported
  report_loop_lem index [] seen s ready = (s, seen, refl, ready, λ j. refl, λ j. refl)
  report_loop_lem index (p ∷ l) seen s ready = elim (Bool-cases (bytes_eq p.iccid [])) [
    | inl blank ↦
        let (r, seen', e, k, q, z) = report_loop_lem index l seen s ready in
        (r, seen', rw blank e, k, λ j. ground (arith, blank, q j), λ j. ground (arith, blank, z j))
    | inr named ↦
        let (u, eu, ku, qu, xu, yu) =
          w.set_profile s (reported api live t eid index p) ready refl in
        let (r, seen', e, k, q, z) = report_loop_lem index l (insert p.iccid true seen) u ku in
        (
          r,
          seen',
          rw (named, eu) e,
          k,
          λ j. ground (arith, named, q j, qu j),
          λ j. ground (arith, named, z j, lookup-insert p.iccid j true seen),
        )
  ]

  prune_step :
      (seen : Dict Bytes Bool) (p : ProfileState) (l : List ProfileState) (s u : S)
      → lookup p.iccid seen ≡ none
      → api.delete_profile_state live t eid p.iccid s
        ≡ (elim (w.profile s p.iccid) [ none ↦ err not_found | some _ ↦ ok tt ], u)
      → prune_loop api live t eid seen (p ∷ l) s ≡ prune_loop api live t eid seen l u
  unfolding prune_loop
  prune_step seen p l s u gone e = rw (prune_loop, gone, e, missing_or_gone (w.profile s p.iccid) u)

  prune_loop_lem :
      (seen : Dict Bytes Bool) (l : List ProfileState) (s : S)
      → w.Ready s
      → (r : S) × (prune_loop api live t eid seen l s ≡ (ok tt, r))
        × w.Ready r
        × ((j : Bytes)
            → w.profile r j
              ≡ (if names_it j l && unseen (lookup j seen) then none else w.profile s j))
  unfolding prune_loop
  prune_loop_lem seen [] s ready = (s, refl, ready, λ j. refl)
  prune_loop_lem seen (p ∷ l) s ready = elim (Option-cases (lookup p.iccid seen)) [
    | inr (b, kept) ↦
        let (r, e, k, q) = prune_loop_lem seen l s ready in
        (
          r,
          rw (prune_loop, kept) e,
          k,
          λ j. q j ∙ elim (Bool-cases (bytes_eq p.iccid j)) [
            | inl same ↦
                let still : lookup j seen ≡ some b =
                  ap (λ i. lookup i seen) (sym ((bytes_eq_iff p.iccid j).0 same)) ∙ kept in
                ground (arith, same, still)
            | inr other ↦ ground (arith, other)
          ],
        )
    | inl gone ↦
        let (u, eu, ku, qu, xu, yu) = w.delete_profile s p.iccid ready in
        let (r, e, k, q) = prune_loop_lem seen l u ku in
        (
          r,
          prune_step seen p l s u gone eu ∙ e,
          k,
          λ j. q j ∙ elim (Bool-cases (bytes_eq p.iccid j)) [
            | inl same ↦
                let lost : lookup j seen ≡ none =
                  ap (λ i. lookup i seen) (sym ((bytes_eq_iff p.iccid j).0 same)) ∙ gone in
                ground (arith, same, lost, qu j)
            | inr other ↦ ground (arith, other, qu j)
          ],
        )
  ]

  -- What the report says of a profile; the stored SM-DP+ address stays.
  abbrev pub synced : S → ProfileInfo → ProfileState
  synced s p = record {
    eid = eid;
    iccid = p.iccid;
    is_enabled = p.is_enabled;
    is_fallback = p.is_fallback;
    smdp_address = elim (w.profile s p.iccid) [ none ↦ [] | some q ↦ q.smdp_address ];
  }

  index_is_stored :
      (s : S) (l : List ProfileState) (j : Bytes)
      → All (Sound s) l
      → ((i : Bytes) (p : ProfileState) → w.profile s i ≡ some p → (p.iccid ≡ i) × Memᴰ p l)
      → lookup j (by_iccid api live t eid l []) ≡ w.profile s j
  unfolding lookup
  index_is_stored s l j sound complete =
      lookup-by_iccid s l [] j sound ∙ elim (Bool-cases (names_it j l)) [
        | inl named ↦ ground (arith, named)
        | inr other ↦ ground (arith, other, named_held api t eid w j s l sound complete other)
      ]

  -- On a ready device, taking over a reported profile list succeeds. Afterwards the device holds
  -- exactly the profiles that the list names, each as its last report says and with the SM-DP+
  -- address that was stored for it before; a report with an empty ICCID is skipped.
  pub sync_profile_inventory_lem :
      (s : S) (reports : List ProfileInfo)
      → w.Ready s
      → (r : S) × (sync_profile_inventory api live t eid reports s ≡ (ok tt, r))
        × w.Ready r
        × ((j : Bytes)
            → w.profile r j
              ≡ (elim (latest reports j) [ none ↦ none | some p ↦ some (synced s p) ]))
  unfolding sync_profile_inventory reported lookup
  sync_profile_inventory_lem s reports ready =
      let (l, el, sound, complete) = w.list_profiles s ready in
      let index = by_iccid api live t eid l [] in
      let (u, seen, eu, ku, q, z) = report_loop_lem index reports [] s ready in
      let (r, e, k, p) = prune_loop_lem seen l u ku in
      (
        r,
        rw (el, eu) e,
        k,
        λ j. p j ∙ elim (Option-cases (latest reports j)) [
          | inl unreported ↦ elim (Bool-cases (names_it j l)) [
            | inl named ↦ ground (arith, named, unreported, z j)
            | inr other ↦ ground (
              arith,
              other,
              unreported,
              z j,
              q j,
              named_held api t eid w j s l sound complete other,
            )
          ]
          | inr (report, found) ↦
              ground (arith, found, z j, q j, index_is_stored s l report.iccid sound complete)
        ],
      )
