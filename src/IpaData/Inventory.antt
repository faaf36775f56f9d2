-- ===== src/IpaData/Inventory.antt =====
-- About the two places that take over a device's list of profiles.
use mathlib.Core.Path.{fun_ext}
use openiotrsp.EuiccPkg.Outcome.{profile_infos}
use openiotrsp.IpaData.{sync_inventory, ProfileState, DecodedProfile, info_of}
use openiotrsp.IpaData.{inventory_loop}
use openiotrsp.Storage.{TenantId}
use openiotrsp.Storage.Api.{StoreApi}
use openiotrsp.EuiccPkg.State.{
  hex_encode, sync_profile_inventory, report_loop, prune_loop, by_iccid, reported,
}
use openiotrsp.Asn1.Tlv.{Bertlv}
use openiotrsp.Common.{
  ◌≡◌, refl, ap, inl, inr, Bool, true, List, [], ◌∷◌, Bool-cases, Bytes, eq_nat, eq_bytes, bytes_eq,
  Dict, Context, Action, ◌>>=◌, ◌>>◌, insert,
}
use openiotrsp.Asn1.IpaData.{IpaEuiccData}

hex_empty : (bytes : Bytes) → bytes_eq (hex_encode bytes) [] ≡ bytes_eq bytes []
unfolding hex_encode bytes_eq
hex_empty [] = refl
hex_empty (b ∷ bytes) = refl

module _ {S Tlv : Type 0} (lib : Bertlv Tlv) (api : StoreApi S) (ctx : Context) (t : TenantId)
    (eid : Bytes) where
  loops_agree :
      (index : Dict Bytes ProfileState) (profiles : List DecodedProfile) (seen : Dict Bytes Bool)
      → inventory_loop lib api ctx t eid index profiles seen
        ≡ report_loop api ctx t eid index (profile_infos profiles) seen
  unfolding inventory_loop report_loop profile_infos
  loops_agree index [] seen = refl
  loops_agree index (profile ∷ profiles) seen = elim (Bool-cases (bytes_eq profile.iccid [])) [
    | inl e ↦ rw (e) (loops_agree index profiles seen)
    | inr e ↦
        rw (e, hex_empty profile.iccid, e)
          (ap
            (λ m. api.set_profile_state ctx t (reported api ctx t eid index (info_of profile)) >> m)
            (loops_agree index profiles (insert (hex_encode profile.iccid) true seen)))
  ]

  -- Where the IPA's data has a profile list, taking it over does what taking over the same list from a
  -- package result does: the same calls of the store with the same outcomes.
  pub sync_inventory_agrees :
      (found : IpaEuiccData Tlv)
      → found.profile_info_list_present ≡ true
      → sync_inventory lib api ctx t eid found
        ≡ sync_profile_inventory api ctx t eid (profile_infos found.profiles)
  unfolding sync_inventory sync_profile_inventory
  sync_inventory_agrees found present = rw (present) (
      ap (λ (k : List ProfileState → Action S (Unit {0})). api.list_profile_states ctx t eid >>= k)
        (fun_ext (λ existing.
          ap (λ m. m >>= λ seen. prune_loop api ctx t eid seen existing)
            (loops_agree (by_iccid api ctx t eid existing []) found.profiles []))))
