-- ===== src/EuiccPkg/Outcome/Sources.antt =====
-- About where in the result data an operation's result comes from, and the kinds of operations.
use openiotrsp.Asn1.Package.{
  psmo_enable, psmo_disable, psmo_delete, psmo_list_profile_info, psmo_get_rat,
  psmo_configure_immediate_enable, psmo_set_fallback_attribute, psmo_unset_fallback_attribute,
  psmo_set_default_dp_address, psmo_unknown,
}
use mathlib.Core.List.{Memᴰ}
use openiotrsp.Asn1.Package.{EuiccPackage, PsmoOperation, psmo_unknown}
use openiotrsp.Common.{
  ℕ, ◌≡◌, ap, sym, ◌⊎◌, inl, inr, true, ◌&&◌, ◌||◌, some, none, List, [], ◌∷◌, arith, Option-cases,
  Bool-cases, ◌==◌, eq_nat, eq_bytes, Bytes, Result, ok, err,
}
use openiotrsp.Asn1.Result.{EuiccResultData}
use openiotrsp.EuiccPkg.Operation.{
  OperationKind, add_eim, delete_eim, update_eim, list_eim, package_psmo, psmo_kind, only_psmo,
}
use openiotrsp.EuiccPkg.Result.{
  PackageResult, ResultCode, EcoResultCode, result_ok, eco_ok, eco_last_eim_deleted,
}
use openiotrsp.EuiccPkg.Outcome.{TlvApi, is_result_ok, is_eco_ok, is_last_eim_deleted}
use openiotrsp.EuiccPkg.Outcome.Claims.{HasData, Agrees}
use openiotrsp.EuiccPkg.Outcome.Parse.{result_data_by_tag, sole_integer}

pub is_result_ok_inv : (c : ResultCode) → is_result_ok c ≡ true → c ≡ result_ok
unfolding is_result_ok
is_result_ok_inv c h = ground (arith, h)

pub is_eco_ok_inv : (c : EcoResultCode) → is_eco_ok c ≡ true → c ≡ eco_ok
unfolding is_eco_ok
is_eco_ok_inv c h = ground (arith, h)

pub delete_ok_inv :
    (c : EcoResultCode)
    → (is_eco_ok c || is_last_eim_deleted c) ≡ true
    → (c ≡ eco_ok) ⊎ (c ≡ eco_last_eim_deleted)
unfolding is_eco_ok is_last_eim_deleted
delete_ok_inv c h = ground (arith, h)

-- The operations that a PSMO is for.
abbrev pub IsPsmo : OperationKind → Type 0
IsPsmo add_eim = ⊥
IsPsmo delete_eim = ⊥
IsPsmo update_eim = ⊥
IsPsmo list_eim = ⊥
IsPsmo _ = Unit {0}

psmo_kind-IsPsmo :
    (operation : PsmoOperation) (iccid : Bytes) → IsPsmo (psmo_kind operation iccid).0
unfolding psmo_kind
psmo_kind-IsPsmo psmo_enable iccid = tt
psmo_kind-IsPsmo psmo_disable iccid = tt
psmo_kind-IsPsmo psmo_delete iccid = tt
psmo_kind-IsPsmo psmo_list_profile_info iccid = tt
psmo_kind-IsPsmo psmo_get_rat iccid = tt
psmo_kind-IsPsmo psmo_configure_immediate_enable iccid = tt
psmo_kind-IsPsmo psmo_set_fallback_attribute iccid = tt
psmo_kind-IsPsmo psmo_unset_fallback_attribute iccid = tt
psmo_kind-IsPsmo psmo_set_default_dp_address iccid = tt
psmo_kind-IsPsmo (psmo_unknown _) iccid = tt

pub package_psmo-IsPsmo : {Tlv : Type 0} (pkg : EuiccPackage Tlv) → IsPsmo (package_psmo pkg).0
unfolding package_psmo
package_psmo-IsPsmo pkg = elim (Option-cases (only_psmo pkg.kind pkg.psmos)) [
  | inl lacks ↦ rw (package_psmo, lacks) tt
  | inr (psmo, found) ↦ rw (package_psmo, found) (psmo_kind-IsPsmo psmo.operation psmo.iccid)
]

module _ {Tlv : Type 0} (tlvs : TlvApi Tlv) where
  later-HasData :
      (first : EuiccResultData Tlv) (results : List (EuiccResultData Tlv)) (tag : ℕ) (raw : Tlv)
      → HasData tlvs results tag raw
      → HasData tlvs (first ∷ results) tag raw
  later-HasData first results tag raw h = record {
    listed = Memᴰ.tail h.listed;
    context = h.context;
    tagged = h.tagged;
  }

  some_inv : (x y : Tlv) → some x ≡ some y → x ≡ y
  some_inv x y e = ap (λ o. elim o [ some z ↦ z | none ↦ x ]) e

  pub found-HasData :
      (results : List (EuiccResultData Tlv)) (tag : ℕ) (raw : Tlv)
      → result_data_by_tag tlvs results tag ≡ some raw
      → HasData tlvs results tag raw
  unfolding result_data_by_tag
  found-HasData [] tag raw h = absurd (ground (arith, h))
  found-HasData (none ∷ results) tag raw h =
      later-HasData none results tag raw (found-HasData results tag raw h)
  found-HasData (some first ∷ results) tag raw h =
      elim (Bool-cases (tlvs.is_context_specific first && (tlvs.tag_value first == tag))) [
        | inl here ↦
            let same : first ≡ raw = some_inv first raw (ground (arith, here, h)) in
            record {
              listed = Memᴰ.head (ap some (sym same));
              context = rw⁻¹ same (ground (arith, here));
              tagged = rw⁻¹ same (ground (arith, here));
            }
        | inr other ↦
            later-HasData (some first) results tag raw
              (found-HasData results tag raw (ground (arith, other, h)))
      ]

  pub sole_lem :
      (results : List (EuiccResultData Tlv)) (raw : Tlv)
      → sole_integer tlvs results ≡ some raw
      → (results ≡ some raw ∷ []) × (tlvs.is_universal_integer raw ≡ true)
  unfolding sole_integer
  sole_lem [] raw h = absurd (ground (arith, h))
  sole_lem (none ∷ results) raw h = absurd (ground (arith, h))
  sole_lem (some x ∷ []) raw h = elim (Bool-cases (tlvs.is_universal_integer x)) [
    | inl integer ↦
        let same : x ≡ raw = some_inv x raw (ground (arith, integer, h)) in
        (ap (λ y. some y ∷ []) same, rw⁻¹ same integer)
    | inr other ↦ absurd (ground (arith, other, h))
  ]
  sole_lem (some x ∷ y ∷ results) raw h = absurd (ground (arith, h))

  module _ (results : List (EuiccResultData Tlv)) where
    -- Whatever is returned agrees; an error returns nothing.
    abbrev pub Reports : OperationKind → Result (PackageResult Tlv) → Type 0
    Reports op (ok r) = Agrees tlvs results op r
    Reports op (err e) = Unit {0}
