-- ===== src/EuiccPkg/State.antt =====
-- euiccpkg/state.go: the effects of a successful package on the stored state, over any
-- implementation of the store.
pub mod Enable
pub mod Marks
pub mod Fallback
pub mod Clear
pub mod Sync
use openiotrsp.Common.{
  ℕ, ◌+◌, ◌-◌, ◌/◌, ◌%◌, Bool, true, false, not, ◌||◌, Option, none, some, List, [], ◌∷◌, ltb,
  if◌then◌else◌, Bytes, eq_nat, eq_bytes, bytes_eq, Dict, lookup, insert, not_found,
  signature_invalid, transaction_mismatch, counter_mismatch, result_not_found, context_error,
  invalid_input, encoding_error, Result, ok, err, Context, Action, pure, ◌>>=◌, ◌>>◌,
}
use openiotrsp.Storage.{TenantId, ProfileState, EuiccState}
use openiotrsp.Storage.Api.{StoreApi}
use openiotrsp.Asn1.Package.{EuiccPackage, PsmoOperation, psmo_set_default_dp_address}
use openiotrsp.EuiccPkg.Operation.{
  OperationKind, package_psmo, only_psmo, enable, disable, delete_profile, list_profile_info,
  set_fallback_attribute, unset_fallback_attribute, set_default_dp_address,
}
use openiotrsp.EuiccPkg.Result.{PackageResult, ProfileInfo}

-- hex.EncodeToString
unfoldable pub hex_digit : ℕ → ℕ
hex_digit n = if ltb n 10 then b'0' + n else b'a' + (n - 10)

unfoldable pub hex_encode : Bytes → Bytes
unfolding hex_digit
hex_encode [] = []
hex_encode (b ∷ bs) = hex_digit (b / 16) ∷ hex_digit (b % 16) ∷ hex_encode bs

-- A state with only its key set.
abbrev pub empty_profile : Bytes → Bytes → ProfileState
empty_profile eid iccid = record {
  eid = eid;
  iccid = iccid;
  is_enabled = false;
  is_fallback = false;
  smdp_address = [];
}

abbrev pub empty_euicc : Bytes → EuiccState
empty_euicc eid = record {
  eid = eid;
  eid_value = [];
  default_smdp_address = [];
  root_smds_address = [];
  euicc_info1 = [];
  euicc_info2 = [];
  ipa_capabilities = [];
  device_info = [];
  eum_certificate = [];
  euicc_certificate = [];
  certificate_identifiers = [];
  raw_payload = [];
  updated_at = 0;
}

-- `if errors.Is(err, ErrNotFound) { value = d } else if err != nil { return err }`
abbrev pub missing_as {ℓ κ} : {S : Type ℓ} {A : Type κ} → A → Result A × S → Result A × S
missing_as d (ok a, s) = (ok a, s)
missing_as d (err not_found, s) = (ok d, s)
missing_as d (err signature_invalid, s) = (err signature_invalid, s)
missing_as d (err transaction_mismatch, s) = (err transaction_mismatch, s)
missing_as d (err counter_mismatch, s) = (err counter_mismatch, s)
missing_as d (err result_not_found, s) = (err result_not_found, s)
missing_as d (err (context_error e), s) = (err (context_error e), s)
missing_as d (err (invalid_input e), s) = (err (invalid_input e), s)
missing_as d (err (encoding_error e), s) = (err (encoding_error e), s)

abbrev pub or_missing {ℓ κ} : {S : Type ℓ} {A : Type κ} → A → Action S A → Action S A
or_missing d m s = missing_as d (m s)

unfoldable pub bool_eq : Bool → Bool → Bool
bool_eq true b = b
bool_eq false b = not b

module _ {S : Type 0} (api : StoreApi S) (ctx : Context) (t : TenantId) (eid : Bytes) where
  -- setProfileEnabled
  unfoldable pub set_profile_enabled : Bytes → Bool → Action S (Unit {0})
  set_profile_enabled iccid enabled = do
    state ← or_missing (empty_profile eid iccid) (api.get_profile_state ctx t eid iccid)
    api.set_profile_state ctx t (record state { eid = eid; iccid = iccid; is_enabled = enabled })

  -- The loop of setProfileFallback; the flag is `found`.
  unfoldable pub fallback_loop : Bytes → List ProfileState → Bool → Action S Bool
  unfolding bool_eq
  fallback_loop iccid [] found = pure found
  fallback_loop iccid (state ∷ states) found =
      let want = bytes_eq state.iccid iccid in
      let rest = fallback_loop iccid states (found || want) in
      if bool_eq state.is_fallback want
      then rest
      else (api.set_profile_state ctx t (record state { is_fallback = want }) >> rest)

  -- setProfileFallback
  unfoldable pub set_profile_fallback : Bytes → Action S (Unit {0})
  unfolding fallback_loop
  set_profile_fallback iccid = do
    states ← api.list_profile_states ctx t eid
    found ← fallback_loop iccid states false
    if found
        then pure tt
        else api.set_profile_state ctx t (record (empty_profile eid iccid) { is_fallback = true })

  -- The loop of clearProfileFallback.
  unfoldable pub clear_loop : List ProfileState → Action S (Unit {0})
  clear_loop [] = pure tt
  clear_loop (state ∷ states) =
      let rest = clear_loop states in
      if state.is_fallback
      then (api.set_profile_state ctx t (record state { is_fallback = false }) >> rest)
      else rest

  -- clearProfileFallback
  unfoldable pub clear_profile_fallback : Action S (Unit {0})
  unfolding clear_loop
  clear_profile_fallback = do states ← api.list_profile_states ctx t eid; clear_loop states

  -- `existingByICCID[state.ICCID] = state`, for each state in turn
  unfoldable pub by_iccid : List ProfileState → Dict Bytes ProfileState → Dict Bytes ProfileState
  by_iccid [] index = index
  by_iccid (state ∷ states) index = by_iccid states (insert state.iccid state index)

  -- `state := existingByICCID[profile.ICCID]` and its updates; a missing entry is the zero state.
  unfoldable pub reported : Dict Bytes ProfileState → ProfileInfo → ProfileState
  reported index profile =
      let smdp : Bytes = elim (lookup profile.iccid index) [
        | none ↦ []
        | some state ↦ state.smdp_address
      ] in
      record {
        eid = eid;
        iccid = profile.iccid;
        is_enabled = profile.is_enabled;
        is_fallback = profile.is_fallback;
        smdp_address = smdp;
      }

  -- The first loop of syncProfileInventory; it returns `seen`.
  unfoldable pub report_loop :
      Dict Bytes ProfileState → List ProfileInfo → Dict Bytes Bool → Action S (Dict Bytes Bool)
  unfolding reported
  report_loop index [] seen = pure seen
  report_loop index (profile ∷ profiles) seen =
      let named = report_loop index profiles (insert profile.iccid true seen) in
      let skipped = report_loop index profiles seen in
      if bytes_eq profile.iccid []
      then skipped
      else (api.set_profile_state ctx t (reported index profile) >> named)

  -- The second loop.
  unfoldable pub prune_loop : Dict Bytes Bool → List ProfileState → Action S (Unit {0})
  prune_loop seen [] = pure tt
  prune_loop seen (state ∷ states) =
      let rest = prune_loop seen states in
      elim (lookup state.iccid seen) [
        | some _ ↦ rest
        | none ↦ or_missing tt (api.delete_profile_state ctx t eid state.iccid) >> rest
      ]

  -- syncProfileInventory
  unfoldable pub sync_profile_inventory : List ProfileInfo → Action S (Unit {0})
  unfolding by_iccid report_loop prune_loop
  sync_profile_inventory profiles = do
    existing ← api.list_profile_states ctx t eid
    seen ← report_loop (by_iccid existing []) profiles []
    prune_loop seen existing

  -- setEUICCDefaultSMDPAddress
  unfoldable pub set_euicc_default_smdp_address : Bytes → Action S (Unit {0})
  set_euicc_default_smdp_address address = do
    state ← or_missing (empty_euicc eid) (api.get_euicc_state ctx t eid)
    api.set_euicc_state ctx t (record state { eid = eid; default_smdp_address = address })

-- defaultDPAddressFromPackage
unfoldable pub default_address : PsmoOperation → Option Bytes → Bytes
default_address psmo_set_default_dp_address (some address) = address
default_address _ _ = []

module _ {Tlv : Type 0} where
  unfoldable pub default_dp_address_from_package : EuiccPackage Tlv → Bytes
  unfolding only_psmo default_address
  default_dp_address_from_package pkg = elim (only_psmo pkg.kind pkg.psmos) [
    | none ↦ []
    | some psmo ↦ default_address psmo.operation psmo.set_default_dp_address
  ]

module _ {S : Type 0} {Tlv : Type 0} (api : StoreApi S) (ctx : Context) (t : TenantId)
    (eid : Bytes) where
  -- The switch of applyPSMOState.
  unfoldable pub apply_psmo :
      OperationKind → Bytes → EuiccPackage Tlv → Option (PackageResult Tlv) → Action S (Unit {0})
  unfolding set_profile_enabled set_profile_fallback clear_profile_fallback sync_profile_inventory
      set_euicc_default_smdp_address default_dp_address_from_package
  apply_psmo enable iccid pkg result = set_profile_enabled api ctx t eid iccid true
  apply_psmo disable iccid pkg result = set_profile_enabled api ctx t eid iccid false
  apply_psmo delete_profile iccid pkg result =
      or_missing tt (api.delete_profile_state ctx t eid iccid)
  apply_psmo list_profile_info iccid pkg none = pure tt
  apply_psmo list_profile_info iccid pkg (some result) =
      sync_profile_inventory api ctx t eid result.profiles
  apply_psmo set_fallback_attribute iccid pkg result = set_profile_fallback api ctx t eid iccid
  apply_psmo unset_fallback_attribute iccid pkg result = clear_profile_fallback api ctx t eid
  apply_psmo set_default_dp_address iccid pkg result =
      let address = default_dp_address_from_package pkg in
      if bytes_eq address [] then pure tt else set_euicc_default_smdp_address api ctx t eid address
  apply_psmo _ iccid pkg result = pure tt

  -- applyPSMOState
  unfoldable pub apply_psmo_state :
      EuiccPackage Tlv → Option (PackageResult Tlv) → Action S (Unit {0})
  unfolding package_psmo apply_psmo hex_encode
  apply_psmo_state pkg result =
      let (operation, iccid) = package_psmo pkg in
      apply_psmo operation (hex_encode iccid) pkg result
