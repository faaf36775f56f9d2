-- ===== src/EuiccPkg/Association/Tokens.antt =====
-- euiccpkg/state.go: which association token is stored after addEim and updateEim.
use openiotrsp.Common.{
  ◌≡◌, refl, Option, none, some, arith, if◌then◌else◌, Bytes, eq_nat, eq_bytes, bytes_eq, Int64,
  Error, not_found, ok, err, inl, ◌⊎◌, inr,
}
use openiotrsp.Storage.{TenantId, AssociatedEim}
use openiotrsp.Storage.Api.{StoreApi, DeviceView, live, found_or}
use openiotrsp.Asn1.Package.{EimConfigurationData, Eco}
use openiotrsp.EuiccPkg.Operation.{add_eim, update_eim, delete_eim}
use openiotrsp.EuiccPkg.State.{missing_as}
use openiotrsp.EuiccPkg.Result.{PackageResult}
use openiotrsp.EuiccPkg.Association.{
  EimCodec, stored_token, associate, update_association, apply_eco, with_returned_token,
  with_stored_token, existing_association_token, associated_eim_from_config,
}

-- The first of two tokens that there is.
abbrev pub or_else : Option Int64 → Option Int64 → Option Int64
or_else (some token) other = some token
or_else none other = other

module _ {Tlv : Type 0} where
  -- The configuration with another token.
  abbrev pub with_token : EimConfigurationData Tlv → Option Int64 → EimConfigurationData Tlv
  with_token config token = record config { association_token = token }

  returned_token :
      (config : EimConfigurationData Tlv) (result : PackageResult Tlv)
      → with_returned_token config (some result)
        ≡ with_token config (or_else result.add_eim_association_token config.association_token)
  unfolding with_returned_token
  returned_token config result = ground arith

  filled_token :
      (config : EimConfigurationData Tlv) (old : Option Int64)
      → config.association_token ≡ none
      → with_stored_token config old ≡ with_token config old
  unfolding with_stored_token
  filled_token config none h = ground (arith, h)
  filled_token config (some token) h = refl

missing_or_deleted {ℓ} :
    {S : Type ℓ} (o : Option AssociatedEim) (s : S)
    → missing_as {A = Unit {0}} tt (elim o [ none ↦ err not_found | some _ ↦ ok tt ], s)
      ≡ (ok tt, s)
missing_or_deleted none s = refl
missing_or_deleted (some p) s = refl

module _ {S : Type 0} {Tlv : Type 0} (codec : EimCodec Tlv) (api : StoreApi S) (t : TenantId)
    (eid : Bytes) (w : DeviceView api t eid) where
  -- What is stored for a configuration and its encoding.
  abbrev pub association : EimConfigurationData Tlv → Bytes → AssociatedEim
  association config payload = record {
    eid = eid;
    eim_id = config.eim_id;
    eim_id_type = config.eim_id_type;
    config_payload = payload;
  }

  -- The store after one association is written and nothing else.
  pub record Associates (s r : S) (config : EimConfigurationData Tlv) (payload : Bytes)
      : Type 0 where
    pub ready : w.Ready r
    pub here :
        (j : Bytes)
        → w.associated r j ≡ (
            if bytes_eq config.eim_id j
            then some (association config payload)
            else w.associated s j)
    pub profiles : (j : Bytes) → w.profile r j ≡ w.profile s j
    pub euicc : w.euicc r ≡ w.euicc s

  from_config :
      (config : EimConfigurationData Tlv) (payload : Bytes)
      → codec.encode config ≡ ok payload
      → associated_eim_from_config codec eid config ≡ ok (association config payload)
  unfolding associated_eim_from_config
  from_config config payload encoded = ground (arith, encoded)

  associate_lem :
      (s : S) (config : EimConfigurationData Tlv) (payload : Bytes)
      → w.Ready s
      → codec.encode config ≡ ok payload
      → (r : S) × (associate codec api live t eid config s ≡ (ok tt, r))
        × Associates s r config payload
  unfolding associate
  associate_lem s config payload ready encoded =
      let (r, e, k, a, p, u) = w.set_associated s (association config payload) ready refl in
      (
        r,
        rw (associate, from_config config payload encoded) e,
        record { ready = k; here = a; profiles = p; euicc = u },
      )

  -- On a ready device, a successful addEim stores the association of the eIM, and nothing else
  -- changes. Its payload encodes the configuration with the token that the eUICC returned, or
  -- with its own token where the eUICC returned none.
  pub add_eim_lem :
      (s : S) (eco : Eco Tlv) (config : EimConfigurationData Tlv) (result : PackageResult Tlv)
      (payload : Bytes)
      → w.Ready s
      → eco.config ≡ some config
      → codec.encode
          (with_token config (or_else result.add_eim_association_token config.association_token))
        ≡ ok payload
      → (r : S) × (apply_eco codec api live t eid add_eim eco (some result) s ≡ (ok tt, r))
        × Associates s r config payload
  unfolding apply_eco
  add_eim_lem s eco config result payload ready named encoded =
      let token = or_else result.add_eim_association_token config.association_token in
      let (r, e, k) = associate_lem s (with_token config token) payload ready encoded in
      (
        r,
        rw (apply_eco, named, returned_token config result) e,
        record { ready = k.ready; here = k.here; profiles = k.profiles; euicc = k.euicc },
      )

  -- The token that is held for an eIM: none where it is not associated, or else that of the
  -- configuration that its payload decodes to.
  abbrev pub TokenBefore : S → Bytes → Option Int64 → Type 0
  TokenBefore s eim_id old =
      ((w.associated s eim_id ≡ none) × (old ≡ none))
      ⊎ ((held : AssociatedEim) × (config : EimConfigurationData Tlv) × (w.associated s eim_id
            ≡ some held)
          × (codec.decode held.config_payload ≡ ok config)
          × (old ≡ config.association_token))

  token_before :
      (s : S) (eim_id : Bytes) (old : Option Int64)
      → TokenBefore s eim_id old
      → stored_token codec (found_or (w.associated s eim_id)) ≡ ok old
  unfolding stored_token
  token_before s eim_id old (inl (missing, same)) = ground (arith, missing, same)
  token_before s eim_id old (inr (held, config, there, decoded, same)) =
      ground (arith, there, decoded, same)

  -- On a ready device, a successful updateEim whose configuration has no token stores the
  -- association with the token that the eIM's association held before, which is none where the eIM
  -- was not associated and otherwise that of the configuration that its payload decodes to, and
  -- nothing else changes.
  pub update_eim_lem :
      (s : S) (eco : Eco Tlv) (config : EimConfigurationData Tlv)
      (result : Option (PackageResult Tlv)) (old : Option Int64) (payload : Bytes)
      → w.Ready s
      → eco.config ≡ some config
      → config.association_token ≡ none
      → TokenBefore s config.eim_id old
      → codec.encode (with_token config old) ≡ ok payload
      → (r : S) × (apply_eco codec api live t eid update_eim eco result s ≡ (ok tt, r))
        × Associates s r config payload
  unfolding apply_eco update_association existing_association_token
  update_eim_lem s eco config result old payload ready named lacks stored encoded =
      let (r, e, k) = associate_lem s (with_token config old) payload ready encoded in
      (
        r,
        rw
            (
              apply_eco,
              named,
              update_association,
              lacks,
              existing_association_token,
              w.get_associated s config.eim_id,
              token_before s config.eim_id old stored,
              filled_token config old lacks,
            )
            e,
        record { ready = k.ready; here = k.here; profiles = k.profiles; euicc = k.euicc },
      )

  -- An updateEim whose configuration has no token, for an eIM whose stored configuration does not
  -- decode, fails with the decoder's error and changes nothing.
  pub update_eim_undecodable :
      (s : S) (eco : Eco Tlv) (config : EimConfigurationData Tlv)
      (result : Option (PackageResult Tlv)) (e : Error)
      → eco.config ≡ some config
      → config.association_token ≡ none
      → stored_token codec (found_or (w.associated s config.eim_id)) ≡ err e
      → apply_eco codec api live t eid update_eim eco result s ≡ (err e, s)
  unfolding apply_eco update_association existing_association_token
  update_eim_undecodable s eco config result e named lacks stored =
      rw
        (
          apply_eco,
          named,
          update_association,
          lacks,
          existing_association_token,
          w.get_associated s config.eim_id,
          stored,
        )
        refl

  -- On a ready device, deleteEim succeeds, whether or not the eIM was associated. Afterwards it is
  -- not, and nothing else has changed.
  pub delete_eim_lem :
      (s : S) (eco : Eco Tlv) (result : Option (PackageResult Tlv))
      → w.Ready s
      → (r : S) × (apply_eco codec api live t eid delete_eim eco result s ≡ (ok tt, r))
        × w.Ready r
        × ((j : Bytes)
            → w.associated r j ≡ (if bytes_eq eco.eim_id j then none else w.associated s j))
        × ((j : Bytes) → w.profile r j ≡ w.profile s j)
        × (w.euicc r ≡ w.euicc s)
  unfolding apply_eco
  delete_eim_lem s eco result ready =
      let (r, e, k, a, p, u) = w.delete_associated s eco.eim_id ready in
      (r, rw (apply_eco, e, missing_or_deleted (w.associated s eco.eim_id) r), k, a, p, u)
