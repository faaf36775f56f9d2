-- ===== src/EuiccPkg/Association/Survival.antt =====
-- About the token that the eUICC returned for addEim, across later updates of the configuration
-- (euiccpkg/state.go).
use openiotrsp.Common.{◌≡◌, Bytes, eq_nat, eq_bytes, ok}
use openiotrsp.Asn1.Package.{EimConfigurationData}
use openiotrsp.EuiccPkg.Association.{EimCodec}

-- A codec that keeps the association token of what it encodes.
abbrev pub KeepsTokens : {Tlv : Type 0} → EimCodec Tlv → Type 0
KeepsTokens {Tlv} codec =
    (config : EimConfigurationData Tlv) (payload : Bytes)
    → codec.encode config ≡ ok payload
    → (config' : EimConfigurationData Tlv) × (codec.decode payload ≡ ok config')
      × (config'.association_token ≡ config.association_token)
