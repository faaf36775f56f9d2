-- ===== src/Lib.antt =====
-- openiotrsp is an eIM (an eSIM IoT remote manager): it queues operations for devices, hands them
-- to the device's IPA as eUICC packages, and applies the results that come back to what it stores
-- of the device. This development models the store, the packages and their results, the message
-- codecs and the front end that the IPA talks to.
--
-- The parts and how they interact:
--   * Storage is storage/store.go: the records of the persistence boundary (Device, ProfileState,
--     Operation, ...) and NormalizeTenantID. Storage/Api is the part of the interface `Store` that
--     the package effects call, as a record of operations (StoreApi), and what one device's caller
--     relies on, as a record of laws (DeviceView).
--   * Memory is storage/memory/store.go, the in-memory store: Memory/State has its struct and its
--     map keys, Memory/Devices, Memory/Profiles, Memory/Operations, Memory/Results and
--     Memory/Configs have one action per method, named after it, and Memory/Calls has the calls
--     that change the store and the histories of such calls. Memory/Queue and the files below it
--     are about the operation queue, Memory/Counters is about the package counters,
--     Memory/Isolation about the tenants, Memory/Notifications about the stored notifications, and
--     Memory/Api is the store as an implementation of the interface.
--   * Asn1 is the message codecs. Asn1/Tlv has a TLV object and the operations of the bertlv
--     library as a record (Bertlv), Asn1/Codec and Asn1/BitString are asn1/codec.go, Asn1/Oid is the
--     object identifiers of encoding/asn1 that it uses, Asn1/Package with its Decode and Encode is
--     asn1/euicc_package.go, Asn1/Result with its Decode and Values, Asn1/Notification,
--     Asn1/Download and Asn1/DownloadResult are asn1/result.go and the downloads of asn1/esipa.go,
--     Asn1/Esipa with its Poll, Outcome and Transfer is the rest of asn1/esipa.go, and Asn1/IpaData
--     with its Response is asn1/ipadata.go.
--   * EuiccPkg/Operation is euiccpkg/operation.go: which operation a package carries.
--     EuiccPkg/Result and EuiccPkg/Outcome are the domain result of euiccpkg/service.go and
--     euiccpkg/errors.go and how it is read off the result data, whose types Asn1/Result has from
--     asn1/result.go. EuiccPkg/Verify is the checks of a decoded result against the signed request,
--     in euiccpkg/service.go, and EuiccPkg/RawTlv is euiccpkg/raw_tlv.go, which finds the signed
--     bytes of a result. EuiccPkg/Service is Sign, VerifyPackageResult and
--     VerifyAndApplyResult of euiccpkg/service.go. EuiccPkg/State and
--     EuiccPkg/Association are euiccpkg/state.go: what a successful package does to the stored
--     profiles, eUICC state and eIM associations, over any store.
--   * Pki is pki/eid.go and pki/subject_key_id.go, IpaData is ipadata/request.go.
--   * Esipa is the front end that the IPA talks to, esipa/handler.go, esipa/eid_resolve.go and
--     esipa/eid_recover.go. Esipa has the envelopes and the fixed answers, Esipa/Select which
--     operation is delivered and which one a result is for, Esipa/Notify the notifications,
--     Esipa/Resolve which device a result comes from, Esipa/Results and Esipa/Record what is done
--     with a result (with Esipa/Apply for one operation), Esipa/Forward which messages are the
--     relay's, and Esipa/Handler the messages. It calls the store, EuiccPkg, IpaData and the
--     codecs; the same definitions run over any store.
--   * Prelude has the helpers, Common passes them on, and Examples runs the theorems on concrete
--     stores and packages.
--
-- How the code is translated: a method that returns `(value, error)` is a function from the store
-- to a result and the store after it, so what was written before an error stays written. A method
-- of the in-memory store holds the mutex for its whole body, so it is one step. `time.Now` and the
-- error of the context are arguments. A Go map is an association list; its order stands for the
-- order in which a `range` visits it. Strings and byte slices are lists of bytes, a nil slice and
-- an empty one being one value; a pointer to a value that may be missing is an option. Values are
-- immutable here, so the clone functions are the identity. An int64 is its 64-bit pattern, with
-- comparison and increment written out (Prelude/Int64); theorems say where a counter must not
-- have run out.
--
-- A loop is structural recursion on the list that it ranges over. The loop of children in
-- euiccpkg/raw_tlv.go is recursion on fuel; a child is at least two bytes long, so the length of the
-- parent's value is fuel enough. The readers of esipa and asn1 that look into children of children
-- are recursion on fuel too, which is the height of the object that they read: each call goes one
-- level down, so the height is enough (Asn1/Depth, Esipa/Resolve/Depth).
--
-- Parameters stand for what is not in the repository: the bertlv library (Bertlv), the digest and
-- signature checks (Crypto), x509 certificates (X509), the resolver of public keys, the signer and
-- the relay. EuiccPkg takes the codecs as a record as well, which Esipa/Results fills with those of
-- Asn1.
--
-- Not modelled: the transports and the JSON form of esipa, the HTTP layer (api), the relay's own
-- code, the Postgres store (SQL), in asn1 the encoders of package results and of the IPA's data,
-- which only the mock IPA calls, key files and certificate validation, the mock IPA, the import of
-- bundles (dataact) and the programs under cmd. Guards for a nil receiver and a nil store, and log
-- lines, have no counterpart.
pub mod Prelude
pub mod Common
pub mod Storage
pub mod Memory
pub mod Asn1
pub mod Pki
pub mod EuiccPkg
pub mod IpaData
pub mod Esipa
pub mod Examples
