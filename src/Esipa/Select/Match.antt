-- ===== src/Esipa/Select/Match.antt =====
-- About which operation a package result is found to be for.
use openiotrsp.Asn1.Package.{EuiccPackageSigned, EuiccPackageRequest}
use openiotrsp.Esipa.Select.{
  matches_criteria, or_nil, TenantId, match_pending_euicc_package_by_correlation,
  decode_package_request, match_completed, one_or_not_found,
}
use openiotrsp.Esipa.Select.{is_euicc_package}
use openiotrsp.Storage.Api.{StoreApi, live}
use openiotrsp.Esipa.Select.{first_matching_euicc_package}
use openiotrsp.Common.{
  ◌&&◌, ◌==◌, eq_nat, ◌≡◌, refl, sym, ap, ◌∙◌, subst, ◌↔◌, ◌⊎◌, inl, inr, true, Option, none, some,
  List, [], ◌∷◌, ◌++◌, arith, if◌then◌else◌, if_keeps, Bool-cases, All, Bytes, eq_nat, eq_bytes,
  bytes_eq_iff, Int64, on_ok_keeps, after_keeps, Result, ok, err, Action, pure, bytes_eq, fail,
  not_found,
}
use openiotrsp.Storage.{Operation}
use openiotrsp.Asn1.Tlv.{Bertlv}

module _ {Tlv : Type 0} (lib : Bertlv Tlv) (eim_id : Bytes) (counter : Int64)
    (transaction_id : Bytes) where
  -- A request agrees with what a result names; nothing named is no condition.
  pub record Agrees (signed : EuiccPackageSigned Tlv) : Type 0 where
    pub eim : (eim_id ≡ []) ⊎ (signed.eim_id ≡ eim_id)
    pub counted : (counter ≡ 0) ⊎ (signed.counter_value ≡ counter)
    pub transaction : (transaction_id ≡ []) ⊎ (or_nil signed.eim_transaction_id ≡ transaction_id)

  -- The operation carries a package request that agrees.
  abbrev pub IsFor : Operation → Type 0
  IsFor operation =
      (is_euicc_package operation.kind ≡ true)
      × ((request : EuiccPackageRequest Tlv) × (decode_package_request lib operation.payload
            ≡ ok request)
          × Agrees request.euicc_package_signed)

  -- The operation that is found, and the ones before it, which are not for the result.
  pub record IsFirstFor (operations : List Operation) (operation : Operation) : Type 0 where
    pub before : List Operation
    pub after : List Operation
    pub split : operations ≡ before ++ operation ∷ after
    pub fits : IsFor operation
    pub passed : All (λ o. ¬ IsFor o) before

  abbrev Found : List Operation → Result (Option Operation) → Type 0
  Found operations (ok (some operation)) = IsFirstFor operations operation
  Found operations (ok none) = All (λ o. ¬ IsFor o) operations
  Found operations (err e) = Unit {0}

  criteria_iff :
      (signed : EuiccPackageSigned Tlv)
      → (matches_criteria eim_id counter transaction_id signed ≡ true) ↔ Agrees signed
  unfolding matches_criteria
  criteria_iff signed = ground (
    arith,
    bytes_eq_iff eim_id [],
    bytes_eq_iff signed.eim_id eim_id,
    bytes_eq_iff transaction_id [],
    bytes_eq_iff (or_nil signed.eim_transaction_id) transaction_id,
  )

  passing :
      (operation : Operation) (operations : List Operation) (r : Result (Option Operation))
      → ¬ IsFor operation
      → Found operations r
      → Found (operation ∷ operations) r
  passing operation operations (ok (some found)) unfit f = record {
    before = operation ∷ f.before;
    after = f.after;
    split = ap (λ l. operation ∷ l) f.split;
    fits = f.fits;
    passed = (unfit, f.passed);
  }
  passing operation operations (ok none) unfit f = (unfit, f)
  passing operation operations (err e) unfit f = tt

  first_or_later :
      (operation : Operation) (operations : List Operation) (request : EuiccPackageRequest Tlv)
      → is_euicc_package operation.kind ≡ true
      → decode_package_request lib operation.payload ≡ ok request
      → Found operations (first_matching_euicc_package lib eim_id counter transaction_id operations)
      → Found (operation ∷ operations) (
          if matches_criteria eim_id counter transaction_id request.euicc_package_signed
          then ok (some operation)
          else first_matching_euicc_package lib eim_id counter transaction_id operations)
  first_or_later operation operations request packed d f =
      let criteria = criteria_iff request.euicc_package_signed in
      elim (Bool-cases
        (matches_criteria eim_id counter transaction_id request.euicc_package_signed)) [
          | inl m ↦ rw (m) (record {
            before = [];
            after = operations;
            split = refl;
            fits = (packed, (request, d, criteria.0 m));
            passed = tt;
          })
          | inr n ↦ rw (n) (
              passing operation operations _
                (λ (_, (other, d', agrees)).
                  let same : other ≡ request =
                    ap (λ r. elim r [ ok x ↦ x | err e ↦ request ]) (sym d' ∙ d) in
                  ground
                    (arith, criteria.1 (subst (λ x. Agrees x.euicc_package_signed) same agrees)))
                f)
        ]

  finds :
      (operations : List Operation)
      → Found operations (first_matching_euicc_package lib eim_id counter transaction_id operations)
  unfolding first_matching_euicc_package
  finds [] = tt
  finds (operation ∷ operations) = elim (Bool-cases (is_euicc_package operation.kind)) [
    | inr other ↦
        rw (other) (passing operation operations _ (λ f. ground (arith, f.0)) (finds operations))
    | inl packed ↦ rw (packed) (
        on_ok_keeps (Found (operation ∷ operations)) (decode_package_request lib operation.payload)
          _ (λ e. tt)
          (λ request d. first_or_later operation operations request packed d (finds operations)))
  ]

module _ {S Tlv : Type 0} (lib : Bertlv Tlv) (api : StoreApi S) (t : TenantId) (eid : Bytes)
    (eim_id : Bytes) (counter : Int64) (transaction_id : Bytes) (s : S) where
  abbrev Pending : S → List Operation → Type 0
  Pending u pending = api.fetch_pending_operations live t eid 10000 s ≡ (ok pending, u)

  -- The first pending operation that the result is for, or else, where there is none, the first of
  -- all operations of the device.
  abbrev pub IsFoundFor : Operation → S → Type 0
  IsFoundFor operation r =
      ((pending : List Operation) × Pending r pending
        × IsFirstFor lib eim_id counter transaction_id pending operation)
      ⊎ ((pending : List Operation) × (every : List Operation) × (u : S) × Pending u pending
          × All (λ o. ¬ IsFor lib eim_id counter transaction_id o) pending
          × (api.list_operations live t eid 10000 u ≡ (ok every, r))
          × IsFirstFor lib eim_id counter transaction_id every operation)

  abbrev Claim : Result (List Operation) × S → Type 0
  Claim (ok found, r) = (operation : Operation) × (found ≡ operation ∷ []) × IsFoundFor operation r
  Claim (err e, r) = Unit {0}

  completed :
      (pending every : List Operation) (u r : S)
      → Pending u pending
      → All (λ o. ¬ IsFor lib eim_id counter transaction_id o) pending
      → api.list_operations live t eid 10000 u ≡ (ok every, r)
      → (chosen : Option Operation) → Found lib eim_id counter transaction_id every (ok chosen)
      → Claim (one_or_not_found lib api live t eid chosen, r)
  completed pending every u r f passed g none h = tt
  completed pending every u r f passed g (some operation) h =
      (operation, refl, inr (pending, every, u, f, passed, g, h))

  chosen :
      (pending : List Operation) (u : S)
      → Pending u pending
      → (found : Option Operation) → Found lib eim_id counter transaction_id pending (ok found)
      → let next : Action S (List Operation) = elim found [
        | some operation ↦ pure (operation ∷ [])
        | none ↦ match_completed lib api live t eid eim_id counter transaction_id
      ] in
        Claim (next u)
  unfolding match_completed
  chosen pending u f (some operation) h = (operation, refl, inl (pending, f, h))
  chosen pending u f none h =
      if_keeps (λ (m : Action S (List Operation)). Claim (m u))
        (bytes_eq transaction_id [] && bytes_eq eim_id [] && (counter == 0)) (fail not_found) _ tt
        (after_keeps Claim (api.list_operations live t eid 10000 u) _ (λ e r. tt)
          (λ every r g.
            on_ok_keeps (λ x. Claim (x, r))
              (first_matching_euicc_package lib eim_id counter transaction_id every) _ (λ e. tt)
              (λ found k. completed pending every u r f h g found (
                subst (Found lib eim_id counter transaction_id every) k
                  (finds lib eim_id counter transaction_id every)))))

  -- Where an operation is found for a package result, it is the only one returned and is the first
  -- of the device's pending operations, or where none of these is for the result the first of all the
  -- device's operations, that carries an eUICC package whose eIM, counter and transaction agree with
  -- what the result names of them.
  pub match_pending-IsFoundFor :
      (r : S) (found : List Operation)
      → match_pending_euicc_package_by_correlation lib api live t eid eim_id counter transaction_id
          s
        ≡ (ok found, r)
      → (operation : Operation) × (found ≡ operation ∷ []) × IsFoundFor operation r
  unfolding match_pending_euicc_package_by_correlation
  match_pending-IsFoundFor r found e = subst Claim e (
      after_keeps Claim (api.fetch_pending_operations live t eid 10000 s) _ (λ x u. tt)
        (λ pending u f.
          after_keeps Claim
            (first_matching_euicc_package lib eim_id counter transaction_id pending, u) _
            (λ x w. tt)
            (λ found w g. chosen pending w (f ∙ ap (λ x. (ok pending, x.1)) g) found (
              subst (Found lib eim_id counter transaction_id pending) (ap (λ x. x.0) g)
                (finds lib eim_id counter transaction_id pending)))))
