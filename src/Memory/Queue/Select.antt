-- ===== src/Memory/Queue/Select.antt =====
-- What the loop, the sort and the cut of the listing methods return, for a test that fixes the
-- device.
use openiotrsp.Prelude.Pairs.{AllPairs-combine, AllPairs-permᴰ}
use openiotrsp.Prelude.Pairs.{All-permᴰ}
use mathlib.Core.List.Permᴰ
use openiotrsp.Common.{
  ℕ, ◌^◌, ◌≤◌, ◌<◌, ◌≡◌, sym, ap, ◌∙◌, subst, ◌⊎◌, inl, inr, Bool, true, false, ◌||◌, some, List,
  [], map, arith, nat_eq_iff, if◌then◌else◌, Option-cases, length, take, All, ◌==◌, eq_nat,
  eq_bytes, AllPairs, Int64, gt64, Dict, lookup, values_where, ok,
}
use mathlib.Core.List.{Permᴰ, Memᴰ}
use openiotrsp.Prelude.Int64.{gt64_total, gt64-IsOrder, lt_of_gt64}
use openiotrsp.Prelude.Members.{
  AllPairs-of_map, All-take, AllPairs-take, length-take-le, mem-take, All-of_map, mem-permᴰ,
  Memᴰ-map,
}
use openiotrsp.Prelude.Sort.{
  insertion_sort-permᴰ, HasDistinct, insertion_sort_perm, insertion_sort-IsSorted,
}
use openiotrsp.Prelude.Dict.Entries.{
  AllPairs-values_where, values_where-permᴰ, All-values_where, mem-values_where,
}
use openiotrsp.Storage.{TenantId, Operation}
use openiotrsp.Memory.State.{
  Store, DeviceKey, MemoryOperation, eq_device_key, eq_result_key, eq_profile_key,
  eq_associated_key, eq_config_key, eq_notification_key,
}
use openiotrsp.Memory.Operations.{sort_operations, select_operations}
use openiotrsp.Memory.Queue.{IsQueueValid, device_key_of}

-- `ops` are the first `limit` operations that pass the test, by ascending sequence number: each of
-- them is in the store, and one that is left out follows `limit` others.
pub record IsOldest (wanted : MemoryOperation → Bool) (limit : ℕ) (tenant_id : TenantId) (s : Store)
    (ops : List Operation) : Type 0 where
  pub sound :
      All
        (λ (o : Operation).
          let stored : MemoryOperation = record { tenant_id = tenant_id; operation = o } in
          (lookup o.id s.operations ≡ some stored) × (wanted stored ≡ true))
        ops
  pub ascending : AllPairs (λ a b. a.sequence_number < b.sequence_number) ops
  pub short : length ops ≤ limit
  pub complete :
      (id : Int64) (stored : MemoryOperation)
      → lookup id s.operations ≡ some stored
      → wanted stored ≡ true
      → Memᴰ stored.operation ops
        ⊎ ((length ops ≡ limit)
            × All (λ a. a.sequence_number < stored.operation.sequence_number) ops)

module _ (wanted : MemoryOperation → Bool) (k : DeviceKey)
    (narrow : (o : MemoryOperation) → wanted o ≡ true → device_key_of o ≡ k) (s : Store)
    (v : IsQueueValid s) (room : s.next_operation_id < 2 ^ 63) where
  abbrev found : List MemoryOperation
  found = values_where (λ id. wanted) s.operations

  abbrev op_of : MemoryOperation → Operation
  op_of stored = stored.operation

  abbrev sorted : List Operation
  sorted = sort_operations (map op_of found)

  small :
      (id : Int64) (o : MemoryOperation)
      → lookup id s.operations ≡ some o
      → o.operation.sequence_number < 2 ^ 63
  small id o l = elim (Option-cases (lookup (device_key_of o) s.devices)) [
    | inl n ↦ absurd (v.known id o l n)
    | inr (d, at) ↦ omega (arith, (v.passed id o d l at).1, (v.numbered (device_key_of o) d at).1)
  ]

  differ :
      (i : Int64) (a : MemoryOperation) (j : Int64) (b : MemoryOperation)
      → lookup i s.operations ≡ some a
      → lookup j s.operations ≡ some b
      → (i == j) ≡ false
      → wanted a ≡ true
      → wanted b ≡ true
      → (gt64 a.operation.sequence_number b.operation.sequence_number
          || gt64 b.operation.sequence_number a.operation.sequence_number)
        ≡ true
  differ i a j b l m n p q =
      gt64_total a.operation.sequence_number b.operation.sequence_number (small i a l) (small j b m)
        (λ same.
          let e = v.unique i j a b l m (narrow a p ∙ sym (narrow b q)) same in
          ground (arith, nat_eq_iff i j))

  found-HasDistinct :
      HasDistinct (λ a b. gt64 a.sequence_number b.sequence_number) (map op_of found)
  found-HasDistinct =
      AllPairs-of_map _ op_of found
        (AllPairs-values_where (λ id. wanted) _ s.operations v.distinct differ)

  sorted-permᴰ : Permᴰ sorted (map op_of found)
  unfolding sort_operations
  sorted-permᴰ = insertion_sort-permᴰ (λ a b. gt64 a.sequence_number b.sequence_number) _

  sorted_small : All (λ (o : Operation). o.sequence_number < 2 ^ 63) sorted
  sorted_small = All-permᴰ _ (Permᴰ.symm sorted-permᴰ) (
      All-of_map _ op_of found
        (All-values_where (λ id. wanted) _ s.operations v.distinct (λ id o l w. small id o l)))

  sorted_ascending : AllPairs (λ a b. a.sequence_number < b.sequence_number) sorted
  unfolding sort_operations
  sorted_ascending =
      AllPairs-combine (λ (o : Operation). o.sequence_number < 2 ^ 63)
        (λ a b. gt64 a.sequence_number b.sequence_number ≡ false)
        (λ a b.
          (gt64 a.sequence_number b.sequence_number || gt64 b.sequence_number a.sequence_number)
          ≡ true)
        _ sorted
        (λ a b p q r d. lt_of_gt64 a.sequence_number b.sequence_number p q (ground (arith, r, d)))
        sorted_small
        (insertion_sort-IsSorted _ (gt64-IsOrder (λ (o : Operation). o.sequence_number))
          (map op_of found))
        (AllPairs-permᴰ _ (λ a b h. ground arith) (Permᴰ.symm sorted-permᴰ) found-HasDistinct)

  sorted_sound :
      All
        (λ (o : Operation).
          let stored : MemoryOperation = record { tenant_id = k.tenant_id; operation = o } in
          (lookup o.id s.operations ≡ some stored) × (wanted stored ≡ true))
        sorted
  sorted_sound =
      All-permᴰ _ (Permᴰ.symm sorted-permᴰ)
        (All-of_map _ op_of found (All-values_where (λ id. wanted) _ s.operations v.distinct own))
    where
      own :
          (id : Int64) (o : MemoryOperation)
          → lookup id s.operations ≡ some o
          → wanted o ≡ true
          → let stored : MemoryOperation = record {
            tenant_id = k.tenant_id;
            operation = o.operation;
          } in
            (lookup o.operation.id s.operations ≡ some stored) × (wanted stored ≡ true)
      own id o l w =
          let same : o ≡ record { tenant_id = k.tenant_id; operation = o.operation } =
            ground (arith, narrow o w) in
          (
            ap (λ i. lookup i s.operations) (v.keyed id o l) ∙ l ∙ ap some same,
            subst (λ (x : MemoryOperation). wanted x ≡ true) same w,
          )

  pub select-IsOldest :
      (limit : Int64)
      → gt64 limit 0 ≡ true
      → (ops : List Operation) × (select_operations wanted limit s ≡ ok ops)
        × IsOldest wanted limit k.tenant_id s ops
  unfolding select_operations
  select-IsOldest limit positive = (
    take limit sorted,
    rw positive,
    record {
      sound = All-take _ limit sorted sorted_sound;
      ascending = AllPairs-take _ limit sorted sorted_ascending;
      short = length-take-le limit sorted;
      complete = λ id stored l w. mem-take _ limit sorted sorted_ascending (
          mem-permᴰ stored.operation (Permᴰ.symm sorted-permᴰ)
            (Memᴰ-map op_of found (mem-values_where (λ id. wanted) id stored s.operations l w)));
    },
  )

  -- The order in which the map is visited does not show.
  pub select_visit :
      (limit : Int64) (visited : Dict Int64 MemoryOperation)
      → Permᴰ s.operations visited
      → select_operations wanted limit s
        ≡ select_operations wanted limit (record s { operations = visited })
  unfolding select_operations sort_operations
  select_visit limit visited p =
      ap (λ ops. if gt64 limit 0 then ok (take limit ops) else ok [])
        (insertion_sort_perm _ (gt64-IsOrder (λ (o : Operation). o.sequence_number))
          (Permᴰ.map op_of (values_where-permᴰ (λ id. wanted) p)) found-HasDistinct)
