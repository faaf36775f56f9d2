-- ===== src/Esipa/Notify/Acks.antt =====
-- About the sequence numbers that are acknowledged.
use openiotrsp.Prelude.Pairs.{All-append}
use mathlib.Core.List.{Memᴰ}
use openiotrsp.Common.{
  ◌≡◌, sym, ◌≢◌, ◌↔◌, ◌⊎◌, inl, inr, true, List, [], ◌∷◌, ◌++◌, arith, Bool-cases, ◌==◌, eq_nat,
  eq_bytes, AllPairs, Int64,
}
use openiotrsp.Esipa.Notify.{append_ack_sequences, is_acknowledged}

is_acknowledged_iff : (x : Int64) (l : List Int64) → (is_acknowledged x l ≡ true) ↔ Memᴰ x l
unfolding is_acknowledged
is_acknowledged_iff x [] = (λ h. ground arith, λ m. elim m [ ])
is_acknowledged_iff x (y ∷ l) = (
  λ h. elim (Bool-cases (y == x)) [
    | inl e ↦ Memᴰ.head (ground arith)
    | inr e ↦ Memᴰ.tail ((is_acknowledged_iff x l).0 (ground arith))
  ],
  λ m. elim m [
    | Memᴰ.head e ↦ ground arith
    | Memᴰ.tail n ↦ ground (arith, (is_acknowledged_iff x l).1 n)
  ],
)

mem_appended : (x y : Int64) (l : List Int64) → Memᴰ x (l ++ y ∷ []) ↔ (Memᴰ x l ⊎ (x ≡ y))
mem_appended x y [] = (
  λ m. elim m [ Memᴰ.head e ↦ inr e | Memᴰ.tail n ↦ elim n [ ] ],
  λ c. elim c [ inl m ↦ elim m [ ] | inr e ↦ Memᴰ.head e ],
)
mem_appended x y (z ∷ l) = (
  λ m. elim m [
    | Memᴰ.head e ↦ inl (Memᴰ.head e)
    | Memᴰ.tail n ↦ elim ((mem_appended x y l).0 n) [ inl k ↦ inl (Memᴰ.tail k) | inr e ↦ inr e ]
  ],
  λ c. elim c [
    | inl m ↦ elim m [
      | Memᴰ.head e ↦ Memᴰ.head e
      | Memᴰ.tail n ↦ Memᴰ.tail ((mem_appended x y l).1 (inl n))
    ]
    | inr e ↦ Memᴰ.tail ((mem_appended x y l).1 (inr e))
  ],
)

distinct_appended :
    (y : Int64) (l : List Int64)
    → AllPairs (λ a b. a ≢ b) l
    → (Memᴰ y l → ⊥)
    → AllPairs (λ a b. a ≢ b) (l ++ y ∷ [])
distinct_appended y [] d h = (tt, tt)
distinct_appended y (z ∷ l) d h = (
  All-append (λ b. z ≢ b) l (y ∷ []) d.0 (λ e. h (Memᴰ.head (sym e)), tt),
  distinct_appended y l d.1 (λ m. h (Memᴰ.tail m)),
)

-- Sequence numbers to acknowledge are added without repetition: where the existing ones are
-- distinct, so are all, and they are the existing ones and the additions, no others.
pub append_ack_sequences-IsUnion :
    (existing additions : List Int64)
    → AllPairs (λ a b. a ≢ b) existing
    → let acks = append_ack_sequences existing additions in
      AllPairs (λ a b. a ≢ b) acks
      × ((x : Int64) → Memᴰ x acks ↔ (Memᴰ x existing ⊎ Memᴰ x additions))
unfolding append_ack_sequences
append_ack_sequences-IsUnion existing [] distinct =
    (distinct, λ x. (λ m. inl m, λ c. elim c [ inl m ↦ m | inr n ↦ elim n [ ] ]))
append_ack_sequences-IsUnion existing (addition ∷ additions) distinct =
    elim (Bool-cases (is_acknowledged addition existing)) [
      | inl e ↦
          let (d, members) = append_ack_sequences-IsUnion existing additions distinct in
          rw (e) (
            d,
            λ x. (
              λ m. elim ((members x).0 m) [ inl k ↦ inl k | inr k ↦ inr (Memᴰ.tail k) ],
              λ c. (members x).1 (elim c [
                | inl k ↦ inl k
                | inr k ↦ elim k [
                  | Memᴰ.head f ↦ inl ((is_acknowledged_iff x existing).0 (rw (f) e))
                  | Memᴰ.tail n ↦ inr n
                ]
              ]),
            ),
          )
      | inr e ↦
          let (d, members) = append_ack_sequences-IsUnion (existing ++ addition ∷ []) additions (
            distinct_appended addition existing distinct
              (λ m. ground (arith, (is_acknowledged_iff addition existing).1 m))) in
          rw (e) (
            d,
            λ x. (
              λ m. elim ((members x).0 m) [
                | inl k ↦ elim ((mem_appended x addition existing).0 k) [
                  | inl n ↦ inl n
                  | inr f ↦ inr (Memᴰ.head f)
                ]
                | inr k ↦ inr (Memᴰ.tail k)
              ],
              λ c. (members x).1 (elim c [
                | inl k ↦ inl ((mem_appended x addition existing).1 (inl k))
                | inr k ↦ elim k [
                  | Memᴰ.head f ↦ inl ((mem_appended x addition existing).1 (inr f))
                  | Memᴰ.tail n ↦ inr n
                ]
              ]),
            ),
          )
    ]
