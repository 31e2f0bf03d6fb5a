-- ===== src/Identity/Fresh.antt =====
-- The ids of `next_graph_id` in src/identity.rs.
use attribute_graph.Common.{
  ℕ, zero, suc, ◌+◌, ◌≤◌, ◌<◌, ◌≡◌, inl, inr, refl, true, Option, none, some, List, [], ◌∷◌, arith,
  contains, IsDistinct, nat_key, Bool-cases,
}
use attribute_graph.Identity.{GraphId, u64_bound, checked_increment, next_graph_id}

-- The ids that `n` calls in a row return, or `none` if one of them panics.
unfoldable pub graph_ids : ℕ → ℕ → Option (List GraphId)
graph_ids zero counter = some []
graph_ids (suc n) counter = elim (next_graph_id counter) [
  | none ↦ none
  | some (id, next) ↦ elim (graph_ids n next) [ none ↦ none | some ids ↦ some (id ∷ ids) ]
]

-- The increment succeeds below the bound.
next_graph_id-below :
    (counter : ℕ) → counter + 1 < u64_bound → next_graph_id counter ≡ some (counter, counter + 1)
unfolding next_graph_id checked_increment
next_graph_id-below counter below = ground arith

abbrev IsFrom : ℕ → List GraphId → Type 0
IsFrom counter ids = (i : GraphId) → contains ⦃k = nat_key⦄ ids i ≡ true → counter ≤ i

graph_ids-suc :
    (n counter next : ℕ) (ids : List GraphId)
    → next_graph_id counter ≡ some (counter, next)
    → graph_ids n next ≡ some ids
    → graph_ids (suc n) counter ≡ some (counter ∷ ids)
unfolding graph_ids
graph_ids-suc n counter next ids a b = rw (graph_ids, a, b) refl

graph_ids-IsFrom :
    (n counter : ℕ)
    → counter + n < u64_bound
    → (ids : List GraphId) × (graph_ids n counter ≡ some ids)
      × IsDistinct ⦃k = nat_key⦄ ids
      × IsFrom counter ids
unfolding graph_ids contains
graph_ids-IsFrom zero counter below = ([], refl, tt, λ i m. cc)
graph_ids-IsFrom (suc n) counter below =
    let (ids, e, distinct, from) = graph_ids-IsFrom n (counter + 1) (omega arith) in
    (
      counter ∷ ids,
      graph_ids-suc n counter (counter + 1) ids (next_graph_id-below counter (omega arith)) e,
      (
        elim (Bool-cases (contains ⦃k = nat_key⦄ ids counter)) [
          | inl old ↦ absurd (omega (arith, from counter old))
          | inr new ↦ new
        ],
        distinct,
      ),
      λ i m. ground (arith, from i),
    )

-- Calls of `next_graph_id` in a row return, and no id twice, as long as the
-- counter stays below its bound.
pub graph_ids-IsDistinct :
    (n counter : ℕ)
    → counter + n < u64_bound
    → (ids : List GraphId) × (graph_ids n counter ≡ some ids) × IsDistinct ⦃k = nat_key⦄ ids
graph_ids-IsDistinct n counter below =
    let (ids, e, distinct, from) = graph_ids-IsFrom n counter below in (ids, e, distinct)
