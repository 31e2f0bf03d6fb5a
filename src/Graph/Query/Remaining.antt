-- ===== src/Graph/Query/Remaining.antt =====
-- Counting the dependencies that an order has not reached.
use attribute_graph.Common.{
  ℕ, suc, ◌+◌, ◌≡◌, ◌⊎◌, inl, inr, refl, true, false, ◌||◌, List, [], ◌∷◌, ◌++◌, if◌then◌else◌,
  ◌==◌, contains, IsDistinct, length, arith, ==-cases, ==-refl, ==-comm, Bool-cases,
}
use attribute_graph.Common.HashSet.{contains-append}
use attribute_graph.Identity.{NodeId, node_id_key}
use attribute_graph.Graph.Query.{insert_sorted}

-- How many of the list are not among the first.
unfoldable pub remaining : List NodeId → List NodeId → ℕ
remaining done [] = 0
remaining done (x ∷ xs) = let rest = remaining done xs in if contains done x then rest else suc rest

pub remaining-nil : (xs : List NodeId) → remaining [] xs ≡ length xs
unfolding remaining contains
remaining-nil [] = refl
remaining-nil (x ∷ xs) = ground (arith, remaining-nil xs)

pub contains-snoc :
    (xs : List NodeId) (a b : NodeId) → contains (xs ++ a ∷ []) b ≡ (contains xs b || (a == b))
unfolding contains
contains-snoc xs a b = ground (arith, contains-append xs (a ∷ []) b)

pub remaining-snoc :
    (done xs : List NodeId) (a : NodeId)
    → contains done a ≡ false
    → IsDistinct xs
    → remaining done xs ≡ remaining (done ++ a ∷ []) xs + (if contains xs a then 1 else 0)
unfolding remaining contains
remaining-snoc done [] a fresh d = refl
remaining-snoc done (x ∷ xs) a fresh d = elim (==-cases x a) [
  | inl (same, t) ↦ ground (
    arith,
    remaining-snoc done xs a fresh,
    contains-snoc done a x,
    ==-comm a x,
    same_absent same d.0,
    same_fresh same,
  )
  | inr t ↦ ground (arith, remaining-snoc done xs a fresh, contains-snoc done a x, ==-comm a x)
]
  where
    same_absent : x ≡ a → contains xs x ≡ false → contains xs a ≡ false
    same_absent e h = rw e at h

    same_fresh : x ≡ a → contains done x ≡ false
    same_fresh e = rw e fresh

-- Either all of them are among the first, or one is missing.
pub missing :
    (done xs : List NodeId)
    → ((remaining done xs ≡ 0) × ((d : NodeId) → contains xs d ≡ true → contains done d ≡ true))
      ⊎ ((d : NodeId) × (contains xs d ≡ true) × (contains done d ≡ false))
unfolding remaining contains
missing done [] = inl (refl, λ d m. cc)
missing done (x ∷ xs) = elim (missing done xs) [
  | inr (d, m, f) ↦ inr (d, ground arith, f)
  | inl (e, all) ↦ elim (Bool-cases (contains done x)) [
    | inr f ↦ inr (x, ground (arith, ==-refl x), f)
    | inl t ↦ inl (
      ground arith,
      λ d m. elim (==-cases x d) [
        | inl (same, b) ↦ here_done same t
        | inr b ↦ all d (ground arith)
      ],
    )
  ]
]
  where
    here_done : {d : NodeId} → x ≡ d → contains done x ≡ true → contains done d ≡ true
    here_done e h = rw e at h

pub remaining_zero :
    (done xs : List NodeId)
    → remaining done xs ≡ 0
    → (d : NodeId) → contains xs d ≡ true
    → contains done d ≡ true
unfolding remaining contains
remaining_zero done [] e d m = cc
remaining_zero done (x ∷ xs) e d m = elim (==-cases x d) [
  | inl (same, b) ↦ here_done same (ground arith)
  | inr b ↦ remaining_zero done xs (ground arith) d (ground arith)
]
  where
    here_done : {d : NodeId} → x ≡ d → contains done x ≡ true → contains done d ≡ true
    here_done e h = rw e at h

pub contains-insert_sorted :
    (xs : List NodeId) (a b : NodeId)
    → contains (insert_sorted xs a) b ≡ ((a == b) || contains xs b)
unfolding insert_sorted contains
contains-insert_sorted [] a b = refl
contains-insert_sorted (x ∷ xs) a b = ground (arith, contains-insert_sorted xs a b)

pub IsDistinct-insert_sorted :
    (xs : List NodeId) (a : NodeId)
    → contains xs a ≡ false
    → IsDistinct xs
    → IsDistinct (insert_sorted xs a)
unfolding insert_sorted contains
IsDistinct-insert_sorted [] a h d = (refl, tt)
IsDistinct-insert_sorted (x ∷ xs) a h d =
    ground (arith, IsDistinct-insert_sorted xs a, contains-insert_sorted xs a x, ==-comm x a)

pub IsDistinct-snoc :
    (xs : List NodeId) (a : NodeId)
    → contains xs a ≡ false
    → IsDistinct xs
    → IsDistinct (xs ++ a ∷ [])
unfolding contains
IsDistinct-snoc [] a h d = (refl, tt)
IsDistinct-snoc (x ∷ xs) a h d =
    ground (arith, IsDistinct-snoc xs a, contains-snoc xs a x, ==-comm x a)
