-- ===== src/Common/Sort.antt =====
-- `slice::sort` and `Vec::dedup` on keys: a list is put in ascending order.
use mathlib.Core.Path.{◌≡◌, refl, ap, ◌∙◌}
use mathlib.Core.Bool.{true, false, ◌||◌}
use mathlib.Core.List.{List, [], ◌∷◌}
use native.Mathlib.Omega.{arith}
use attribute_graph.Common.Tests.{if◌then◌else◌, Bool-cases, length}
use Prim.Native.Nat.{◌+◌}
use attribute_graph.Common.Keys.{Key, ◌==◌, eq_of_==}
use attribute_graph.Common.HashSet.{contains, IsDistinct}

module _ {A : Type 0} ⦃k : Key A⦄ where
  insert_by_order : List A → A → List A
  insert_by_order [] a = a ∷ []
  insert_by_order (x ∷ xs) a = if k.lt a x then a ∷ x ∷ xs else x ∷ insert_by_order xs a

  unfoldable pub sort : List A → List A
  unfolding insert_by_order
  sort [] = []
  sort (x ∷ xs) = insert_by_order (sort xs) x

  -- `Vec::dedup` drops what equals the element before it.
  dedup_after : A → List A → List A
  dedup_after a [] = []
  dedup_after a (x ∷ xs) =
      let same = dedup_after a xs in
      let other = dedup_after x xs in if a == x then same else x ∷ other

  unfoldable pub dedup : List A → List A
  unfolding dedup_after
  dedup [] = []
  dedup (x ∷ xs) = x ∷ dedup_after x xs

  abbrev IsAbove : A → List A → Type 0
  IsAbove a [] = Unit {0}
  IsAbove a (x ∷ xs) = (k.lt x a ≡ false) × IsAbove a xs

  -- Each element stands before none that is smaller.
  abbrev pub IsSorted : List A → Type 0
  IsSorted [] = Unit {0}
  IsSorted (x ∷ xs) = IsAbove x xs × IsSorted xs

  contains-insert_by_order :
      (xs : List A) (a b : A) → contains (insert_by_order xs a) b ≡ ((a == b) || contains xs b)
  unfolding insert_by_order contains
  contains-insert_by_order [] a b = refl
  contains-insert_by_order (x ∷ xs) a b = ground (arith, contains-insert_by_order xs a b)

  pub contains-sort : (xs : List A) (b : A) → contains (sort xs) b ≡ contains xs b
  unfolding sort contains
  contains-sort [] b = refl
  contains-sort (x ∷ xs) b =
      ground (arith, contains-insert_by_order (sort xs) x b, contains-sort xs b)

  contains-dedup_after :
      (xs : List A) (a b : A)
      → ((a == b) || contains (dedup_after a xs) b) ≡ ((a == b) || contains xs b)
  unfolding dedup_after contains
  contains-dedup_after [] a b = refl
  contains-dedup_after (x ∷ xs) a b = ground (
    arith,
    contains-dedup_after xs a b,
    contains-dedup_after xs x b,
    eq_of_== a x,
    ap (λ (c : A). c == b) {x = a} {y = x},
  )

  pub contains-dedup : (xs : List A) (b : A) → contains (dedup xs) b ≡ contains xs b
  unfolding dedup contains
  contains-dedup [] b = refl
  contains-dedup (x ∷ xs) b = contains-dedup_after xs x b

  IsAbove-insert_by_order :
      (xs : List A) (a b : A) → k.lt a b ≡ false → IsAbove b xs → IsAbove b (insert_by_order xs a)
  unfolding insert_by_order
  IsAbove-insert_by_order [] a b h all = (h, tt)
  IsAbove-insert_by_order (x ∷ xs) a b h all = ground (arith, IsAbove-insert_by_order xs a b)

  le_trans : (a b c : A) → k.lt b a ≡ false → k.lt c b ≡ false → k.lt c a ≡ false
  le_trans a b c h1 h2 = ground (
    arith,
    k.lt_trans c a b,
    k.lt_trans b c a,
    k.lt_connex a b,
    k.lt_connex c a,
    k.lt_irrefl a,
    Bool-cases (k.lt a b),
  )

  IsAbove-trans : (xs : List A) (a b : A) → k.lt b a ≡ false → IsAbove b xs → IsAbove a xs
  IsAbove-trans [] a b h all = tt
  IsAbove-trans (x ∷ xs) a b h all = (le_trans a b x h all.0, IsAbove-trans xs a b h all.1)

  lt_asymm : (a b : A) → k.lt a b ≡ true → k.lt b a ≡ false
  lt_asymm a b h = ground (arith, k.lt_trans a b a, k.lt_irrefl a)

  IsSorted-insert_by_order : (xs : List A) (a : A) → IsSorted xs → IsSorted (insert_by_order xs a)
  unfolding insert_by_order
  IsSorted-insert_by_order [] a h = (tt, tt)
  IsSorted-insert_by_order (x ∷ xs) a h = ground (
    arith,
    IsSorted-insert_by_order xs a,
    IsAbove-insert_by_order xs a x,
    IsAbove-trans xs a x,
    lt_asymm a x,
  )

  pub sort-IsSorted : (xs : List A) → IsSorted (sort xs)
  unfolding sort
  sort-IsSorted [] = tt
  sort-IsSorted (x ∷ xs) = IsSorted-insert_by_order (sort xs) x (sort-IsSorted xs)

  IsDistinct-insert_by_order :
      (xs : List A) (a : A)
      → contains xs a ≡ false
      → IsDistinct xs
      → IsDistinct (insert_by_order xs a)
  unfolding insert_by_order contains
  IsDistinct-insert_by_order [] a h d = (refl, tt)
  IsDistinct-insert_by_order (x ∷ xs) a h d = ground (
    arith,
    IsDistinct-insert_by_order xs a,
    contains-insert_by_order xs a x,
    k.beq_iff x a,
    k.beq_iff a x,
  )

  pub IsDistinct-sort : (xs : List A) → IsDistinct xs → IsDistinct (sort xs)
  unfolding sort
  IsDistinct-sort [] d = tt
  IsDistinct-sort (x ∷ xs) d =
      IsDistinct-insert_by_order (sort xs) x (contains-sort xs x ∙ d.0) (IsDistinct-sort xs d.1)

module _ {A : Type 0} ⦃k : Key A⦄ where
  length-insert_by_order : (xs : List A) (a : A) → length (insert_by_order xs a) ≡ length xs + 1
  unfolding insert_by_order
  length-insert_by_order [] a = refl
  length-insert_by_order (x ∷ xs) a = ground (arith, length-insert_by_order xs a)

  pub length-sort : (xs : List A) → length (sort xs) ≡ length xs
  unfolding sort
  length-sort [] = refl
  length-sort (x ∷ xs) = ground (arith, length-insert_by_order (sort xs) x, length-sort xs)
