-- ===== src/Common/HashSet.antt =====
-- std::collections::HashSet as a list of its members: the list's order stands for the unspecified
-- iteration order.
use mathlib.Core.Path.{◌≡◌, refl, ap}
use mathlib.Core.Logic.{inl, inr}
use mathlib.Core.Bool.{Bool, true, false, not, ◌&&◌, ◌||◌}
use mathlib.Core.List.{List, [], ◌∷◌, ◌++◌}
use native.Mathlib.Omega.{arith}
use attribute_graph.Common.Tests.{if◌then◌else◌, Bool-cases}
use attribute_graph.Common.Keys.{Key, ◌==◌, eq_of_==, ==-cases}

abbrev pub HashSet : Type 0 → Type 0
HashSet A = List A

module _ {A : Type 0} where
  -- `retain`, `filter` and their kin.
  unfoldable pub retain : (A → Bool) → List A → List A
  retain p [] = []
  retain p (x ∷ xs) = let rest = retain p xs in if p x then x ∷ rest else rest

module _ {A : Type 0} ⦃k : Key A⦄ where
  unfoldable pub contains : HashSet A → A → Bool
  contains [] a = false
  contains (x ∷ xs) a = (x == a) || contains xs a

  unfoldable pub insert : HashSet A → A → HashSet A
  insert s a = if contains s a then s else a ∷ s

  unfoldable pub remove : HashSet A → A → HashSet A
  unfolding retain
  remove s a = retain (λ x. not (x == a)) s

  -- `collect::<HashSet<_>>()`
  unfoldable pub from_list : List A → HashSet A
  unfolding insert
  from_list [] = []
  from_list (x ∷ xs) = insert (from_list xs) x

  unfoldable pub difference : HashSet A → HashSet A → HashSet A
  unfolding retain
  difference s t = retain (λ x. not (contains t x)) s

  unfoldable pub intersection : HashSet A → HashSet A → HashSet A
  unfolding retain
  intersection s t = retain (contains t) s

  -- No member is listed twice.
  abbrev pub IsDistinct : List A → Type 0
  IsDistinct [] = Unit {0}
  IsDistinct (x ∷ xs) = (contains xs x ≡ false) × IsDistinct xs

  pub contains-insert :
      (s : HashSet A) (a b : A) → contains (insert s a) b ≡ ((a == b) || contains s b)
  unfolding insert contains
  contains-insert s a b = elim (Bool-cases (contains s a)) [
    | inl old ↦ elim (==-cases a b) [
      | inl (e, t) ↦ rw (old, t) (subst_contains e old)
      | inr t ↦ rw (old, t)
    ]
    | inr new ↦ rw new
  ]
    where
      subst_contains : {c : A} → a ≡ c → contains s a ≡ true → contains s c ≡ true
      subst_contains e h = rw e at h

  pub contains-retain :
      (p : A → Bool) (s : HashSet A) (a : A) → contains (retain p s) a ≡ (p a && contains s a)
  unfolding retain contains
  contains-retain p [] a = ground arith
  contains-retain p (x ∷ xs) a =
      ground (arith, contains-retain p xs a, eq_of_== x a, ap p {x = x} {y = a})

  pub contains-remove :
      (s : HashSet A) (a b : A) → contains (remove s a) b ≡ (not (b == a) && contains s b)
  unfolding remove
  contains-remove s a b = contains-retain (λ x. not (x == a)) s b

  pub contains-append :
      (s t : List A) (a : A) → contains (s ++ t) a ≡ (contains s a || contains t a)
  unfolding contains
  contains-append [] t a = refl
  contains-append (x ∷ xs) t a = ground (arith, contains-append xs t a)

  pub contains-from_list : (xs : List A) (a : A) → contains (from_list xs) a ≡ contains xs a
  unfolding from_list contains
  contains-from_list [] a = refl
  contains-from_list (x ∷ xs) a =
      ground (arith, contains-insert (from_list xs) x a, contains-from_list xs a)

  pub contains-nil : (a : A) → contains [] a ≡ false
  unfolding contains
  contains-nil a = refl
