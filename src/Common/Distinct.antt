-- ===== src/Common/Distinct.antt =====
-- That a HashSet lists no member twice, and a HashMap no key: what their operations keep.
use mathlib.Core.Path.{◌≡◌, refl, ap}
use mathlib.Core.Bool.{Bool, true, false, not, ◌||◌}
use mathlib.Core.List
use mathlib.Core.List.{List, [], ◌∷◌}
use Prim.Native.Nat.{◌≤◌, ◌+◌}
use native.Mathlib.Omega.{arith}
use attribute_graph.Common.Tests.{length}
use attribute_graph.Common.Keys.{Key, ◌==◌, eq_of_==, ==-refl, ==-comm}
use attribute_graph.Common.HashSet
use attribute_graph.Common.HashSet.{
  HashSet, contains, retain, IsDistinct, contains-insert, contains-retain, contains-remove,
  contains-nil,
}
use attribute_graph.Common.HashMap
use attribute_graph.Common.HashMap.{HashMap, get-insert, get-remove, contains-keys}

module _ {A : Type 0} ⦃k : Key A⦄ where
  pub IsDistinct-insert : (s : HashSet A) (a : A) → IsDistinct s → IsDistinct (HashSet.insert s a)
  unfolding HashSet.insert
  IsDistinct-insert s a d = ground arith

  pub IsDistinct-retain : (p : A → Bool) (s : HashSet A) → IsDistinct s → IsDistinct (retain p s)
  unfolding retain
  IsDistinct-retain p [] d = tt
  IsDistinct-retain p (x ∷ xs) d = ground (arith, IsDistinct-retain p xs, contains-retain p xs x)

  pub IsDistinct-remove : (s : HashSet A) (a : A) → IsDistinct s → IsDistinct (HashSet.remove s a)
  unfolding HashSet.remove
  IsDistinct-remove s a d = IsDistinct-retain (λ x. not (x == a)) s d

  pub IsDistinct-from_list : (xs : List A) → IsDistinct (HashSet.from_list xs)
  unfolding HashSet.from_list
  IsDistinct-from_list [] = tt
  IsDistinct-from_list (x ∷ xs) =
      IsDistinct-insert (HashSet.from_list xs) x (IsDistinct-from_list xs)

  length-retain_le : (p : A → Bool) (s : List A) → length (retain p s) ≤ length s
  unfolding retain
  length-retain_le p [] = omega arith
  length-retain_le p (x ∷ xs) = ground (arith, length-retain_le p xs)

  length-remove_lt :
      (s : HashSet A) (a : A) → contains s a ≡ true → length (HashSet.remove s a) + 1 ≤ length s
  unfolding HashSet.remove retain contains
  length-remove_lt [] a m = cc
  length-remove_lt (x ∷ xs) a m =
      ground (arith, length-remove_lt xs a, length-retain_le (λ y. not (y == a)) xs)

  -- The pigeonhole principle.
  pub length-le_of_contains :
      (s t : List A)
      → IsDistinct s
      → ((a : A) → contains s a ≡ true → contains t a ≡ true)
      → length s ≤ length t
  unfolding contains
  length-le_of_contains [] t d sub = omega arith
  length-le_of_contains (x ∷ xs) t d sub =
      let smaller =
        length-le_of_contains xs (HashSet.remove t x) d.1
          λ a m. ground (arith, contains-remove t x a, sub a, k.beq_iff a x) in
      omega (arith, smaller, length-remove_lt t x (sub x (ground (arith, ==-refl x))))

  module _ {V : Type 0} where
    pub IsDistinct-keys-insert :
        (m : HashMap A V) (a : A) (v : V)
        → IsDistinct (HashMap.keys m)
        → IsDistinct (HashMap.keys (HashMap.insert m a v))
    unfolding HashMap.keys HashMap.insert contains
    IsDistinct-keys-insert [] a v d = (refl, tt)
    IsDistinct-keys-insert ((j, w) ∷ m) a v d = ground (
      arith,
      IsDistinct-keys-insert m a v,
      contains-keys (HashMap.insert m a v) j,
      contains-keys m j,
      get-insert m a v j,
      ==-comm a j,
      eq_of_== j a,
    )

    pub IsDistinct-keys-remove :
        (m : HashMap A V) (a : A)
        → IsDistinct (HashMap.keys m)
        → IsDistinct (HashMap.keys (HashMap.remove m a))
    unfolding HashMap.keys HashMap.remove
    IsDistinct-keys-remove [] a d = tt
    IsDistinct-keys-remove ((j, w) ∷ m) a d = ground (
      arith,
      IsDistinct-keys-remove m a,
      contains-keys (HashMap.remove m a) j,
      contains-keys m j,
      get-remove m a j,
    )

  contains-reverse_aux :
      (xs acc : List A) (a : A)
      → contains (List.reverse_aux xs acc) a ≡ (contains xs a || contains acc a)
  unfolding contains
  contains-reverse_aux [] acc a = refl
  contains-reverse_aux (x ∷ xs) acc a = ground (arith, contains-reverse_aux xs (x ∷ acc) a)

  pub contains-reverse : (xs : List A) (a : A) → contains (List.reverse xs) a ≡ contains xs a
  contains-reverse xs a = ground (arith, contains-reverse_aux xs [] a, contains-nil a)

  IsDistinct-reverse_aux :
      (xs acc : List A)
      → IsDistinct xs
      → IsDistinct acc
      → ((a : A) → contains xs a ≡ true → contains acc a ≡ false)
      → IsDistinct (List.reverse_aux xs acc)
  unfolding contains
  IsDistinct-reverse_aux [] acc d e apart = e
  IsDistinct-reverse_aux (x ∷ xs) acc d e apart =
      IsDistinct-reverse_aux xs (x ∷ acc) d.1 (apart x (ground (arith, ==-refl x)), e)
        λ a m. ground (arith, apart a, d.0, ap (contains xs) {x = x} {y = a}, eq_of_== x a)

  pub IsDistinct-reverse : (xs : List A) → IsDistinct xs → IsDistinct (List.reverse xs)
  IsDistinct-reverse xs d = IsDistinct-reverse_aux xs [] d tt λ a m. contains-nil a
