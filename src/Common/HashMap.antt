-- ===== src/Common/HashMap.antt =====
-- std::collections::HashMap as an association list: the list's order stands for the unspecified
-- iteration order.
use Prim.Native.Nat.{ℕ}
use mathlib.Core.Path.{◌≡◌, refl, ap}
use mathlib.Core.Bool.{Bool}
use mathlib.Core.Option
use mathlib.Core.Option.{Option, none, some}
use mathlib.Core.List.{List, [], ◌∷◌}
use native.Mathlib.Omega.{arith}
use attribute_graph.Common.Tests.{if◌then◌else◌, is_some, length}
use attribute_graph.Common.Keys.{Key, ◌==◌}
use attribute_graph.Common.HashSet.{contains}

abbrev pub HashMap : Type 0 → Type 0 → Type 0
HashMap K V = List (K × V)

module _ {K V : Type 0} where
  unfoldable pub keys : HashMap K V → List K
  keys [] = []
  keys ((j, v) ∷ m) = j ∷ keys m

  unfoldable pub values : HashMap K V → List V
  values [] = []
  values ((j, v) ∷ m) = v ∷ values m

  abbrev pub len : HashMap K V → ℕ
  len m = length m

module _ {K V : Type 0} ⦃k : Key K⦄ where
  unfoldable pub get : HashMap K V → K → Option V
  get [] a = none
  get ((j, v) ∷ m) a = if j == a then some v else get m a

  unfoldable pub insert : HashMap K V → K → V → HashMap K V
  insert [] a v = (a, v) ∷ []
  insert ((j, w) ∷ m) a v = if j == a then (a, v) ∷ m else (j, w) ∷ insert m a v

  unfoldable pub remove : HashMap K V → K → HashMap K V
  remove [] a = []
  remove ((j, w) ∷ m) a = let rest = remove m a in if j == a then rest else (j, w) ∷ rest

  -- `if let Some(v) = map.get_mut(&a) { *v = f(*v) }`
  unfoldable pub modify : HashMap K V → K → (V → V) → HashMap K V
  modify [] a f = []
  modify ((j, w) ∷ m) a f = (j, if j == a then f w else w) ∷ modify m a f

  unfoldable pub contains_key : HashMap K V → K → Bool
  unfolding get
  contains_key m a = is_some (get m a)

  pub get-insert :
      (m : HashMap K V) (a : K) (v : V) (b : K)
      → get (insert m a v) b ≡ (if a == b then some v else get m b)
  unfolding get insert
  get-insert [] a v b = refl
  get-insert ((j, w) ∷ m) a v b =
      ground (arith, get-insert m a v b, k.beq_iff j a, k.beq_iff a b, k.beq_iff j b)

  pub get-remove :
      (m : HashMap K V) (a b : K) → get (remove m a) b ≡ (if a == b then none else get m b)
  unfolding get remove
  get-remove [] a b = ground arith
  get-remove ((j, w) ∷ m) a b =
      ground (arith, get-remove m a b, k.beq_iff j a, k.beq_iff a b, k.beq_iff j b)

  pub get-modify :
      (m : HashMap K V) (a : K) (f : V → V) (b : K)
      → get (modify m a f) b ≡ (if a == b then Option.map f (get m b) else get m b)
  unfolding get modify
  get-modify [] a f b = ground arith
  get-modify ((j, w) ∷ m) a f b =
      ground (arith, get-modify m a f b, k.beq_iff j a, k.beq_iff a b, k.beq_iff j b)

  pub keys-modify : (m : HashMap K V) (a : K) (f : V → V) → keys (modify m a f) ≡ keys m
  unfolding keys modify
  keys-modify [] a f = refl
  keys-modify ((j, w) ∷ m) a f = ap (λ l. j ∷ l) (keys-modify m a f)

  pub contains-keys : (m : HashMap K V) (a : K) → contains (keys m) a ≡ is_some (get m a)
  unfolding keys get contains
  contains-keys [] a = refl
  contains-keys ((j, w) ∷ m) a = ground (arith, contains-keys m a)

pub length-keys : {K V : Type 0} (m : HashMap K V) → length (keys m) ≡ length m
unfolding keys
length-keys [] = refl
length-keys ((j, v) ∷ m) = ground (arith, length-keys m)
