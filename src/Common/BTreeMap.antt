-- ===== src/Common/BTreeMap.antt =====
-- std::collections::BTreeMap as an association list whose keys ascend: iteration goes through the list.
use mathlib.Core.Path.{◌≡◌, refl, sym, ap}
use mathlib.Core.Logic.{inl, inr}
use mathlib.Core.Bool.{true}
use mathlib.Core.Option.{none, some}
use mathlib.Core.List.Memᴰ
use mathlib.Core.List.{List, [], ◌∷◌, Memᴰ}
use native.Mathlib.Omega.{arith}
use attribute_graph.Common.Tests.{if◌then◌else◌, Bool-cases}
use attribute_graph.Common.Keys.{Key, ◌==◌, ==-cases, ==-refl}
use attribute_graph.Common.HashMap.{get}

abbrev pub BTreeMap : Type 0 → Type 0 → Type 0
BTreeMap K V = List (K × V)

module _ {K V : Type 0} ⦃k : Key K⦄ where
  unfoldable pub insert : BTreeMap K V → K → V → BTreeMap K V
  insert [] a v = (a, v) ∷ []
  insert ((j, w) ∷ m) a v =
      if j == a then (a, v) ∷ m else if k.lt a j then (a, v) ∷ (j, w) ∷ m else (j, w) ∷ insert m a v

  pub get-insert :
      (m : BTreeMap K V) (a : K) (v : V) (b : K)
      → get (insert m a v) b ≡ (if a == b then some v else get m b)
  unfolding get insert
  get-insert [] a v b = refl
  get-insert ((j, w) ∷ m) a v b =
      ground (arith, get-insert m a v b, k.beq_iff j a, k.beq_iff a b, k.beq_iff j b)

  -- All keys lie above one.
  abbrev pub IsOver : K → BTreeMap K V → Type 0
  IsOver a [] = Unit {0}
  IsOver a ((j, w) ∷ m) = (k.lt a j ≡ true) × IsOver a m

  abbrev pub IsAscending : BTreeMap K V → Type 0
  IsAscending [] = Unit {0}
  IsAscending ((j, w) ∷ m) = IsOver j m × IsAscending m

  IsOver-trans : (m : BTreeMap K V) (a b : K) → k.lt a b ≡ true → IsOver b m → IsOver a m
  IsOver-trans [] a b h o = tt
  IsOver-trans ((j, w) ∷ m) a b h o = (k.lt_trans a b j h o.0, IsOver-trans m a b h o.1)

  IsOver-insert :
      (m : BTreeMap K V) (a b : K) (v : V) → k.lt b a ≡ true → IsOver b m → IsOver b (insert m a v)
  unfolding insert
  IsOver-insert [] a b v h o = (h, tt)
  IsOver-insert ((j, w) ∷ m) a b v h o = ground (arith, IsOver-insert m a b v h o.1)

  pub IsAscending-insert :
      (m : BTreeMap K V) (a : K) (v : V) → IsAscending m → IsAscending (insert m a v)
  unfolding insert
  IsAscending-insert [] a v h = (tt, tt)
  IsAscending-insert ((j, w) ∷ m) a v h = elim (==-cases j a) [
    | inl (same, t) ↦ rw t (rw (← same) h)
    | inr t ↦ elim (Bool-cases (k.lt a j)) [
      | inl below ↦ rw (t, below) ((below, IsOver-trans m a j below h.0), h)
      | inr above ↦
          rw (t, above)
            (
              IsOver-insert m a j v (ground (arith, k.lt_connex a j above, k.beq_iff j a)) h.0,
              IsAscending-insert m a v h.1,
            )
    ]
  ]

  absent_above : (m : BTreeMap K V) (a b : K) → IsOver b m → (b == a) ≡ true → get m a ≡ none
  unfolding get
  absent_above [] a b o t = refl
  absent_above ((j, w) ∷ m) a b o t =
      ground (arith, absent_above m a b o.1 t, k.beq_iff b a, k.beq_iff j a, k.lt_irrefl a)

  -- In an ascending map, an entry is what its key is found with.
  pub get_of_mem :
      (m : BTreeMap K V) (a : K) (v : V) → IsAscending m → Memᴰ (a, v) m → get m a ≡ some v
  unfolding get
  get_of_mem [] a v h e = absurd (Memᴰ.not-nil e)
  get_of_mem ((j, w) ∷ m) a v h e = elim (Memᴰ.cases_cons e) [
    | inl same ↦ here (ap (λ (p : K × V). p.0) same) (ap (λ (p : K × V). p.1) same)
    | inr later ↦ elim (==-cases j a) [
      | inl (same, t) ↦
          absurd (ground (arith, absent_above m a j h.0 t, get_of_mem m a v h.1 later))
      | inr t ↦ rw t (get_of_mem m a v h.1 later)
    ]
  ]
    where
      here : a ≡ j → v ≡ w → (if j == a then some w else get m a) ≡ some v
      here p q = rw (p, ==-refl j) (ap some (sym q))

  pub mem_of_get : (m : BTreeMap K V) (a : K) (v : V) → get m a ≡ some v → Memᴰ (a, v) m
  unfolding get
  mem_of_get [] a v e = cc
  mem_of_get ((j, w) ∷ m) a v e = elim (==-cases j a) [
    | inl (same, t) ↦ Memᴰ.head (found same (rw t at e))
    | inr t ↦ Memᴰ.tail (mem_of_get m a v (rw t at e))
  ]
    where
      found : j ≡ a → some w ≡ some v → ◌≡◌ {A = K × V} (a, v) (j, w)
      found p q = cc
