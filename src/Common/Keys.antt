-- ===== src/Common/Keys.antt =====
-- What `derive(Eq, Hash, Ord)` gives a key type: a Boolean equality and a strict total order.
use Prim.Native.Nat.{ℕ}
use mathlib.Core.Path.{◌≡◌, refl, ap}
use mathlib.Core.Logic.{◌↔◌, ◌⊎◌}
use mathlib.Core.Bool.{Bool, true, false, ◌&&◌, ◌||◌}
use native.Mathlib.Omega.{arith}
use attribute_graph.Common.Tests.{eqb, ltb}

pub record Key (A : Type 0) : Type 0 where
  pub beq : A → A → Bool
  pub lt : A → A → Bool
  pub beq_iff : (a b : A) → (beq a b ≡ true) ↔ (a ≡ b)
  pub lt_irrefl : (a : A) → lt a a ≡ false
  pub lt_trans : (a b c : A) → lt a b ≡ true → lt b c ≡ true → lt a c ≡ true
  pub lt_connex : (a b : A) → lt a b ≡ false → lt b a ≡ false → a ≡ b

infix 50 ◌==◌
abbrev pub ◌==◌ : {A : Type 0} ⦃k : Key A⦄ → A → A → Bool
◌==◌ ⦃k⦄ = k.beq

module _ {A : Type 0} ⦃k : Key A⦄ where
  pub ==-refl : (a : A) → (a == a) ≡ true
  ==-refl a = (k.beq_iff a a).1 refl

  pub eq_of_== : (a b : A) → (a == b) ≡ true → a ≡ b
  eq_of_== a b = (k.beq_iff a b).0

  pub ==-comm : (a b : A) → (a == b) ≡ (b == a)
  ==-comm a b = ground (arith, k.beq_iff a b, k.beq_iff b a)

  -- A split on whether two keys are equal, with the test's value beside it.
  pub ==-cases : (a b : A) → ((a ≡ b) × ((a == b) ≡ true)) ⊎ ((a == b) ≡ false)
  ==-cases a b = ground (arith, k.beq_iff a b)

-- The order that `derive(Ord)` gives a struct of two fields: by the first, then by the second.
module _ {A B : Type 0} (ka : Key A) (kb : Key B) where
  unfoldable pub pair_beq : A × B → A × B → Bool
  pair_beq p q = ka.beq p.0 q.0 && kb.beq p.1 q.1

  unfoldable pub pair_lt : A × B → A × B → Bool
  pair_lt p q = ka.lt p.0 q.0 || (ka.beq p.0 q.0 && kb.lt p.1 q.1)

  pub pair_beq_iff : (p q : A × B) → (pair_beq p q ≡ true) ↔ (p ≡ q)
  unfolding pair_beq
  pair_beq_iff p q = ground (arith, ka.beq_iff p.0 q.0, kb.beq_iff p.1 q.1)

  pub pair_lt_irrefl : (p : A × B) → pair_lt p p ≡ false
  unfolding pair_lt
  pair_lt_irrefl p = ground (arith, ka.lt_irrefl p.0, kb.lt_irrefl p.1)

  pub pair_lt_trans : (p q r : A × B) → pair_lt p q ≡ true → pair_lt q r ≡ true → pair_lt p r ≡ true
  unfolding pair_lt
  pair_lt_trans p q r h1 h2 = ground (
    arith,
    ka.beq_iff p.0 q.0,
    ka.beq_iff q.0 r.0,
    ka.beq_iff p.0 r.0,
    ka.lt_trans p.0 q.0 r.0,
    kb.lt_trans p.1 q.1 r.1,
  )

  pub pair_lt_connex : (p q : A × B) → pair_lt p q ≡ false → pair_lt q p ≡ false → p ≡ q
  unfolding pair_lt
  pair_lt_connex p q h1 h2 =
      ground
        (arith, ka.lt_connex p.0 q.0, kb.lt_connex p.1 q.1, ka.beq_iff p.0 q.0, ka.beq_iff q.0 p.0)

pub nat_lt_connex : (a b : ℕ) → ltb a b ≡ false → ltb b a ≡ false → a ≡ b
nat_lt_connex a b h1 h2 = ground arith

pub nat_lt_trans : (a b c : ℕ) → ltb a b ≡ true → ltb b c ≡ true → ltb a c ≡ true
nat_lt_trans a b c h1 h2 = ground arith

pub nat_lt_irrefl : (a : ℕ) → ltb a a ≡ false
nat_lt_irrefl a = ground arith

pub nat_beq_iff : (a b : ℕ) → (eqb a b ≡ true) ↔ (a ≡ b)
nat_beq_iff a b = ground arith

abbrev pub nat_key : Key ℕ
nat_key = record {
  beq = eqb;
  lt = ltb;
  beq_iff = nat_beq_iff;
  lt_irrefl = nat_lt_irrefl;
  lt_trans = nat_lt_trans;
  lt_connex = nat_lt_connex;
}

abbrev pub pair_key : {A B : Type 0} → Key A → Key B → Key (A × B)
pair_key ka kb = record {
  beq = pair_beq ka kb;
  lt = pair_lt ka kb;
  beq_iff = pair_beq_iff ka kb;
  lt_irrefl = pair_lt_irrefl ka kb;
  lt_trans = pair_lt_trans ka kb;
  lt_connex = pair_lt_connex ka kb;
}

-- A struct is compared by the tuple of its fields.
abbrev pub key_by :
    {A B : Type 0} (fields : A → B) → ((a b : A) → fields a ≡ fields b → a ≡ b) → Key B → Key A
key_by fields injective kb = record {
  beq = λ a b. kb.beq (fields a) (fields b);
  lt = λ a b. kb.lt (fields a) (fields b);
  beq_iff = λ a b. (
    λ t. injective a b ((kb.beq_iff (fields a) (fields b)).0 t),
    λ e. (kb.beq_iff (fields a) (fields b)).1 (ap fields e),
  );
  lt_irrefl = λ a. kb.lt_irrefl (fields a);
  lt_trans = λ a b c. kb.lt_trans (fields a) (fields b) (fields c);
  lt_connex = λ a b s t. injective a b (kb.lt_connex (fields a) (fields b) s t);
}
