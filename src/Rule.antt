-- ===== src/Rule.antt =====
-- src/rule.rs: rules that the host supplies. A callback reaches the graph only through its
-- `EvaluationContext`, so it is the tree of what it does with that: reads, whose answer chooses how it
-- goes on, writes of the output, and its end, a return or an unwinding panic. A panic of a read is an
-- answer too: a rule unwinds, or catches it and goes on.
use attribute_graph.Common.{ℕ, Option, none, some, List, [], ◌∷◌, String}
use attribute_graph.Identity.{NodeId}
use attribute_graph.Value.{TypeDescriptor, ValueStorage}
use attribute_graph.Error.{Result}

abbrev pub RuleHandle : Type 0
RuleHandle = ℕ

pub data Answer : Type 0 where
  answered : Result ValueStorage → Answer
  read_panicked : Answer

pub data Callback : Type 0 where
  return : Result Unit → Callback
  unwind : Callback
  read : NodeId → (Answer → Callback) → Callback
  set_output : ValueStorage → Callback → Callback

-- The handle, and the node that `context.evaluating()` names.
abbrev pub UpdateFn : Type 0
UpdateFn = RuleHandle → NodeId → Callback

-- The address of the host's function, which the graph only calls.
abbrev pub DestroyFn : Type 0
DestroyFn = ℕ

pub record RuleDescriptor : Type 0 where
  pub body : RuleHandle
  pub update : UpdateFn
  pub destroy : Option DestroyFn
  pub body_type : TypeDescriptor
  pub value_type : TypeDescriptor
  pub debug_name : String

unfoldable pub new :
    RuleHandle → UpdateFn → TypeDescriptor → TypeDescriptor → String → RuleDescriptor
new body update body_type value_type debug_name = record {
  body = body;
  update = update;
  destroy = none;
  body_type = body_type;
  value_type = value_type;
  debug_name = debug_name;
}

unfoldable pub with_destroy : RuleDescriptor → DestroyFn → RuleDescriptor
with_destroy rule destroy = record rule { destroy = some destroy }

-- The calls of the host that dropping the descriptor makes.
unfoldable pub drop : RuleDescriptor → List (DestroyFn × RuleHandle)
drop rule = elim rule.destroy [ none ↦ [] | some destroy ↦ (destroy, rule.body) ∷ [] ]
