-- ===== src/Attribute.antt =====
-- src/attribute.rs, and the typed methods of src/graph.rs: handles that carry the type of the value.
use attribute_graph.Common.{ℕ, not, none, some, if◌then◌else◌}
use attribute_graph.Identity.{NodeId}
use attribute_graph.Value.{ValueStorage, type_eqb}
use attribute_graph.Value.Convert.{AttributeValue}
use attribute_graph.Error.{
  value_type_mismatch, value_decode_failed, rule_value_type_mismatch, Result, ok, err,
}
use attribute_graph.Rule.{answered, read_panicked, Callback, read, set_output, RuleDescriptor}
use attribute_graph.Dependency.{UpdateOutcome}
use attribute_graph.Graph.State.{Action, pure, observe, fail, ◌>>=◌, ◌>>◌}
use attribute_graph.Graph.Mutate.{add_source, add_derived, set_source_value}
use attribute_graph.Graph.Evaluate.{read_value, update_node, from_result}

pub record Attribute (T : Type 0) : Type 0 where
  pub id : NodeId

pub record StaticAttribute (T : Type 0) : Type 0 where
  pub attribute : Attribute T

pub record DynamicAttribute (T : Type 0) : Type 0 where
  pub attribute : Attribute T

module _ {T : Type 0} (v : AttributeValue T) where
  unfoldable pub decode_attribute_value : NodeId → ValueStorage → Result T
  decode_attribute_value id value =
      if not (type_eqb v.type_descriptor value.value_type)
      then err (value_type_mismatch id v.type_descriptor value.value_type)
      else elim (v.from_storage value) [
        | none ↦ err (value_decode_failed id v.type_descriptor)
        | some t ↦ ok t
      ]

  unfoldable pub add_static_attribute : T → Action (StaticAttribute T)
  add_static_attribute value = do
    id ← add_source (v.into_storage value)
    pure (record { attribute = record { id = id } })

  unfoldable pub add_dynamic_attribute : RuleDescriptor → Action (DynamicAttribute T)
  add_dynamic_attribute rule =
      if not (type_eqb v.type_descriptor rule.value_type)
      then fail (rule_value_type_mismatch v.type_descriptor rule.value_type)
      else do id ← add_derived rule; pure (record { attribute = record { id = id } })

  unfoldable pub read_typed : ℕ → Attribute T → Action T
  read_typed fuel attribute = do
    value ← read_value fuel attribute.id
    observe (λ _. from_result (decode_attribute_value attribute.id value))

  unfoldable pub set_static : StaticAttribute T → T → Action Unit
  set_static attribute value = do
    set_source_value attribute.attribute.id (v.into_storage value)
    pure tt

  unfoldable pub update_dynamic : ℕ → DynamicAttribute T → Action UpdateOutcome
  update_dynamic fuel attribute = update_node fuel attribute.attribute.id

  -- `EvaluationContext::read_attribute`, as a step of a callback, which goes on by the result or behind a
  -- panic.
  unfoldable pub read_attribute : Attribute T → (Result T → Callback) → Callback → Callback
  read_attribute dependency next behind_panic = read dependency.id λ r. elim r [
    | answered (ok value) ↦ next (decode_attribute_value dependency.id value)
    | answered (err e) ↦ next (err e)
    | read_panicked ↦ behind_panic
  ]

  unfoldable pub set_output_value : T → Callback → Callback
  set_output_value value next = set_output (v.into_storage value) next
