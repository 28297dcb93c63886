-- ===== src/Protocol/Items/RoundTrip.antt =====
-- What `To` of an element of a response writes, and that `From` reads it back.
use wxdap.Base.{All, ◌≡◌, some, Bytes, codes}
use wxdap.Json.{CJson, Nodes, cons, nil, IsInt, get_string, get_integer, at_name}
use wxdap.Json.Building.{object, object_node, string_node, int_node, bool_node, building, IsKept}
use wxdap.Json.Arrays.Filled.{
  array_node, string_nodes, add_strings-object, get_string_array-string_nodes,
}
use wxdap.Protocol.{not_found}
use wxdap.Protocol.Items.{
  Thread, StackFrame, Scope, VariablePresentationHint, Variable, BreakpointLocation, thread_to,
  thread_from, stack_frame_to, stack_frame_from, scope_to, scope_from, hint_to, hint_from,
  variable_to, variable_from, location_to, location_from,
}
use wxdap.Protocol.Structs.RoundTrip.{
  IsSource, source_nodes, source_to-object, source_from-object, read_bool-bool_node,
}

abbrev pub IsLocation : BreakpointLocation → Type 0
IsLocation l = IsInt l.column × IsInt l.end_column

-- A location without its lines.
abbrev pub unlined : BreakpointLocation → BreakpointLocation
unlined l = record l { line = not_found; end_line = not_found }

module _ (c : CJson) where
  open c use {Double, to_int-of_int}

  abbrev pub IsThread : Thread → Type 0
  IsThread t = IsInt t.id × IsKept c t.name

  abbrev pub IsStackFrame : StackFrame → Type 0
  IsStackFrame f = IsInt f.id × IsInt f.line × IsKept c f.name × IsSource c f.source

  abbrev pub IsScope : Scope → Type 0
  IsScope s = IsInt s.variables_reference × IsKept c s.name

  abbrev IsHint : VariablePresentationHint → Type 0
  IsHint h = IsKept c h.kind × All (IsKept c) h.attributes × IsKept c h.visibility

  abbrev pub IsVariable : Variable → Type 0
  IsVariable v =
      IsInt v.variables_reference
      × IsKept c v.name
      × IsKept c v.value
      × IsKept c v.type
      × IsHint v.presentation_hint

  abbrev pub thread_nodes : Thread → Nodes Double
  thread_nodes t =
      cons (int_node c (codes "id") t.id) (cons (string_node c (codes "name") t.name) nil)

  pub thread_to-object : (t : Thread) → thread_to c t ≡ object c (thread_nodes t)
  unfolding thread_to
  thread_to-object t = simp building

  pub thread_from-object : (t : Thread) → IsThread t → thread_from c (object c (thread_nodes t)) ≡ t
  unfolding thread_from at_name get_string get_integer
  thread_from-object t (h, name) = λ i. record { id = to_int-of_int t.id h i; name = name i }

  abbrev pub stack_frame_nodes : StackFrame → Nodes Double
  stack_frame_nodes f = cons (string_node c (codes "name") f.name) (
      cons (int_node c (codes "id") f.id) (
        cons (int_node c (codes "line") f.line) (
          cons
            (object_node c (codes "source")
              (source_nodes c f.source.name f.source.path f.source.source_reference))
            nil)))

  pub stack_frame_to-object : (f : StackFrame) → stack_frame_to c f ≡ object c (stack_frame_nodes f)
  unfolding stack_frame_to
  stack_frame_to-object f = simp (building, source_to-object)

  pub stack_frame_from-object :
      (f : StackFrame) → IsStackFrame f → stack_frame_from c (object c (stack_frame_nodes f)) ≡ f
  unfolding stack_frame_from at_name get_string get_integer
  stack_frame_from-object f (id, line, name, source) = λ i. record {
    id = to_int-of_int f.id id i;
    name = name i;
    source = source_from-object c (codes "source") f.source source i;
    line = to_int-of_int f.line line i;
  }

  abbrev pub scope_nodes : Scope → Nodes Double
  scope_nodes s = cons (string_node c (codes "name") s.name) (
      cons (int_node c (codes "variablesReference") s.variables_reference)
        (cons (bool_node c (codes "expensive") s.expensive) nil))

  pub scope_to-object : (s : Scope) → scope_to c s ≡ object c (scope_nodes s)
  unfolding scope_to
  scope_to-object s = simp building

  pub scope_from-object : (s : Scope) → IsScope s → scope_from c (object c (scope_nodes s)) ≡ s
  unfolding scope_from at_name get_string get_integer
  scope_from-object s (h, name) = λ i. record {
    name = name i;
    variables_reference = to_int-of_int s.variables_reference h i;
    expensive = read_bool-bool_node c (codes "expensive") s.expensive i;
  }

  abbrev hint_nodes : VariablePresentationHint → Nodes Double
  hint_nodes h = cons (string_node c (codes "kind") h.kind) (
      cons (string_node c (codes "visibility") h.visibility)
        (cons (array_node c (codes "attributes") (string_nodes c h.attributes)) nil))

  hint_to-object : (h : VariablePresentationHint) → hint_to c h ≡ object c (hint_nodes h)
  unfolding hint_to
  hint_to-object h = simp (building, add_strings-object)

  hint_from-object :
      (key : Bytes) (h : VariablePresentationHint)
      → IsHint h
      → hint_from c (some (object_node c key (hint_nodes h))) ≡ h
  unfolding hint_from at_name get_string
  hint_from-object key h (kind, attributes, visibility) = λ i. record {
    kind = kind i;
    attributes = get_string_array-string_nodes c (codes "attributes") h.attributes attributes i;
    visibility = visibility i;
  }

  abbrev pub variable_nodes : Variable → Nodes Double
  variable_nodes v = cons (string_node c (codes "name") v.name) (
      cons (string_node c (codes "value") v.value) (
        cons (string_node c (codes "type") v.type) (
          cons (int_node c (codes "variablesReference") v.variables_reference) (
            cons (object_node c (codes "presentationHint") (hint_nodes v.presentation_hint)) nil))))

  pub variable_to-object : (v : Variable) → variable_to c v ≡ object c (variable_nodes v)
  unfolding variable_to
  variable_to-object v = simp (building, hint_to-object)

  pub variable_from-object :
      (v : Variable) → IsVariable v → variable_from c (object c (variable_nodes v)) ≡ v
  unfolding variable_from at_name get_string get_integer
  variable_from-object v (h, name, value, type, hint) = λ i. record {
    name = name i;
    value = value i;
    type = type i;
    variables_reference = to_int-of_int v.variables_reference h i;
    presentation_hint = hint_from-object (codes "presentationHint") v.presentation_hint hint i;
  }

  abbrev pub location_nodes : BreakpointLocation → Nodes Double
  location_nodes l = cons (int_node c (codes "line") l.line) (
      cons (int_node c (codes "column") l.column) (
        cons (int_node c (codes "endLine") l.end_line)
          (cons (int_node c (codes "endColumn") l.end_column) nil)))

  pub location_to-object : (l : BreakpointLocation) → location_to c l ≡ object c (location_nodes l)
  unfolding location_to
  location_to-object l = simp building

  pub location_from-object :
      (l : BreakpointLocation)
      → IsLocation l
      → location_from c (object c (location_nodes l)) ≡ unlined l
  unfolding location_from at_name get_integer
  location_from-object l (column, end_column) = λ i. record {
    line = not_found;
    column = to_int-of_int l.column column i;
    end_line = not_found;
    end_column = to_int-of_int l.end_column end_column i;
  }
