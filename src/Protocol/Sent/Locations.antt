-- ===== src/Protocol/Sent/Locations.antt =====
-- What `From` makes of the arguments of a breakpointLocations request.
use wxdap.Base.{Option, none, [], ◌∙◌, ◌≡◌, codes, Bytes, some, ap}
use wxdap.Json.{node, is_object, CJson, IsInt, Nodes, cons, nil, at_name, get_integer}
use wxdap.Json.Building.{object, object_node, int_node, building}
use wxdap.Decimal.{pos}
use wxdap.Protocol.{not_found}
use wxdap.Protocol.Arguments.{
  BreakpointLocationsArguments, breakpoint_locations_to, breakpoint_locations_from,
}
use wxdap.Protocol.Structs.RoundTrip.{source_to-object, source_from-object, source_nodes, IsSource}

module _ (c : CJson) where
  open c use {Double, to_int-of_int}

  abbrev pub locations_nodes : BreakpointLocationsArguments → Nodes Double
  locations_nodes a =
      cons
        (object_node c (codes "source")
          (source_nodes c a.source.name a.source.path a.source.source_reference))
        (cons (int_node c (codes "line") a.line) (
          cons (int_node c (codes "column") a.column) (
            cons (int_node c (codes "endLine") a.end_line)
              (cons (int_node c (codes "endColumn") a.end_column) nil))))

  pub locations_to-object :
      (a : BreakpointLocationsArguments)
      → breakpoint_locations_to c a ≡ object c (locations_nodes a)
  unfolding breakpoint_locations_to
  locations_to-object a = simp (building, source_to-object)

  pub breakpoint_locations_from-node :
      (key : Option Bytes) (a : BreakpointLocationsArguments)
      → IsInt a.column
      → IsInt a.end_column
      → IsSource c a.source
      → breakpoint_locations_from c
          (some (node is_object key [] (pos 0) c.zero_double (locations_nodes a)))
        ≡ record a { line = not_found; end_line = not_found }
  unfolding breakpoint_locations_from at_name get_integer
  breakpoint_locations_from-node key a column end_column reference = λ i. record {
    source = source_from-object c (codes "source") a.source reference i;
    line = not_found;
    column = to_int-of_int a.column column i;
    end_line = not_found;
    end_column = to_int-of_int a.end_column end_column i;
  }

  -- The arguments that `To` writes are read back with the lines lost: the source and the columns are
  -- as they were, and the two lines are -1, whatever they were; provided that the columns are of 32
  -- bits and the source has no negative reference.
  pub breakpoint_locations_from-to :
      (a : BreakpointLocationsArguments)
      → IsInt a.column
      → IsInt a.end_column
      → IsSource c a.source
      → breakpoint_locations_from c (breakpoint_locations_to c a)
        ≡ record a { line = not_found; end_line = not_found }
  breakpoint_locations_from-to a column end_column reference =
      ap (breakpoint_locations_from c) (locations_to-object a)
      ∙ breakpoint_locations_from-node none a column end_column reference
