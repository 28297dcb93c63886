-- ===== src/Protocol/Structs/RoundTrip.antt =====
-- A source and a breakpoint that are written by `To` are read back by `From`.
use wxdap.Base.{zero, suc, ◌≡◌, refl, Bool, true, false, Option, some, [], ◌∷◌, Bytes, codes}
use wxdap.Decimal.{ℤ, pos, negsuc}
use wxdap.Json.{
  node, is_object, CJson, Nodes, cons, nil, IsInt, get_string, get_number, get_integer, get_bool,
  at_name,
}
use wxdap.Json.Building.{object, object_node, string_node, int_node, bool_node, building, IsKept}
use wxdap.Protocol.{Source, Breakpoint}
use wxdap.Protocol.Structs.{source_to, source_from, breakpoint_to, breakpoint_from}

-- A reference is an `int` that is not negative.
abbrev pub IsReference : ℤ → Type 0
IsReference (pos n) = IsInt (pos n)
IsReference (negsuc n) = ⊥

module _ (c : CJson) where
  open c use {to_int-of_int}

  -- The reference is an `int` that is not negative, and the texts are read as they are stored.
  abbrev pub IsSource : Source → Type 0
  IsSource s = IsReference s.source_reference × IsKept c s.name × IsKept c s.path

  abbrev pub IsBreakpoint : Breakpoint → Type 0
  IsBreakpoint b =
      IsInt b.id
      × IsInt b.line
      × IsInt b.column
      × IsInt b.end_line
      × IsInt b.end_column
      × IsKept c b.message
      × IsSource b.source

  pub read_bool-bool_node :
      (name : Bytes) (b : Bool) → get_bool (some (bool_node c name b)) false ≡ b
  unfolding get_bool
  read_bool-bool_node name true = refl
  read_bool-bool_node name false = refl

  abbrev reference_nodes : ℤ → Nodes c.Double
  reference_nodes (pos zero) = nil
  reference_nodes (pos (suc n)) = cons (int_node c (codes "sourceReference") (pos (suc n))) nil
  reference_nodes (negsuc n) = nil

  abbrev path_nodes : Bytes → Nodes c.Double → Nodes c.Double
  path_nodes [] rest = rest
  path_nodes (d ∷ path) rest = cons (string_node c (codes "path") (d ∷ path)) rest

  abbrev pub source_nodes : Bytes → Bytes → ℤ → Nodes c.Double
  source_nodes name path reference =
      cons (string_node c (codes "name") name) (path_nodes path (reference_nodes reference))

  source_to-fields :
      (name path : Bytes) (reference : ℤ)
      → source_to c (record { name = name; path = path; source_reference = reference })
        ≡ object c (source_nodes name path reference)
  unfolding source_to
  source_to-fields name [] (pos zero) = simp building
  source_to-fields name [] (pos (suc n)) = simp building
  source_to-fields name [] (negsuc n) = simp building
  source_to-fields name (d ∷ path) (pos zero) = simp building
  source_to-fields name (d ∷ path) (pos (suc n)) = simp building
  source_to-fields name (d ∷ path) (negsuc n) = simp building

  pub source_to-object :
      (s : Source) → source_to c s ≡ object c (source_nodes s.name s.path s.source_reference)
  source_to-object s = source_to-fields s.name s.path s.source_reference

  source_from-fields :
      (key name path : Bytes) (reference : ℤ)
      → IsReference reference
      → IsKept c name
      → IsKept c path
      → source_from c (some (object_node c key (source_nodes name path reference)))
        ≡ record { name = name; path = path; source_reference = reference }
  unfolding source_from at_name get_string get_number
  source_from-fields key name [] (pos zero) h n p =
      λ i. record { name = n i; path = []; source_reference = to_int-of_int (pos zero) refl i }
  source_from-fields key name [] (pos (suc k)) h n p =
      λ i. record { name = n i; path = []; source_reference = to_int-of_int (pos (suc k)) h i }
  source_from-fields key name (d ∷ path) (pos zero) h n p =
      λ i. record { name = n i; path = p i; source_reference = to_int-of_int (pos zero) refl i }
  source_from-fields key name (d ∷ path) (pos (suc k)) h n p =
      λ i. record { name = n i; path = p i; source_reference = to_int-of_int (pos (suc k)) h i }
  source_from-fields key name path (negsuc k) h n p = absurd h

  pub source_from-object :
      (key : Bytes) (s : Source)
      → IsSource s
      → source_from c (some (object_node c key (source_nodes s.name s.path s.source_reference))) ≡ s
  source_from-object key s (h, n, p) = source_from-fields key s.name s.path s.source_reference h n p

  abbrev pub breakpoint_nodes : Breakpoint → Nodes c.Double
  breakpoint_nodes b = cons (int_node c (codes "id") b.id) (
      cons (bool_node c (codes "verified") b.verified) (
        cons (string_node c (codes "message") b.message) (
          cons (int_node c (codes "line") b.line) (
            cons (int_node c (codes "column") b.column) (
              cons (int_node c (codes "endLine") b.end_line) (
                cons (int_node c (codes "endColumn") b.end_column) (
                  cons
                    (object_node c (codes "source")
                      (source_nodes b.source.name b.source.path b.source.source_reference))
                    nil)))))))

  pub breakpoint_to-object : (b : Breakpoint) → breakpoint_to c b ≡ object c (breakpoint_nodes b)
  unfolding breakpoint_to
  breakpoint_to-object b = simp (building, source_to-object)

  -- With a name or, in an array, without one.
  pub breakpoint_from-node :
      (key : Option Bytes) (b : Breakpoint)
      → IsBreakpoint b
      → breakpoint_from c (some (node is_object key [] (pos 0) c.zero_double (breakpoint_nodes b)))
        ≡ b
  unfolding breakpoint_from at_name get_string get_integer
  breakpoint_from-node key b (id, line, column, end_line, end_column, message, source) = λ i.
      record {
        id = to_int-of_int b.id id i;
        verified = read_bool-bool_node (codes "verified") b.verified i;
        message = message i;
        source = source_from-object (codes "source") b.source source i;
        line = to_int-of_int b.line line i;
        column = to_int-of_int b.column column i;
        end_line = to_int-of_int b.end_line end_line i;
        end_column = to_int-of_int b.end_column end_column i;
      }

  pub breakpoint_from-object :
      (key : Bytes) (b : Breakpoint)
      → IsBreakpoint b
      → breakpoint_from c (some (object_node c key (breakpoint_nodes b))) ≡ b
  breakpoint_from-object key b h = breakpoint_from-node (some key) b h
