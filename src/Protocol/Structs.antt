-- ===== src/Protocol/Structs.antt =====
-- dap/dap.cpp: `Source` and `Breakpoint`.
pub mod RoundTrip
use wxdap.Base.{
  suc, Bool, true, false, ◌&&◌, ◌||◌, not, [], ◌∷◌, Bytes, codes, bytes_eq, if◌then◌else◌, ◌==◌,
}
use wxdap.Decimal.{ℤ, pos, negsuc}
use wxdap.Json.{CJson, Json, at_name}
use wxdap.Json.Build.{create_object, add_string, add_int, add_bool, add_object}
use wxdap.Protocol.{Source, Breakpoint, read_string, read_int, read_bool, read_number}

abbrev pub is_empty : Bytes → Bool
is_empty [] = true
is_empty (c ∷ s) = false

abbrev pub is_positive : ℤ → Bool
is_positive (pos (suc n)) = true
is_positive _ = false

abbrev pub int_eq : ℤ → ℤ → Bool
int_eq (pos m) (pos n) = m == n
int_eq (negsuc m) (negsuc n) = m == n
int_eq _ _ = false

-- `Breakpoint::operator==`
unfoldable pub breakpoint_eq : Breakpoint → Breakpoint → Bool
breakpoint_eq a b =
    (not (is_empty a.source.path) && (bytes_eq a.source.path b.source.path && int_eq a.line b.line))
    || ((not (is_empty a.source.name) && bytes_eq a.source.name b.source.name)
        || int_eq a.source.source_reference b.source.source_reference)

module _ (c : CJson) where
  open c use {Double, of_int, to_int}

  unfoldable pub source_to : Source → Json Double
  source_to s =
      let a = add_string c (create_object c) (codes "name") s.name in
      let b = if is_empty s.path then a else add_string c a (codes "path") s.path in
      if is_positive s.source_reference
      then add_int c b (codes "sourceReference") s.source_reference
      else b

  unfoldable pub source_from : Json Double → Source
  source_from j = record {
    name = read_string c j (codes "name");
    path = read_string c j (codes "path");
    source_reference = read_number c j (codes "sourceReference") (pos 0);
  }

  unfoldable pub breakpoint_to : Breakpoint → Json Double
  breakpoint_to b =
      let j1 = add_int c (create_object c) (codes "id") b.id in
      let j2 = add_bool c j1 (codes "verified") b.verified in
      let j3 = add_string c j2 (codes "message") b.message in
      let j4 = add_int c j3 (codes "line") b.line in
      let j5 = add_int c j4 (codes "column") b.column in
      let j6 = add_int c j5 (codes "endLine") b.end_line in
      let j7 = add_int c j6 (codes "endColumn") b.end_column in
      add_object c j7 (codes "source") (source_to b.source)

  unfoldable pub breakpoint_from : Json Double → Breakpoint
  breakpoint_from j = record {
    id = read_int c j (codes "id");
    verified = read_bool c j (codes "verified");
    message = read_string c j (codes "message");
    line = read_int c j (codes "line");
    column = read_int c j (codes "column");
    end_line = read_int c j (codes "endLine");
    end_column = read_int c j (codes "endColumn");
    source = source_from (at_name j (codes "source"));
  }
