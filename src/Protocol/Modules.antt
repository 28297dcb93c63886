-- ===== src/Protocol/Modules.antt =====
-- dap/dap.hpp and dap/dap.cpp: `Module` and `ModuleEvent`.
use wxdap.Base.{suc, ◌≡◌, refl, ap, ◌∙◌, Bool, some, [], ◌∷◌, Bytes, codes, if◌then◌else◌}
use wxdap.Decimal.{ℤ, pos, negsuc, to_string}
use wxdap.Json.{CJson, Json, Nodes, cons, nil, at_name, get_string, get_number}
use wxdap.Json.Build.{create_object, add_string, add_bool, add_item, add_object}
use wxdap.Json.Building.{object, object_node, string_node, bool_node, building, IsKept}
use wxdap.Protocol.{Event, event_to, event_from, read_string, read_bool, not_found}
use wxdap.Protocol.Structs.{int_eq}
use wxdap.Protocol.Structs.RoundTrip.{read_bool-bool_node}
use wxdap.Protocol.Events.RoundTrip.{event_to-object, event_from-object, IsEvent}

pub record Module : Type 0 where
  pub id : Bytes
  pub name : Bytes
  pub path : Bytes
  pub is_optimized : Bool
  pub is_user_code : Bool
  pub version : Bytes
  pub symbol_status : Bytes
  pub symbol_file_path : Bytes
  pub date_time_stamp : Bytes
  pub address_range : Bytes

pub record ModuleEvent : Type 0 where
  pub base : Event
  pub reason : Bytes
  pub module_of : Module

-- `id << nId` of an empty `id`.
abbrev pub int_text : ℤ → Bytes
int_text (pos n) = to_string n
int_text (negsuc n) = b'-' ∷ to_string (suc n)

module _ (c : CJson) where
  open c use {Double, of_int, to_int, to_int-of_int}

  -- The identifier can be a number or a string.
  unfoldable pub module_id : Json Double → Bytes
  module_id j =
      let n = to_int (get_number j (of_int not_found)) in
      if int_eq n not_found then get_string j [] else int_text n

  unfoldable pub module_from : Json Double → Module
  unfolding module_id
  module_from j = record {
    id = module_id (at_name j (codes "id"));
    name = read_string c j (codes "name");
    path = read_string c j (codes "path");
    is_optimized = read_bool c j (codes "isOptimized");
    is_user_code = read_bool c j (codes "isUserCode");
    version = read_string c j (codes "version");
    symbol_status = read_string c j (codes "symbolStatus");
    symbol_file_path = read_string c j (codes "symbolFilePath");
    date_time_stamp = read_string c j (codes "dateTimeStamp");
    address_range = read_string c j (codes "addressRange");
  }

  unfoldable pub module_to : Module → Json Double
  module_to m =
      let j1 = add_string c (create_object c) (codes "id") m.id in
      let j2 = add_string c j1 (codes "name") m.name in
      let j3 = add_string c j2 (codes "path") m.path in
      let j4 = add_string c j3 (codes "version") m.version in
      let j5 = add_string c j4 (codes "symbolStatus") m.symbol_status in
      let j6 = add_string c j5 (codes "symbolFilePath") m.symbol_file_path in
      let j7 = add_string c j6 (codes "dateTimeStamp") m.date_time_stamp in
      let j8 = add_string c j7 (codes "addressRange") m.address_range in
      let j9 = add_bool c j8 (codes "isOptimized") m.is_optimized in
      add_bool c j9 (codes "isUserCode") m.is_user_code

  unfoldable pub module_event_to : ModuleEvent → Json Double
  unfolding module_to
  module_event_to e =
      let body = add_string c (create_object c) (codes "reason") e.reason in
      add_item c (event_to c e.base) (codes "body")
        (add_object c body (codes "module") (module_to e.module_of))

  unfoldable pub module_event_from : Json Double → ModuleEvent
  unfolding module_from
  module_event_from j = record {
    base = event_from c j;
    reason = read_string c (at_name j (codes "body")) (codes "reason");
    module_of = module_from (at_name (at_name j (codes "body")) (codes "module"));
  }

  abbrev module_nodes : Module → Nodes Double
  module_nodes m = cons (string_node c (codes "id") m.id) (
      cons (string_node c (codes "name") m.name) (
        cons (string_node c (codes "path") m.path) (
          cons (string_node c (codes "version") m.version) (
            cons (string_node c (codes "symbolStatus") m.symbol_status) (
              cons (string_node c (codes "symbolFilePath") m.symbol_file_path) (
                cons (string_node c (codes "dateTimeStamp") m.date_time_stamp) (
                  cons (string_node c (codes "addressRange") m.address_range) (
                    cons (bool_node c (codes "isOptimized") m.is_optimized)
                      (cons (bool_node c (codes "isUserCode") m.is_user_code) nil)))))))))

  module_to-object : (m : Module) → module_to m ≡ object c (module_nodes m)
  unfolding module_to
  module_to-object m = simp building

  module_id-string : (name s : Bytes) → IsKept c s → module_id (some (string_node c name s)) ≡ s
  unfolding module_id get_number get_string
  module_id-string name s h =
      ap (λ n. if int_eq n not_found then c.through s else int_text n)
        (to_int-of_int not_found refl)
      ∙ h

  abbrev pub IsModule : Module → Type 0
  IsModule m =
      IsKept c m.id
      × IsKept c m.name
      × IsKept c m.path
      × IsKept c m.version
      × IsKept c m.symbol_status
      × IsKept c m.symbol_file_path
      × IsKept c m.date_time_stamp
      × IsKept c m.address_range

  module_from-object :
      (key : Bytes) (m : Module)
      → IsModule m
      → module_from (some (object_node c key (module_nodes m))) ≡ m
  unfolding module_from at_name get_string
  module_from-object key m (id, name, path, version, status, file, stamp, range) = λ i. record {
    id = module_id-string (codes "id") m.id id i;
    name = name i;
    path = path i;
    is_optimized = read_bool-bool_node c (codes "isOptimized") m.is_optimized i;
    is_user_code = read_bool-bool_node c (codes "isUserCode") m.is_user_code i;
    version = version i;
    symbol_status = status i;
    symbol_file_path = file i;
    date_time_stamp = stamp i;
    address_range = range i;
  }

  abbrev body_of : ModuleEvent → Nodes Double
  body_of e =
      cons
        (object_node c (codes "body") (
          cons (string_node c (codes "reason") e.reason)
            (cons (object_node c (codes "module") (module_nodes e.module_of)) nil)))
        nil

  -- A module event is read back by `From` as `To` wrote it, its module with every field; provided that
  -- its number is of 32 bits and that each of its texts is read as it was stored, as ASCII without a NUL
  -- is.
  pub module_event_from-to :
      (e : ModuleEvent)
      → IsEvent c e.base
      → IsKept c e.reason
      → IsModule e.module_of
      → module_event_from (module_event_to e) ≡ e
  unfolding module_event_from module_event_to at_name get_string
  module_event_from-to e h reason fields =
      rw (event_to-object c e.base, module_to-object e.module_of)
        (simp building (λ i. record {
          base = event_from-object c e.base (body_of e) h i;
          reason = reason i;
          module_of = module_from-object (codes "module") e.module_of fields i;
        }))
