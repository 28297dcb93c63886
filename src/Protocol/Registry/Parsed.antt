-- ===== src/Protocol/Registry/Parsed.antt =====
-- `FromJSON` of a message that was printed and parsed.
use wxdap.Base.{
  ◌≡◌, refl, sym, ap, ◌∙◌, Option, false, none, some, [], Bytes, codes, bytes_eq, if◌then◌else◌,
}
use wxdap.Json.{CJson, Json, at_name, get_string, get_number, get_integer, get_bool}
use wxdap.Json.Parsed.{
  comparable_json, IsParsed, at_name-comparable, get_string-comparable, get_number-comparable,
  get_integer-comparable, get_bool-comparable,
}
use wxdap.Protocol.{
  message_from, request_from, response_from, event_from, not_found, read_string, read_int,
  read_bool,
}
use wxdap.Protocol.Registry.{
  Received, request, response, event, from_json, new_message, is_in, response_names, request_names,
  event_names,
}

module _ (c : CJson) where
  open c use {Double, of_int, to_int}

  string_same :
      (j : Json Double) (name : Bytes)
      → read_string c (comparable_json j) name ≡ read_string c j name
  string_same j name =
      ap (λ x. get_string x []) (at_name-comparable j name)
      ∙ get_string-comparable (at_name j name) []

  int_same :
      (j : Json Double) (name : Bytes) → read_int c (comparable_json j) name ≡ read_int c j name
  int_same j name =
      ap (λ x. get_integer x not_found) (at_name-comparable j name)
      ∙ get_integer-comparable (at_name j name) not_found

  bool_same :
      (j : Json Double) (name : Bytes) → read_bool c (comparable_json j) name ≡ read_bool c j name
  bool_same j name =
      ap (λ x. get_bool x false) (at_name-comparable j name)
      ∙ get_bool-comparable (at_name j name) false

  message_same : (j : Json Double) → message_from c (comparable_json j) ≡ message_from c j
  unfolding message_from
  message_same j = λ i. record {
    seq = to_int (
        (ap (λ x. get_number x (of_int not_found)) (at_name-comparable j (codes "seq"))
            ∙ get_number-comparable (at_name j (codes "seq")) (of_int not_found))
          i);
    type = string_same j (codes "type") i;
  }

  new_message_same :
      (type name : Bytes) (j : Json Double)
      → new_message c type name (comparable_json j) ≡ new_message c type name j
  unfolding new_message response_from request_from event_from
  new_message_same type name j = λ i.
      if bytes_eq type (codes "response")
      then if is_in name response_names
        then some (
            response (record {
              base = message_same j i;
              request_seq = int_same j (codes "request_seq") i;
              success = bool_same j (codes "success") i;
              message = string_same j (codes "message") i;
              command = string_same j (codes "command") i;
            }))
        else none
      else if bytes_eq type (codes "request")
      then if is_in name request_names
        then some (
            request
              (record { base = message_same j i; command = string_same j (codes "command") i }))
        else none
      else if bytes_eq type (codes "event")
      then if is_in name event_names
        then some
            (event (record { base = message_same j i; event = string_same j (codes "event") i }))
        else none
      else none

  from_json_same : (j : Json Double) → from_json c (comparable_json j) ≡ from_json c j
  unfolding from_json
  from_json_same none = refl
  from_json_same (some n) =
      let named : Bytes → Bytes → Bytes → Option Received = λ type event command.
        new_message c type (if bytes_eq type (codes "event") then event else command)
          (comparable_json (some n)) in
      (λ i.
        named (string_same (some n) (codes "type") i) (string_same (some n) (codes "event") i)
          (string_same (some n) (codes "command") i))
      ∙ new_message_same (read_string c (some n) (codes "type"))
          (if bytes_eq (read_string c (some n) (codes "type")) (codes "event")
            then read_string c (some n) (codes "event")
            else read_string c (some n) (codes "command"))
          (some n)

  -- A message that was printed and parsed is taken as the one that was printed.
  pub from_json-IsParsed : (j j' : Json Double) → IsParsed j j' → from_json c j' ≡ from_json c j
  from_json-IsParsed j j' h = sym (from_json_same j') ∙ ap (from_json c) h ∙ from_json_same j
