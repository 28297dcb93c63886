-- ===== src/Examples/Server.antt =====
-- A request to initialize on its way to a server.
use wxdap.Base.{
  ◌≢◌, refl, ap, ◌∙◌, true, false, List, [], ◌∷◌, ◌++◌, Bytes, codes, arith, take, drop,
  append-take-drop, append-nil, sym,
}
use wxdap.Decimal.{ℤ, pos}
use wxdap.Examples.Values.{integer_json, as_parsed, as_parsed-IsParsed}
use wxdap.Json.{Json}
use wxdap.Protocol.Requests.{InitializeArguments}
use wxdap.Protocol.Sent.{client_request_to}
use wxdap.Rpc.{network_buffer}
use wxdap.Rpc.Message.{buffered}
use wxdap.Server.{NetRound, quiet, arrived, server_initialize}
use wxdap.Server.Handshake.{server_initialize_lem, initialize_request, IsHandshake}

abbrev pub arguments : InitializeArguments
arguments = record {
  client_id = codes "wxdap";
  client_name = codes "wxdap";
  adapter_id = codes "gdb";
  locale = codes "en-US";
  lines_start_at1 = true;
  columns_start_at1 = true;
  supports_invalidated_event = false;
  path_format = codes "path";
}

abbrev print_one : Json ℤ → Bytes
print_one j = 1 ∷ []

abbrev parse_one : Bytes → Json ℤ
parse_one s = as_parsed (client_request_to integer_json (initialize_request (pos 1) arguments))

abbrev sent_bytes : Bytes
sent_bytes = network_buffer (1 ∷ [])

abbrev rounds : List NetRound
rounds = quiet ∷ arrived (take 9 sent_bytes) ∷ quiet ∷ arrived (drop 9 sent_bytes) ∷ []

front_filled : take 9 sent_bytes ≢ []
unfolding network_buffer
front_filled e = cc

back_filled : drop 9 sent_bytes ≢ []
unfolding network_buffer
back_filled e = cc

server_initialize_lem_example :
    IsHandshake (server_initialize integer_json parse_one rounds (buffered []))
server_initialize_lem_example =
    server_initialize_lem integer_json print_one parse_one (pos 1) arguments rounds
      (
        ground arith,
        omega arith,
        as_parsed-IsParsed (client_request_to integer_json (initialize_request (pos 1) arguments)),
        refl,
      )
      (tt, (front_filled, (tt, (back_filled, tt))))
      (ap (λ s. take 9 sent_bytes ++ s) (append-nil (drop 9 sent_bytes))
        ∙ append-take-drop 9 sent_bytes
        ∙ sym (append-nil sent_bytes))
