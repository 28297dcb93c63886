-- ===== src/Examples/Stream.antt =====
-- Messages on a stream of bytes, cut into chunks.
use wxdap.Base.{
  ◌≡◌, refl, none, List, [], ◌∷◌, ◌++◌, Bytes, codes, All, concat, arith, inl, take, drop, Option,
}
use wxdap.Text.{contains}
use wxdap.Decimal.{to_string, atol}
use wxdap.Examples.Values.{payload_itself}
use wxdap.Rpc.{JsonRpc, feed, process_buffer, process_loop, network_buffer, end_of_headers, lookup}
use wxdap.Rpc.Fuel.{process_loop_enough}
use wxdap.Rpc.Message.{Message, IsMessage, buffered, text, section}
use wxdap.Rpc.Sending.{feed-sent, sent, sent_values, IsSendable}
use wxdap.Rpc.Stream.{feed-texts, texts, values}
use wxdap.Rpc.Stuck.{feed_unusable, process_buffer_unparsed, IsUnusable}

-- Two payloads, and their bytes cut into three pieces, one of them in the middle of a header.
abbrev items : List (Bytes × Bytes)
items = (codes "{}", codes "{}") ∷ (codes "[1]", codes "[1]") ∷ []

abbrev chunks : List Bytes
chunks = codes "Content-Len" ∷ codes "gth: 2\r\n\r\n{}Content-Length: 3\r\n\r\n[1" ∷ codes "]" ∷ []

items-IsSendable : All (IsSendable payload_itself) items
items-IsSendable = ((ground arith, omega arith, refl), ((ground arith, omega arith, refl), tt))

chunks_lem : concat chunks ≡ sent items
unfolding network_buffer to_string
chunks_lem = refl

feed-sent_example : feed payload_itself (buffered []) chunks ≡ (sent_values items, buffered [])
feed-sent_example = feed-sent payload_itself items chunks items-IsSendable chunks_lem

-- A message with two headers.
abbrev hello : Message
hello = record {
  header = (codes "Content-Type", codes "json");
  headers = (codes "Content-Length", codes "2") ∷ [];
  payload = codes "hi";
}

hello-IsMessage : IsMessage hello
unfolding lookup atol contains
hello-IsMessage = record {
  formed = ground arith;
  value = codes "2";
  present = refl;
  measured = refl;
  filled = ground arith;
}

abbrev messages : List (Message × Bytes)
messages = (hello, codes "hi") ∷ (hello, codes "hi") ∷ []

abbrev pieces : List Bytes
pieces = take 7 (texts messages) ∷ drop 7 (texts messages) ∷ []

feed-texts_example : feed payload_itself (buffered []) pieces ≡ (values messages, buffered [])
feed-texts_example =
    feed-texts payload_itself messages pieces
      ((hello-IsMessage, refl), ((hello-IsMessage, refl), tt)) refl

process_loop_enough_example :
    process_loop payload_itself 60 (buffered (text hello))
    ≡ process_loop payload_itself 99 (buffered (text hello))
process_loop_enough_example =
    process_loop_enough payload_itself 60 99 (buffered (text hello)) (omega arith) (omega arith)

-- A section with no length.
abbrev unusable : Message
unusable = record { header = (codes "Content-Type", codes "json"); headers = []; payload = [] }

unusable-IsUnusable : IsUnusable unusable
unfolding lookup contains
unusable-IsUnusable = (ground arith, inl refl)

abbrev after_unusable : List Bytes × JsonRpc
after_unusable =
    feed payload_itself (buffered (section unusable ++ (end_of_headers ++ []))) (text hello ∷ [])

feed_unusable_example :
    (after_unusable.0 ≡ [])
    × ((rest : Bytes) × (after_unusable.1.buffer ≡ section unusable ++ (end_of_headers ++ rest)))
feed_unusable_example =
    feed_unusable payload_itself unusable [] (text hello ∷ []) unusable-IsUnusable

abbrev nothing_parses : Bytes → Option Bytes
nothing_parses p = none

process_buffer_unparsed_example :
    process_buffer nothing_parses (buffered (text hello ++ text hello))
    ≡ ([], buffered (text hello))
process_buffer_unparsed_example =
    process_buffer_unparsed nothing_parses hello (text hello) hello-IsMessage refl
