-- ===== src/Rpc.antt =====
-- dap/JsonRPC.cpp and dap/JsonRPC.hpp: the input buffer, the headers, the messages cut out of the
-- buffer, and what `Send` writes. `Json::Parse` is the parameter `parse` (`none` where the result
-- is not `IsOK()`), over any type of values.
pub mod Search
pub mod Headers
pub mod Section
pub mod Message
pub mod Messages
pub mod Stream
pub mod Sending
pub mod Stuck
pub mod Fuel
use wxdap.Base.{
  ℕ, zero, suc, ◌+◌, Bool, true, false, ◌&&◌, Option, none, some, List, [], ◌∷◌, ◌++◌, Bytes, codes,
  ltb, ◌==◌, if◌then◌else◌, bytes_eq, length, take, drop,
}
use wxdap.Text.{trim, before_first, after_first, split}
use wxdap.Decimal.{ℤ, pos, negsuc, to_string, atol}

-- `std::string::find` of a string.
unfoldable pub starts : Bytes → Bytes → Bool
starts [] s = true
starts (p ∷ pat) [] = false
starts (p ∷ pat) (c ∷ s) = (p == c) && starts pat s

unfoldable pub find : Bytes → Bytes → Option ℕ
unfolding starts
find pat [] = if starts pat [] then some 0 else none
find pat (c ∷ s) =
    if starts pat (c ∷ s) then some 0 else elim (find pat s) [ none ↦ none | some n ↦ some (suc n) ]

abbrev pub end_of_headers : Bytes
end_of_headers = codes "\r\n\r\n"

-- The `unordered_map` of the headers.
abbrev pub HeaderMap : Type 0
HeaderMap = List (Bytes × Bytes)

unfoldable pub lookup : Bytes → HeaderMap → Option Bytes
lookup k [] = none
lookup k ((j, v) ∷ m) = if bytes_eq j k then some v else lookup k m

-- `insert` leaves a key that is there as it is.
unfoldable pub insert : Bytes → Bytes → HeaderMap → HeaderMap
unfolding lookup
insert k v m = elim (lookup k m) [ none ↦ m ++ (k, v) ∷ [] | some _ ↦ m ]

-- The loop of `ReadHeaders` over the lines.
unfoldable pub read_lines : List Bytes → HeaderMap → HeaderMap
unfolding insert
read_lines [] m = m
read_lines (line ∷ lines) m =
    let header = trim line in
    let name = before_first header b':' in
    let value = after_first header b':' in read_lines lines (insert (trim name) (trim value) m)

pub record JsonRpc : Type 0 where
  pub buffer : Bytes

-- `none` is the result -1.
unfoldable pub read_headers : JsonRpc → Option (HeaderMap × ℕ)
unfolding find read_lines
read_headers r = elim (find end_of_headers r.buffer) [
  | none ↦ none
  | some at ↦
      let header_section = take at r.buffer in
      some (read_lines (split header_section (codes "\n")) [], at + 4)
]

unfoldable pub set_buffer : JsonRpc → Bytes → JsonRpc
set_buffer r buffer = record r { buffer = buffer }

unfoldable pub append_buffer : JsonRpc → Bytes → JsonRpc
append_buffer r buffer = record r { buffer = r.buffer ++ buffer }

module _ {ℓ} {J : Type ℓ} (parse : Bytes → Option J) where
  -- With the header's length and the value of Content-Length.
  unfoldable pub take_message : JsonRpc → ℕ → ℤ → Option J × JsonRpc
  take_message r header_size (negsuc n) = (none, r)
  take_message r header_size (pos zero) = (none, r)
  take_message r header_size (pos (suc n)) =
      let msglen = suc n in
      if ltb (length r.buffer) (header_size + msglen) then (none, r) else (
        parse (take msglen (drop header_size r.buffer)),
        record { buffer = drop (header_size + msglen) r.buffer },
      )

  unfoldable pub do_process_headers : JsonRpc → HeaderMap → ℕ → Option J × JsonRpc
  unfolding take_message
  do_process_headers r headers header_size = elim (lookup (codes "Content-Length") headers) [
    | none ↦ (none, record { buffer = take header_size r.buffer })
    | some content_length ↦ take_message r header_size (atol content_length)
  ]

  unfoldable pub do_process_found : JsonRpc → Option (HeaderMap × ℕ) → Option J × JsonRpc
  unfolding do_process_headers
  do_process_found r none = (none, r)
  do_process_found r (some (headers, header_size)) = do_process_headers r headers header_size

  unfoldable pub do_process_buffer : JsonRpc → Option J × JsonRpc
  unfolding do_process_found
  do_process_buffer r = elim r.buffer [
    | [] ↦ (none, r)
    | c ∷ s ↦ do_process_found r (read_headers r)
  ]

  -- The loop of `ProcessBuffer`, on fuel: the values that the callback is given, in order.
  unfoldable pub process_loop : ℕ → JsonRpc → List J × JsonRpc
  process_loop zero r = ([], r)
  process_loop (suc fuel) r =
      let (m, r') = do_process_buffer r in
      elim m [ none ↦ ([], r') | some j ↦ let (js, r'') = process_loop fuel r' in (j ∷ js, r'') ]

  -- A message takes at least one byte out of the buffer, so this fuel is enough.
  unfoldable pub process_buffer : JsonRpc → List J × JsonRpc
  unfolding process_loop
  process_buffer r = process_loop (suc (length r.buffer)) r

-- `Client::OnDataRead` and a row of such calls: what the callback is given, in order.
module _ {ℓ} {J : Type ℓ} (parse : Bytes → Option J) where
  unfoldable pub on_data_read : JsonRpc → Bytes → List J × JsonRpc
  unfolding append_buffer process_buffer
  on_data_read r [] = ([], r)
  on_data_read r (c ∷ s) = process_buffer parse (append_buffer r (c ∷ s))

  unfoldable pub feed : JsonRpc → List Bytes → List J × JsonRpc
  unfolding on_data_read
  feed r [] = ([], r)
  feed r (chunk ∷ chunks) =
      let (js, r') = on_data_read r chunk in let (js', r'') = feed r' chunks in (js ++ js', r'')

-- What `Send` gives the connection for a payload.
unfoldable pub network_buffer : Bytes → Bytes
network_buffer payload =
    codes "Content-Length: " ++ (to_string (length payload) ++ (end_of_headers ++ payload))

-- `Send`: `none` is the exception that it throws where there is no connection.
unfoldable pub send : Bytes → Bool → Option Bytes
unfolding network_buffer
send payload true = some (network_buffer payload)
send payload false = none
