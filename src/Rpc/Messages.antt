-- ===== src/Rpc/Messages.antt =====
-- `DoProcessBuffer` on one message: whole, cut short, and without a Content-Length.
use wxdap.Base.{
  ℕ, zero, suc, ◌+◌, ◌≡◌, ◌≢◌, ◌≤◌, ◌<◌, refl, sym, ap, ap₂, ◌∙◌, Option, none, some, [], ◌∷◌, ◌++◌,
  append_assoc, arith, Bytes, length, take, drop, take-append, drop-append, length-append,
  length-ne-nil, append_split, All,
}
use wxdap.Decimal.{pos, atol}
use wxdap.Rpc.{
  JsonRpc, HeaderMap, lookup, read_headers, take_message, do_process_headers, do_process_found,
  do_process_buffer, find, end_of_headers,
}
use wxdap.Rpc.Search.{find_room, find-append}
use wxdap.Rpc.Headers.{IsHeader, insert_all, lookup-insert_all}
use wxdap.Rpc.Section.{read_headers-section, find-section}
use wxdap.Rpc.Message.{
  Message, IsMessage, section, text, content_length, buffered, section_end, take-section,
  drop-section, length-section, drop-drop,
}

no_end : (b : Bytes) → find end_of_headers b ≡ none → read_headers (buffered b) ≡ none
unfolding read_headers
no_end b f = rw (f, read_headers)

module _ {ℓ} {J : Type ℓ} (parse : Bytes → Option J) where
  pub do_process_found_lem :
      (b : Bytes)
      → do_process_buffer parse (buffered b)
        ≡ do_process_found parse (buffered b) (read_headers (buffered b))
  unfolding do_process_buffer
  do_process_found_lem [] = unfold read_headers in refl
  do_process_found_lem (c ∷ s) = refl

  do_process_section :
      (m : Message) (rest : Bytes)
      → All IsHeader (m.header ∷ m.headers)
      → do_process_buffer parse (buffered (section m ++ (end_of_headers ++ rest)))
        ≡ do_process_headers parse
            (buffered (section m ++ (end_of_headers ++ rest)))
            (insert_all (m.header ∷ m.headers) [])
            (length (section m) + 4)
  do_process_section m rest formed =
      do_process_found_lem _
      ∙ ap (do_process_found parse _) (read_headers-section m.header m.headers rest formed)
      ∙ (unfold do_process_found in refl)

  lookup_built :
      (hs : HeaderMap) → lookup content_length (insert_all hs []) ≡ lookup content_length hs
  lookup_built hs = lookup-insert_all content_length hs [] ∙ (unfold lookup in refl)

  headers_some :
      (r : JsonRpc) (hs : HeaderMap) (n : ℕ) (v : Bytes)
      → lookup content_length hs ≡ some v
      → do_process_headers parse r hs n ≡ take_message parse r n (atol v)
  unfolding do_process_headers
  headers_some r hs n v e = rw (e, do_process_headers)

  headers_none :
      (r : JsonRpc) (hs : HeaderMap) (n : ℕ)
      → lookup content_length hs ≡ none
      → do_process_headers parse r hs n ≡ (none, buffered (take n r.buffer))
  unfolding do_process_headers
  headers_none r hs n e = rw (e, do_process_headers)

  -- A section that has a Content-Length.
  pub with_length :
      (m : Message) (rest : Bytes) (v : Bytes)
      → All IsHeader (m.header ∷ m.headers)
      → lookup content_length (m.header ∷ m.headers) ≡ some v
      → do_process_buffer parse (buffered (section m ++ (end_of_headers ++ rest)))
        ≡ take_message parse
            (buffered (section m ++ (end_of_headers ++ rest)))
            (length (section m) + 4)
            (atol v)
  with_length m rest v formed e =
      do_process_section m rest formed
      ∙ headers_some _ _ _ v (lookup_built (m.header ∷ m.headers) ∙ e)

  -- Without a Content-Length the section stays in the buffer, and what follows it is thrown away.
  pub without_length :
      (m : Message) (rest : Bytes)
      → All IsHeader (m.header ∷ m.headers)
      → lookup content_length (m.header ∷ m.headers) ≡ none
      → do_process_buffer parse (buffered (section m ++ (end_of_headers ++ rest)))
        ≡ (none, buffered (section m ++ end_of_headers))
  without_length m rest formed e =
      do_process_section m rest formed
      ∙ headers_none _ _ _ (lookup_built (m.header ∷ m.headers) ∙ e)
      ∙ ap (λ b. (none, buffered b)) (take-section m rest)

  take_ok :
      (b : Bytes) (k n : ℕ)
      → k + suc n ≤ length b
      → take_message parse (buffered b) k (pos (suc n))
        ≡ (parse (take (suc n) (drop k b)), buffered (drop (k + suc n) b))
  unfolding take_message
  take_ok b k n h = ground arith

  take_no :
      (b : Bytes) (k n : ℕ)
      → length b < k + n
      → take_message parse (buffered b) k (pos n) ≡ (none, buffered b)
  unfolding take_message
  take_no b k zero h = refl
  take_no b k (suc n) h = ground arith

  take_whole :
      (m : Message) (p rest : Bytes)
      → p ≢ []
      → take_message parse
          (buffered (section m ++ (end_of_headers ++ (p ++ rest))))
          (length (section m) + 4)
          (pos (length p))
        ≡ (parse p, buffered rest)
  take_whole m [] rest n = absurd (n refl)
  take_whole m (c ∷ p) rest n =
      let k = length (section m) + 4 in
      let b = section m ++ (end_of_headers ++ (c ∷ p ++ rest)) in
      let dropped : drop k b ≡ c ∷ p ++ rest = drop-section m (c ∷ p ++ rest) in
      take_ok b k (length p)
        (omega (arith, length-section m (c ∷ p ++ rest), length-append {0} p rest))
      ∙ ap₂ (λ q r. (parse q, buffered r))
          (ap (take (length (c ∷ p))) dropped ∙ take-append (c ∷ p) rest)
          (drop-drop k (length (c ∷ p)) b
            ∙ ap (drop (length (c ∷ p))) dropped
            ∙ drop-append (c ∷ p) rest)

  -- A whole message, with well-formed headers and the length of its payload, which is not empty, is
  -- taken out of the buffer, whatever follows it, and its payload is parsed.
  pub do_process_buffer-text :
      (m : Message) (rest : Bytes)
      → IsMessage m
      → do_process_buffer parse (buffered (text m ++ rest)) ≡ (parse m.payload, buffered rest)
  do_process_buffer-text m rest v =
      ap (λ b. do_process_buffer parse (buffered b)) regroup
      ∙ with_length m (m.payload ++ rest) v.value v.formed v.present
      ∙ ap (take_message parse _ _) v.measured
      ∙ take_whole m m.payload rest v.filled
    where
      regroup : text m ++ rest ≡ section m ++ (end_of_headers ++ (m.payload ++ rest))
      regroup = append_assoc (section m) (end_of_headers ++ m.payload) rest

  -- A message, with well-formed headers and the length of its payload, of which only a part has
  -- come, is left in the buffer.
  pub do_process_buffer_prefix :
      (m : Message) (b rest : Bytes)
      → IsMessage m
      → b ++ rest ≡ text m
      → rest ≢ []
      → do_process_buffer parse (buffered b) ≡ (none, buffered b)
  do_process_buffer_prefix m b rest v e n = go (find end_of_headers b) refl
    where
      go :
          (o : Option ℕ)
          → find end_of_headers b ≡ o
          → do_process_buffer parse (buffered b) ≡ (none, buffered b)
      go none f =
          do_process_found_lem b
          ∙ ap (do_process_found parse (buffered b)) (no_end b f)
          ∙ (unfold do_process_found in refl)
      go (some at) f = cut_in_payload (
          append_split b rest (section m ++ end_of_headers) m.payload
            (e ∙ sym (append_assoc (section m) end_of_headers m.payload)) (reaches at f))
        where
          reaches :
              (k : ℕ)
              → find end_of_headers b ≡ some k
              → length (section m ++ end_of_headers) ≤ length b
          reaches k f' =
              let there : some k ≡ some (length (section m)) =
                sym (find-append end_of_headers b rest k f')
                ∙ ap (find end_of_headers) e
                ∙ find-section m.header m.headers m.payload v.formed in
              let same : k ≡ length (section m) = cc in
              omega (arith, same, section_end m, find_room end_of_headers b k f')

          cut_in_payload :
              ((p : Bytes) × (b ≡ (section m ++ end_of_headers) ++ p) × (p ++ rest ≡ m.payload))
              → do_process_buffer parse (buffered b) ≡ (none, buffered b)
          cut_in_payload (p, begins, ends) =
              let b' = section m ++ (end_of_headers ++ p) in
              let same : b ≡ b' = begins ∙ append_assoc (section m) end_of_headers p in
              let short : length b' < length (section m) + 4 + length m.payload = omega (
                arith,
                length-section m p,
                length-ne-nil rest n,
                ap length ends,
                length-append {0} p rest,
              ) in
              ap (λ c. do_process_buffer parse (buffered c)) same
              ∙ with_length m p v.value v.formed v.present
              ∙ ap (take_message parse _ _) v.measured
              ∙ take_no b' _ _ short
              ∙ ap (λ c. (none, buffered c)) (sym same)
