-- ===== src/Rpc/Stuck.antt =====
-- Messages that `DoProcessBuffer` cannot take: what becomes of those behind them.
use wxdap.Base.{
  ℕ, zero, suc, ◌≡◌, refl, sym, ap, ◌∙◌, ◌⊎◌, inl, inr, Option, none, some, [], ◌∷◌, ◌++◌, Bytes,
  append-nil, All, List, append_assoc,
}
use wxdap.Decimal.{ℤ, pos, negsuc, atol}
use wxdap.Rpc.{
  JsonRpc, lookup, take_message, do_process_buffer, end_of_headers, feed, on_data_read,
  process_buffer, process_loop,
}
use wxdap.Rpc.Headers.{IsHeader}
use wxdap.Rpc.Stream.{process_none}
use wxdap.Rpc.Message.{Message, section, content_length, buffered, IsMessage, text}
use wxdap.Rpc.Messages.{with_length, without_length, do_process_buffer-text}

abbrev pub NotPositive : ℤ → Type 0
NotPositive (pos zero) = Unit
NotPositive (pos (suc n)) = ⊥
NotPositive (negsuc n) = Unit

-- Well-formed headers with no Content-Length, or with one that is not positive.
abbrev pub IsUnusable : Message → Type 0
IsUnusable m =
    All IsHeader (m.header ∷ m.headers)
    × ((lookup content_length (m.header ∷ m.headers) ≡ none)
        ⊎ ((v : Bytes) × (lookup content_length (m.header ∷ m.headers) ≡ some v)
            × NotPositive (atol v)))

module _ {ℓ} {J : Type ℓ} (parse : Bytes → Option J) where
  take-NotPositive :
      (r : JsonRpc) (k : ℕ) (z : ℤ) → NotPositive z → take_message parse r k z ≡ (none, r)
  unfolding take_message
  take-NotPositive r k (pos zero) h = refl
  take-NotPositive r k (pos (suc n)) h = absurd h
  take-NotPositive r k (negsuc n) h = refl

  -- The section is still in front of the buffer, and nothing was taken.
  abbrev Stays : Message → Option J × JsonRpc → Type ℓ
  Stays m out =
      (out.0 ≡ none) × ((rest : Bytes) × (out.1.buffer ≡ section m ++ (end_of_headers ++ rest)))

  do_process_buffer-Stays :
      (m : Message) (rest : Bytes)
      → IsUnusable m
      → Stays m (do_process_buffer parse (buffered (section m ++ (end_of_headers ++ rest))))
  do_process_buffer-Stays m rest (formed, inl e) =
      rw (without_length parse m rest formed e)
        (refl, ([], ap (λ s. section m ++ s) (sym (append-nil end_of_headers))))
  do_process_buffer-Stays m rest (formed, inr (v, e, z)) =
      rw (with_length parse m rest v formed e ∙ take-NotPositive _ _ (atol v) z)
        (refl, (rest, refl))

  -- The same of a call of `OnDataRead`, which calls back with nothing.
  abbrev Silent : Message → List J × JsonRpc → Type ℓ
  Silent m out =
      (out.0 ≡ []) × ((rest : Bytes) × (out.1.buffer ≡ section m ++ (end_of_headers ++ rest)))

  loop-Silent :
      (m : Message) (fuel : ℕ) (r : JsonRpc)
      → Stays m (do_process_buffer parse r)
      → Silent m (process_loop parse (suc fuel) r)
  loop-Silent m fuel r (nothing, (rest, e)) =
      let out = do_process_buffer parse r in
      rw (process_none parse fuel r out.1 (ap (λ o. (o, out.1)) nothing)) (refl, (rest, e))

  on_data_read-Silent :
      (m : Message) (rest chunk : Bytes)
      → IsUnusable m
      → Silent m (on_data_read parse (buffered (section m ++ (end_of_headers ++ rest))) chunk)
  unfolding on_data_read
  on_data_read-Silent m rest [] h = (refl, (rest, refl))
  on_data_read-Silent m rest (c ∷ chunk) h =
      rw (append_assoc (section m) (end_of_headers ++ rest) (c ∷ chunk))
        (loop-Silent m _ _ (do_process_buffer-Stays m (rest ++ c ∷ chunk) h))

  -- Behind a section of well-formed headers with no Content-Length, or with one that is not
  -- positive, nothing is ever delivered again, whatever comes: the section stays in front of the
  -- buffer.
  pub feed_unusable :
      (m : Message) (rest : Bytes) (chunks : List Bytes)
      → IsUnusable m
      → Silent m (feed parse (buffered (section m ++ (end_of_headers ++ rest))) chunks)
  unfolding feed
  feed_unusable m rest [] h = (refl, (rest, refl))
  feed_unusable m rest (chunk ∷ chunks) h =
      let (nothing, (rest', e)) = on_data_read-Silent m rest chunk h in
      let later = feed_unusable m rest' chunks h in rw (nothing, ap buffered e) later

  -- A whole message whose payload does not parse is taken out of the buffer, and the loop stops
  -- there: what follows it waits for the next call, also if it is a whole message.
  pub process_buffer_unparsed :
      (m : Message) (rest : Bytes)
      → IsMessage m
      → parse m.payload ≡ none
      → process_buffer parse (buffered (text m ++ rest)) ≡ ([], buffered rest)
  unfolding process_buffer
  process_buffer_unparsed m rest v p =
      process_none parse _ _ (buffered rest)
        (do_process_buffer-text parse m rest v ∙ ap (λ o. (o, buffered rest)) p)
