-- ===== src/Rpc/Fuel.antt =====
-- The loop of `ProcessBuffer` ends: each message that it takes makes the buffer shorter.
use wxdap.Base.{
  ℕ, zero, suc, ◌+◌, ◌≡◌, ◌≤◌, ◌<◌, sym, ap, ◌∙◌, Option, none, some, List, [], ◌∷◌, arith, Bytes,
  length, drop, Option-cases, inl, inr, codes,
}
use wxdap.Decimal.{ℤ, pos, negsuc, atol}
use wxdap.Rpc.{
  JsonRpc, HeaderMap, take_message, do_process_headers, do_process_found, do_process_buffer,
  process_loop, lookup,
}
use wxdap.Rpc.Stream.{process_none, process_some}

length-drop_le {ℓ} : {A : Type ℓ} (n : ℕ) (xs : List A) → length (drop n xs) ≤ length xs
length-drop_le zero xs = omega arith
length-drop_le (suc n) [] = omega arith
length-drop_le (suc n) (x ∷ xs) = omega (arith, length-drop_le n xs)

length-drop_lt {ℓ} :
    {A : Type ℓ} (n : ℕ) (xs : List A) → 0 < n → n ≤ length xs → length (drop n xs) < length xs
length-drop_lt zero xs p h = absurd (omega arith)
length-drop_lt (suc n) [] p h = absurd (omega arith)
length-drop_lt (suc n) (x ∷ xs) p h = omega (arith, length-drop_le n xs)

module _ {ℓ} {J : Type ℓ} (parse : Bytes → Option J) where
  -- A step that takes a message.
  abbrev Shrinks : JsonRpc → Option J × JsonRpc → Type ℓ
  Shrinks r out = (j : J) → out.0 ≡ some j → length out.1.buffer < length r.buffer

  take_message-Shrinks : (r : JsonRpc) (k : ℕ) (z : ℤ) → Shrinks r (take_message parse r k z)
  unfolding take_message
  take_message-Shrinks r k (negsuc n) j e = cc
  take_message-Shrinks r k (pos zero) j e = cc
  take_message-Shrinks r k (pos (suc n)) j e = ground (arith, length-drop_lt (k + suc n) r.buffer)

  do_process_headers-Shrinks :
      (r : JsonRpc) (hs : HeaderMap) (k : ℕ) → Shrinks r (do_process_headers parse r hs k)
  unfolding do_process_headers
  do_process_headers-Shrinks r hs k j e = elim (Option-cases (lookup (codes "Content-Length") hs)) [
    | inl n ↦ ground arith
    | inr (v, n) ↦ ground (arith, take_message-Shrinks r k (atol v) j)
  ]

  do_process_found-Shrinks :
      (r : JsonRpc) (found : Option (HeaderMap × ℕ)) → Shrinks r (do_process_found parse r found)
  unfolding do_process_found
  do_process_found-Shrinks r none j e = cc
  do_process_found-Shrinks r (some (hs, k)) j e = do_process_headers-Shrinks r hs k j e

  -- A message that is taken makes the buffer shorter.
  pub do_process_buffer_shrinks :
      (r : JsonRpc) (j : J)
      → (do_process_buffer parse r).0 ≡ some j
      → length (do_process_buffer parse r).1.buffer < length r.buffer
  unfolding do_process_buffer
  do_process_buffer_shrinks r = shrinks r.buffer
    where
      shrinks :
          (b : Bytes)
          → Shrinks (record { buffer = b }) (do_process_buffer parse (record { buffer = b }))
      shrinks [] j e = cc
      shrinks (c ∷ s) j e = do_process_found-Shrinks (record { buffer = c ∷ s }) _ j e

  -- The loop gives the same for any two amounts of fuel greater than the number of bytes in the
  -- buffer.
  pub process_loop_enough :
      (fuel more : ℕ) (r : JsonRpc)
      → length r.buffer < fuel
      → length r.buffer < more
      → process_loop parse fuel r ≡ process_loop parse more r
  process_loop_enough zero more r h h' = elim h [ ]
  process_loop_enough (suc fuel) zero r h h' = elim h' [ ]
  process_loop_enough (suc fuel) (suc more) r h h' =
      let r' = (do_process_buffer parse r).1 in
      elim (Option-cases (do_process_buffer parse r).0) [
        | inl e ↦
            let stop : do_process_buffer parse r ≡ (none, r') = ap (λ (o : Option J). (o, r')) e in
            process_none parse fuel r r' stop ∙ sym (process_none parse more r r' stop)
        | inr (j, e) ↦
            let step : do_process_buffer parse r ≡ (some j, r') =
              ap (λ (o : Option J). (o, r')) e in
            let less = do_process_buffer_shrinks r j e in
            process_some parse fuel r r' j step
            ∙ ap (λ (o : List J × JsonRpc). (j ∷ o.0, o.1))
                (process_loop_enough fuel more r' (omega arith) (omega arith))
            ∙ sym (process_some parse more r r' j step)
      ]
