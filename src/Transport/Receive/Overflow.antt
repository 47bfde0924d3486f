-- ===== src/Transport/Receive/Overflow.antt =====
-- A packet whose body is shorter than the receive buffer but does not fit behind its header.
use hornbill_examples.Common.{
  ℕ, ◌^◌, ◌≤◌, ◌<◌, ◌≡◌, refl, arith, List, [], ◌∷◌, ◌++◌, length, length-append, length-drop, take,
  take-append, ltb, true, if◌then◌else◌, ap, ◌∙◌,
}
use hornbill_examples.Errors.{ok, fault}
use hornbill_examples.Timer.{Timer}
use hornbill_examples.Wire.{Cursor, start, write_char, memcpy}
use hornbill_examples.Wire.Header.{header_bits}
use hornbill_examples.Wire.Length.Encode.{len_bytes}
use hornbill_examples.Wire.Writing.{advance}
use hornbill_examples.Packet.Frame.{frame}
use hornbill_examples.Client.{Client}
use hornbill_examples.Transport.{Network}
use hornbill_examples.Transport.Receive.{
  whole_buffer, stored_body, after_body, read_body, packet_timer, read_packet,
}
use hornbill_examples.Transport.Receive.Remaining.{Feeds}
use hornbill_examples.Transport.Receive.Frames.{body_reached}

-- A copy of more bytes than there is room for leaves the buffer.
memcpy-fault :
    (s done room : List ℕ)
    → length room < length s
    → memcpy s (length s) (record { done = done; room = room }) ≡ fault
unfolding memcpy write_char
memcpy-fault [] done room h = absurd (omega arith)
memcpy-fault (b ∷ s) done [] h = refl
memcpy-fault (b ∷ s) done (x ∷ room) h = memcpy-fault s (done ++ (b ∷ [])) room (omega arith)

module _ {ℓ} {W : Type ℓ} (net : Network W) (source : W → List ℕ) (feeds : Feeds net source) where
  body-fault :
      (timer : Timer) (byte : ℕ) (body rest buf : List ℕ) (c : Cursor) (w : W)
      → length c.room < length body
      → source w ≡ body ++ rest
      → (read_body net timer byte (length body) buf (ok c) w).0 ≡ fault
  body-fault timer byte body rest buf c w h e =
      let n : ℕ = length body in
      let fed = feeds.reads n timer w (omega (arith, ap length e, length-append body rest)) in
      let got : take n (source w) ≡ body = ap (take n) e ∙ take-append body rest in
      let some_wanted : ltb 0 n ≡ true = ground arith in
      ap
        (λ t.
          (if t
            then after_body net byte n c (net.read n timer w)
            else (ok (header_bits byte).type, (whole_buffer net c, w))).0)
        some_wanted
      ∙ ap (λ r. (after_body net byte n c r).0) fed.result
      ∙ ap (λ bs. (after_body net byte n c (ok bs, fed.world)).0) got
      ∙ ap (λ r. (stored_body net byte n n c r fed.world).0) (memcpy-fault body c.done c.room h)

  -- Over a network that answers every read from a stream of bytes: a packet whose body is shorter
  -- than the receive buffer, so that the length check lets it pass, but which does not fit the buffer
  -- together with its header, is stored beyond the end of the buffer.
  pub read_packet-fault :
      (fuel : ℕ) (c : Client) (timer : Timer) (byte : ℕ) (body rest : List ℕ) (w : W)
      → 4 ≤ fuel
      → length body < 2 ^ 28
      → length body < c.read_buf_size
      → length (byte ∷ len_bytes (length body)) ≤ length c.read_buf
      → length c.read_buf < length (frame byte body)
      → source w ≡ frame byte body ++ rest
      → (read_packet net fuel c timer w).0 ≡ fault
  read_packet-fault fuel c timer byte body rest w hf hb hs header_fits over e =
      let lb : List ℕ = len_bytes (length body) in
      let s1 : Cursor = advance (start c.read_buf) (byte ∷ []) in
      let s2 : Cursor = advance s1 lb in
      let b = body_reached net source feeds fuel c timer byte body rest w hf hb hs header_fits e in
      let short : length s2.room < length body = omega (
        arith,
        over,
        length-append lb body,
        length-drop (length lb) s1.room,
        length-drop 1 c.read_buf,
      ) in
      ap (λ r. r.0) b.goes_on
      ∙ body-fault (packet_timer net c w) byte body rest (whole_buffer net s1) s2 b.world short
          b.left
