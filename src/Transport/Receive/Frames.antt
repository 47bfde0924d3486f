-- ===== src/Transport/Receive/Frames.antt =====
-- A whole packet over a network that feeds the bytes of a stream.
use hornbill_examples.Common.{
  ℕ, suc, ◌^◌, ◌≤◌, ◌<◌, ◌≡◌, sym, arith, List, [], ◌∷◌, ◌++◌, append_assoc, append-nil, length,
  length-append, take, drop, take-append, drop-append, ltb, leb, leb-false, ==_refl, true, false,
  if◌then◌else◌, ap, ◌∙◌,
}
use hornbill_examples.Errors.{Result, ok, err, failure}
use hornbill_examples.Timer.{Timer}
use hornbill_examples.Wire.{Cursor, start}
use hornbill_examples.Wire.Header.{header_bits}
use hornbill_examples.Wire.Length.{write_len_to_buffer}
use hornbill_examples.Wire.Length.Encode.{len_bytes, write_len_to_buffer-Writes}
use hornbill_examples.Wire.Writing.{
  Writes, advance, advance-advance, length-drop_le, write_char-Writes, memcpy_whole-Writes,
}
use hornbill_examples.Packet.Frame.{frame}
use hornbill_examples.Client.{Client}
use hornbill_examples.Transport.{Network}
use hornbill_examples.Transport.Receive.{
  after_drop, drop_loop, after_len, after_header, after_header_byte, whole_buffer, stored_body,
  after_body, read_body, packet_timer, read_packet,
}
use hornbill_examples.Transport.Receive.Remaining.{Feeds, decode_packet_remaining_len-len_bytes}

module _ {ℓ} {W : Type ℓ} (net : Network W) (source : W → List ℕ) (feeds : Feeds net source) where
  -- What reading a packet comes to: the type and the buffer, and a stream behind the packet.
  pub record PacketRead (result : Result ℕ × (List ℕ × W)) (type : ℕ) (buf rest : List ℕ)
      : Type ℓ where
    pub world : W
    pub succeeds : result ≡ (ok type, (buf, world))
    pub left : source world ≡ rest

  -- The body, from behind the length on.
  body_read :
      (timer : Timer) (byte : ℕ) (body rest buf : List ℕ) (c : Cursor) (w : W)
      → length body ≤ length c.room
      → source w ≡ body ++ rest
      → PacketRead
          (read_body net timer byte (length body) buf (ok c) w)
          (header_bits byte).type
          (whole_buffer net (advance c body))
          rest
  body_read timer byte [] rest buf c w fits e = record {
    world = w;
    succeeds = ap (λ d. (ok (header_bits byte).type, (d ++ c.room, w))) (sym (append-nil c.done));
    left = e;
  }
  body_read timer byte (b ∷ body) rest buf c w fits e =
      let n : ℕ = length (b ∷ body) in
      let fed = feeds.reads n timer w (omega (arith, ap length e, length-append (b ∷ body) rest)) in
      let got : take n (source w) ≡ b ∷ body = ap (take n) e ∙ take-append (b ∷ body) rest in
      let some_wanted : ltb 0 n ≡ true = ground arith in
      let c' : Cursor = advance c (b ∷ body) in
      record {
        world = fed.world;
        succeeds =
            ap
              (λ t.
                if t
                then after_body net byte n c (net.read n timer w)
                else (ok (header_bits byte).type, (whole_buffer net c, w)))
              some_wanted
            ∙ ap (after_body net byte n c) fed.result
            ∙ ap (λ bs. after_body net byte n c (ok bs, fed.world)) got
            ∙ ap (λ r. stored_body net byte n n c r fed.world)
                ((memcpy_whole-Writes (b ∷ body)).runs c fits)
            ∙ ap
                (λ t. (
                  if t then ok (header_bits byte).type else err failure,
                  (whole_buffer net c', fed.world),
                ))
                (==_refl n);
        left = fed.left ∙ ap (drop n) e ∙ drop-append (b ∷ body) rest;
      }

  PacketRead-from :
      {a b : Result ℕ × (List ℕ × W)} {type : ℕ} {buf buf' rest : List ℕ}
      → a ≡ b
      → buf ≡ buf'
      → PacketRead b type buf rest
      → PacketRead a type buf' rest
  PacketRead-from {type} e d r = record {
    world = r.world;
    succeeds = e ∙ r.succeeds ∙ ap (λ x. (ok type, (x, r.world))) d;
    left = r.left;
  }

  -- What follows the length, whose bytes are `lb`.
  behind_len :
      (lb : List ℕ) (byte n : ℕ) (c : Client) (timer : Timer) (w : W)
      → n < c.read_buf_size
      → Writes (write_len_to_buffer n) lb
      → length (byte ∷ lb) ≤ length c.read_buf
      → after_len net c timer byte
          (whole_buffer net (advance (start c.read_buf) (byte ∷ [])))
          (advance (start c.read_buf) (byte ∷ []))
          (ok n, w)
        ≡ read_body net timer byte n
            (whole_buffer net (advance (start c.read_buf) (byte ∷ [])))
            (ok (advance (advance (start c.read_buf) (byte ∷ [])) lb))
            w
  behind_len lb byte n c timer w hs writes fits =
      let s1 : Cursor = advance (start c.read_buf) (byte ∷ []) in
      let short : leb c.read_buf_size n ≡ false = leb-false c.read_buf_size n hs in
      let buf : List ℕ = whole_buffer net s1 in
      ap
        (λ t.
          if t
          then after_drop net buf (drop_loop net timer c.read_buf_size (suc n) n buf w)
          else read_body net timer byte n buf (write_len_to_buffer n s1) w)
        short
      ∙ ap (λ r. read_body net timer byte n buf r w)
          (writes.runs s1 (length-drop_le (byte ∷ []) lb c.read_buf fits))

  -- Reading a packet up to its body.
  pub record BodyReached (fuel : ℕ) (c : Client) (timer : Timer) (byte : ℕ) (body rest : List ℕ)
      (w : W) : Type ℓ where
    pub world : W
    pub goes_on :
        read_packet net fuel c timer w
        ≡ read_body net
            (packet_timer net c w)
            byte
            (length body)
            (whole_buffer net (advance (start c.read_buf) (byte ∷ [])))
            (ok (advance (advance (start c.read_buf) (byte ∷ [])) (len_bytes (length body))))
            world
    pub left : source world ≡ body ++ rest

  pub body_reached :
      (fuel : ℕ) (c : Client) (timer : Timer) (byte : ℕ) (body rest : List ℕ) (w : W)
      → 4 ≤ fuel
      → length body < 2 ^ 28
      → length body < c.read_buf_size
      → length (byte ∷ len_bytes (length body)) ≤ length c.read_buf
      → source w ≡ frame byte body ++ rest
      → BodyReached fuel c timer byte body rest w
  unfolding read_packet
  body_reached fuel c timer byte body rest w hf hb hs fits e =
      let n : ℕ = length body in
      let fed = feeds.reads 1 timer w (omega (arith, ap length e)) in
      let pt : Timer = packet_timer net c w in
      let s : Cursor = start c.read_buf in
      let s1 : Cursor = advance s (byte ∷ []) in
      let behind : source fed.world ≡ len_bytes n ++ (body ++ rest) =
        fed.left ∙ ap (drop 1) e ∙ append_assoc (len_bytes n) body rest in
      let len =
        decode_packet_remaining_len-len_bytes net source feeds pt n fuel (body ++ rest) fed.world hb
          hf behind in
      record {
        world = len.world;
        goes_on =
            ap (after_header net fuel c pt) fed.result
            ∙ ap (λ x. after_header net fuel c pt (ok (take 1 x), fed.world)) e
            ∙ ap (λ r. after_header_byte net fuel c pt r byte fed.world)
                ((write_char-Writes byte).runs s (omega (arith, fits)))
            ∙ ap (after_len net c pt byte (whole_buffer net s1) s1) len.succeeds
            ∙ behind_len (len_bytes n) byte n c pt len.world hs
                (write_len_to_buffer-Writes n (omega arith)) fits;
        left = len.left;
      }

  -- Over a network that answers every read from a stream of bytes: where the stream starts with a
  -- packet of a header byte, a length below 2 ^ 28 and a body, which is shorter than the size of the
  -- receive buffer and together with its header has room in it, the packet is read with its type.
  -- The buffer then starts with the packet and is otherwise as it was, and the stream is at the byte
  -- behind the packet. Fuel for the four bytes of a length is enough.
  pub read_packet-frame :
      (fuel : ℕ) (c : Client) (timer : Timer) (byte : ℕ) (body rest : List ℕ) (w : W)
      → 4 ≤ fuel
      → length body < 2 ^ 28
      → length body < c.read_buf_size
      → length (frame byte body) ≤ length c.read_buf
      → source w ≡ frame byte body ++ rest
      → (world : W) × ((read_packet net fuel c timer w ≡ (
        ok (header_bits byte).type,
        (frame byte body ++ drop (length (frame byte body)) c.read_buf, world),
      ))
          × (source world ≡ rest))
  read_packet-frame fuel c timer byte body rest w hf hb hs fits e =
      let lb : List ℕ = len_bytes (length body) in
      let s : Cursor = start c.read_buf in
      let s1 : Cursor = advance s (byte ∷ []) in
      let room : length (lb ++ body) ≤ length s1.room =
        length-drop_le (byte ∷ []) (lb ++ body) c.read_buf fits in
      let header_fits : length (byte ∷ lb) ≤ length c.read_buf =
        omega (arith, fits, length-append lb body) in
      let b = body_reached fuel c timer byte body rest w hf hb hs header_fits e in
      let r =
        PacketRead-from b.goes_on
          (ap (whole_buffer net)
            (advance-advance s1 lb body ∙ advance-advance s (byte ∷ []) (lb ++ body)))
          (body_read (packet_timer net c w) byte body rest (whole_buffer net s1) (advance s1 lb)
            b.world (length-drop_le lb body s1.room room) b.left) in
      (r.world, (r.succeeds, r.left))
