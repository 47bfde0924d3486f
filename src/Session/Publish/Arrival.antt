-- ===== src/Session/Publish/Arrival.antt =====
-- A message with QoS 0, from the call of publish to the bytes that arrive.
use hornbill_examples.Common.{
  ℕ, ◌+◌, ◌^◌, ◌<◌, ◌≤◌, ◌==◌, leb, leb_of_le, if◌then◌else◌, true, false, List, ◌++◌, some, length,
  take, take-append, drop, ◌≡◌, refl, ◌∙◌, ap, arith,
}
use hornbill_examples.Errors.{Result, ok, err, mqtt_tx_buffer_too_short_error}
use hornbill_examples.Wire.{start}
use hornbill_examples.Wire.Writing.{advance}
use hornbill_examples.Wire.Header.{qos0, header_byte}
use hornbill_examples.Wire.Length.{get_final_packet_length_from_remaining_length}
use hornbill_examples.Packet.Frame.{frame, length-frame, get_final_packet_length_ge}
use hornbill_examples.Packet.Publish.Serialize.{
  publish_header, publish_body, length-publish_body, serialize_publish_lem,
}
use hornbill_examples.Client.{
  Client, connected_idle, connected_publish_in_progress, is_client_connected,
}
use hornbill_examples.Client.State.CompareAndSet.{IsLocked}
use hornbill_examples.Transport.{Io}
use hornbill_examples.Transport.Send.Delivery.{IsReliable, IsInTime, send_packet-arrives}
use hornbill_examples.Exec.{Running, pure, raise, lift, gets, continue, ◌>>=◌, ◌>>◌}
use hornbill_examples.Session.{
  System, next_semaphore, send_with, send, written, serialize, timer_ms, with_timer, with_old,
  in_state,
}
use hornbill_examples.Session.Publish.{
  Outgoing, write_publish, await_ack, internal_publish, require_idle, publish,
}
use hornbill_examples.Session.Restore.{HasLocks, moved, in_state-ok}
use hornbill_examples.Session.Steady.{IsIn}

-- A message with QoS 0 that has a payload.
abbrev pub plain_message : ℕ → ℕ → List ℕ → Outgoing
plain_message retained id payload = record {
  qos = qos0;
  is_retained = retained;
  id = id;
  payload = some payload;
  payload_len = length payload;
}

-- Its PUBLISH packet.
abbrev pub plain_packet : ℕ → ℕ → List ℕ → List ℕ → List ℕ
plain_packet retained id topic_name payload =
    frame (header_byte (publish_header qos0 0 retained)) (publish_body qos0 id topic_name payload)

-- The write buffer is as long as the client says, and the packet fits with room to spare.
pub record HasRoom (id : ℕ) (topic_name payload : List ℕ) (c : Client) : Type 0 where
  pub buffer : c.write_buf_size ≤ length c.write_buf
  pub small : c.write_buf_size ≤ 2 ^ 28
  pub short : length topic_name + length payload + 16 < 2 ^ 32
  pub room :
      get_final_packet_length_from_remaining_length
        (length (publish_body qos0 id topic_name payload))
      < c.write_buf_size

module _ (retained id : ℕ) (topic_name payload : List ℕ) (c : Client)
    (h : HasRoom id topic_name payload c) where
  length-plain_packet : length (plain_packet retained id topic_name payload) < c.write_buf_size
  length-plain_packet =
      let body = publish_body qos0 id topic_name payload in
      let ge =
        get_final_packet_length_ge (length body)
          (length-publish_body qos0 id topic_name payload h.short) in
      let le =
        length-frame (header_byte (publish_header qos0 0 retained)) body
          (omega (arith, h.room, h.small, ge)) in
      omega (arith, le, h.room)

  write_publish-plain :
      write_publish topic_name (length topic_name) (plain_message retained id payload) id c
      ≡ ok (advance (start c.write_buf) (plain_packet retained id topic_name payload))
  write_publish-plain =
      let body = publish_body qos0 id topic_name payload in
      let fits : leb (get_final_packet_length_from_remaining_length (length body)) c.write_buf_size
          ≡ true =
        leb_of_le _ _ (omega (arith, h.room)) in
      serialize_publish_lem c.write_buf c.write_buf_size 0 qos0 retained id topic_name payload
        h.buffer h.small h.short
      ∙ ap
          (λ b.
            if b
            then ok (advance (start c.write_buf) (plain_packet retained id topic_name payload))
            else err mqtt_tx_buffer_too_short_error)
          fits

module _ {ℓ} {W : Type ℓ} (sys : System W) (locks : HasLocks sys) where
  module _ (sink : W → List ℕ) (reliable : IsReliable sys.network sink)
      (still : (w : W) → sink (sys.semaphore w).1 ≡ sink w) where
    send-arrives :
        (n : ℕ) (s : Running W)
        → IsInTime sys.network s.timer
        → n < s.client.write_buf_size
        → n < 2 ^ 32
        → ((send sys n s).0 ≡ ok tt)
          × (sink (send sys n s).1.world ≡ sink s.world ++ take n s.client.write_buf)
    unfolding send send_with next_semaphore ◌>>=◌
    send-arrives n s t fits short =
        let (answers, w) = sys.semaphore s.world in
        let io : Io W = record { timer = s.timer; world = w } in
        let locked : IsLocked answers s.client = ground (arith, locks.taken s.world) in
        let sent =
          send_packet-arrives sys.network sink reliable answers s.client n io t locked
            (locks.given s.world) fits short in
        (sent.0, sent.1 ∙ ap (λ x. x ++ take n s.client.write_buf) (still s.world))

    module _ (retained id : ℕ) (topic_name payload packet : List ℕ) where
      -- With the packet in the buffer.
      abbrev filled : Running W → Running W
      filled s = record s {
        client = record s.client { write_buf = packet ++ drop (length packet) s.client.write_buf };
      }

      abbrev sent : Running W → Running W
      sent s = (send sys (length packet) (filled s)).1

      abbrev started : Running W → Running W
      started s = record s { timer = timer_ms sys s.client.command_timeout_ms s }

      internal_publish-sent :
          (s : Running W)
          → write_publish topic_name
              (length topic_name)
              (plain_message retained id payload)
              id
              s.client
            ≡ ok (advance (start s.client.write_buf) packet)
          → length packet < s.client.write_buf_size
          → length packet < 2 ^ 32
          → IsInTime sys.network (timer_ms sys s.client.command_timeout_ms s)
          → (internal_publish sys topic_name
                (length topic_name)
                (plain_message retained id payload)
                s
              ≡ (ok tt, record (sent (started s)) { timer = s.timer }))
            × (sink (sent (started s)).world ≡ sink s.world ++ packet)
      unfolding internal_publish with_timer gets ◌>>=◌ pure serialize
      internal_publish-sent s w fits short t =
          let a = send-arrives (length packet) (filled (started s)) t fits short in
          (
            ap
                  (λ r.
                    let (n, s') = written sys r (started s) in
                    with_old sys s.timer (continue n (λ n'. send sys n' >> await_ack sys qos0) s'))
                  w
                ∙ ap
                    (λ r.
                      with_old sys s.timer
                        (continue r (λ _. await_ack sys qos0) (sent (started s))))
                    a.0,
            a.1
                ∙ ap (λ bytes. sink s.world ++ bytes)
                    (take-append packet (drop (length packet) s.client.write_buf)),
          )

publish-idle {ℓ} :
    {W : Type ℓ} (sys : System W) (topic_name : List ℕ) (len : ℕ) (p : Outgoing) (s : Running W)
    → IsIn connected_idle s
    → 0 < len
    → publish sys (some topic_name) len (some p) s
      ≡ in_state sys connected_idle connected_publish_in_progress
          (internal_publish sys topic_name len p)
          s
unfolding publish require_idle gets ◌>>=◌ is_client_connected lift raise pure
publish-idle sys topic_name len p s i h =
    let t : (len == 0) ≡ false = ground arith in rw (t, i) refl

module _ {ℓ} {W : Type ℓ} (sys : System W) (locks : HasLocks sys) (sink : W → List ℕ)
    (reliable : IsReliable sys.network sink)
    (still : (w : W) → sink (sys.semaphore w).1 ≡ sink w) where
  sent_state :
      (n : ℕ) (s : Running W) → (send sys n s).1.client.client_state ≡ s.client.client_state
  unfolding send send_with next_semaphore ◌>>=◌
  sent_state n s = refl

  publish-sent :
      (retained id : ℕ) (topic_name payload packet : List ℕ) (s : Running W)
      → IsIn connected_idle s
      → 0 < length topic_name
      → write_publish topic_name (length topic_name) (plain_message retained id payload) id s.client
        ≡ ok (advance (start s.client.write_buf) packet)
      → length packet < s.client.write_buf_size
      → length packet < 2 ^ 32
      → IsInTime sys.network
          (timer_ms sys s.client.command_timeout_ms (moved sys connected_publish_in_progress s))
      → let after =
          publish sys
            (some topic_name)
            (length topic_name)
            (some (plain_message retained id payload))
            s in
        (after.0 ≡ ok tt)
        × (sink after.1.world ≡ sink s.world ++ packet)
        × IsIn connected_idle after.1
  publish-sent retained id topic_name payload packet s i h w fits short t =
      let p = plain_message retained id payload in
      let busy = connected_publish_in_progress in
      let s1 : Running W = moved sys busy s in
      let run =
        internal_publish-sent sys locks sink reliable still retained id topic_name payload packet s1
          w fits short t in
      let s2 : Running W =
        record (sent sys locks sink reliable still retained id topic_name payload packet
          (started sys locks sink reliable still retained id topic_name payload packet s1)) {
            timer = s.timer;
          } in
      let all : publish sys (some topic_name) (length topic_name) (some p) s
          ≡ (ok tt, moved sys connected_idle s2) =
        publish-idle sys topic_name (length topic_name) p s i h
        ∙ in_state-ok sys locks connected_idle busy _ s s2 i run.0 (sent_state (length packet) _) in
      (
        ap (λ (o : Result (Unit {0}) × Running W). o.0) all,
        ap (λ (o : Result (Unit {0}) × Running W). sink o.1.world) all
            ∙ still s2.world
            ∙ run.1
            ∙ ap (λ x. x ++ packet) (still s.world),
        ap (λ (o : Result (Unit {0}) × Running W). o.1.client.client_state) all,
      )

  -- A publish of a message with QoS 0 on an idle client: it returns SUCCESS, what has arrived at the
  -- other end is the message's PUBLISH packet, once and whole, behind what was there, and the client
  -- is idle again. This holds for a message with a topic and a payload that the write buffer has room
  -- for, over a network that takes some bytes with each write, where the timer of the command time-out
  -- that the publish starts has not expired at any tick that the system's clock shows, so that the
  -- clock may move on, but not up to the end of that time-out, every semaphore is had and given back,
  -- and no semaphore sends anything.
  pub publish-arrives :
      (retained id : ℕ) (topic_name payload : List ℕ) (s : Running W)
      → IsIn connected_idle s
      → 0 < length topic_name
      → HasRoom id topic_name payload s.client
      → IsInTime sys.network
          (timer_ms sys s.client.command_timeout_ms (moved sys connected_publish_in_progress s))
      → let after =
          publish sys
            (some topic_name)
            (length topic_name)
            (some (plain_message retained id payload))
            s in
        (after.0 ≡ ok tt)
        × (sink after.1.world ≡ sink s.world ++ plain_packet retained id topic_name payload)
        × IsIn connected_idle after.1
  publish-arrives retained id topic_name payload s i h room t =
      let packet = plain_packet retained id topic_name payload in
      let fits = length-plain_packet retained id topic_name payload s.client room in
      publish-sent retained id topic_name payload packet s i h
        (write_publish-plain retained id topic_name payload s.client room) fits
        (omega (arith, fits, room.small)) t
