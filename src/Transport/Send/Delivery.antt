-- ===== src/Transport/Send/Delivery.antt =====
-- A packet over a network that keeps taking bytes.
use hornbill_examples.Common.{
  ==_refl, ℕ, zero, suc, ◌+◌, ◌-◌, ◌%◌, ◌^◌, ◌<◌, ◌≤◌, ltb, ltb→lt, ltb→le, leb, if◌then◌else◌,
  Bool, true, false, List, ◌++◌, append_assoc, append-nil, take, drop, take-split, drop-drop, ◌≡◌,
  refl, ap, sym, ◌∙◌, arith, Bool-cases, inl, inr,
}
use hornbill_examples.Errors.{
  guard, failure, mqtt_tx_buffer_too_short_error, mutex_unlock_error, Result, ok, err,
}
use hornbill_examples.Threads.{Semaphore, thread_mutex_unlock}
use hornbill_examples.Timer.{Timer, elapsed_ticks, has_timer_expired}
use hornbill_examples.Client.{Client}
use hornbill_examples.Client.State.{lock_mutex, unlock_mutex}
use hornbill_examples.Client.State.CompareAndSet.{IsLocked, lock_mutex-ok}
use hornbill_examples.Transport.{Network, Io, poll}
use hornbill_examples.Transport.Send.{
  after_write, after_poll, send_loop, after_loop, after_lock, send_packet,
}

module _ {ℓ} {W : Type ℓ} (net : Network W) (sink : W → List ℕ) where
  -- One write that takes some of the bytes it is given.
  pub record Takes (bytes : List ℕ) (n : ℕ) (timer : Timer) (w : W) : Type ℓ where
    pub sent_len : ℕ
    pub world : W
    pub result : net.write bytes n timer w ≡ (ok sent_len, world)
    pub some_sent : 0 < sent_len
    pub fits : sent_len ≤ n
    pub arrived : sink world ≡ sink w ++ take sent_len bytes

  -- A network that takes some bytes with each write, where `sink` is what has arrived, and a sleep
  -- sends nothing.
  pub record IsReliable : Type ℓ where
    pub takes : (bytes : List ℕ) (n : ℕ) (timer : Timer) (w : W) → 0 < n → Takes bytes n timer w
    pub sleeps : (w : W) → sink (net.delay w) ≡ sink w

-- The clock never reaches the end of the timer.
abbrev pub IsInTime {ℓ} : {W : Type ℓ} → Network W → Timer → Type ℓ
IsInTime net timer =
    (w : _) → leb timer.timeout_ticks (elapsed_ticks (net.tick_count w) timer.start_ticks) ≡ false

send_packet_lem {ℓ} :
    {W : Type ℓ} (net : Network W) (s : Semaphore) (c : Client) (len : ℕ) (io io2 : Io W)
    → IsLocked s c
    → s.given ≡ true
    → len < c.write_buf_size
    → send_loop net c.write_buf len (suc len) 0 io ≡ (ok len, io2)
    → send_packet net s c len io ≡ (ok tt, io2)
unfolding send_packet unlock_mutex thread_mutex_unlock
send_packet_lem net s c len io io2 locked given fits looped =
    let room : ltb len c.write_buf_size ≡ true = ground arith in
    ap
      (λ b.
        if b
        then after_lock net c.write_buf len (lock_mutex s c) s io
        else (err mqtt_tx_buffer_too_short_error, io))
      room
    ∙ ap (λ r. after_lock net c.write_buf len r s io) (lock_mutex-ok s c locked)
    ∙ ap (after_loop net c.write_buf len (unlock_mutex s)) looped
    ∙ ap (λ g. after_loop net c.write_buf len (guard g mutex_unlock_error) (ok len, io2)) given
    ∙ ap (λ b. (if b then ok tt else err failure, io2)) (==_refl len)

module _ {ℓ} {W : Type ℓ} (net : Network W) (sink : W → List ℕ)
    (reliable : IsReliable net sink) where
  -- What a poll in time comes to.
  record Polled (io : Io W) : Type ℓ where
    io1 : Io W
    result : poll net io ≡ (false, io1)
    in_time : IsInTime net io1.timer
    quiet : sink io1.world ≡ sink io.world

  sink_if : (b : Bool) (w : W) → sink (if b then net.delay w else w) ≡ sink w
  sink_if true w = reliable.sleeps w
  sink_if false w = refl

  polled : (io : Io W) → IsInTime net io.timer → Polled io
  unfolding poll has_timer_expired
  polled io t = record {
    io1 = (poll net io).1;
    result = ap (λ (b : Bool). (b, (poll net io).1)) (t io.world);
    in_time = t;
    quiet = sink_if _ io.world;
  }

  -- What the loop comes to: it is left with all bytes sent, and they have arrived in their order.
  record Sent (buf : List ℕ) (len fuel sent : ℕ) (io : Io W) : Type ℓ where
    io2 : Io W
    result : send_loop net buf len fuel sent io ≡ (ok len, io2)
    arrived : sink io2.world ≡ sink io.world ++ take (len - sent) (drop sent buf)

  next_sent : (a b : ℕ) → a + b < 2 ^ 32 → (a + b) % 2 ^ 32 ≡ a + b
  next_sent a b h = ground arith

  one_round :
      (buf : List ℕ) (len fuel sent : ℕ) (io : Io W)
      → sent < len
      → len < 2 ^ 32
      → (p : Polled io) → (w : Takes net sink (drop sent buf) (len - sent) p.io1.timer p.io1.world)
      → Sent buf len fuel (sent + w.sent_len) (record p.io1 { world = w.world })
      → Sent buf len (suc fuel) sent io
  unfolding send_loop
  one_round buf len fuel sent io lt short p w r =
      let loop = λ (n : ℕ) (i : Io W). send_loop net buf len fuel n i in
      let io' : Io W = record p.io1 { world = w.world } in
      let more : ltb sent len ≡ true = ground arith in
      let no_wrap : (sent + w.sent_len) % 2 ^ 32 ≡ sent + w.sent_len =
        next_sent sent w.sent_len (omega (arith, w.fits)) in
      let left : ℕ = len - (sent + w.sent_len) in
      let whole : take w.sent_len (drop sent buf) ++ take left (drop (sent + w.sent_len) buf)
          ≡ take (len - sent) (drop sent buf) =
        ap (λ d. take w.sent_len (drop sent buf) ++ take left d)
          (sym (drop-drop sent w.sent_len (sent + w.sent_len) buf refl))
        ∙ take-split w.sent_len left (len - sent) (drop sent buf) (omega (arith, w.fits)) in
      record {
        io2 = r.io2;
        result =
            ap (λ b. if b then after_poll net buf len loop sent (poll net io) else (ok sent, io))
              more
            ∙ ap (after_poll net buf len loop sent) p.result
            ∙ ap (after_write net buf len loop sent p.io1) w.result
            ∙ ap (λ n. loop n io') no_wrap
            ∙ r.result;
        arrived =
            r.arrived
            ∙ ap (λ x. x ++ take left (drop (sent + w.sent_len) buf))
                (w.arrived ∙ ap (λ x. x ++ take w.sent_len (drop sent buf)) p.quiet)
            ∙ append_assoc (sink io.world) (take w.sent_len (drop sent buf))
                (take left (drop (sent + w.sent_len) buf))
            ∙ ap (λ x. sink io.world ++ x) whole;
      }

  nothing_left :
      (buf : List ℕ) (len fuel sent : ℕ) (io : Io W) → sent ≡ len → Sent buf len (suc fuel) sent io
  unfolding send_loop
  nothing_left buf len fuel sent io e =
      let done : ltb sent len ≡ false = ground arith in
      let none_left : 0 ≡ len - sent = omega (arith, e) in
      record {
        io2 = io;
        result =
            ap
              (λ b.
                if b
                then after_poll net buf len (λ (n : ℕ) (i : Io W). send_loop net buf len fuel n i)
                    sent (poll net io)
                else (ok sent, io))
              done
            ∙ ap (λ n. (ok n, io)) e;
        arrived =
            sym (append-nil (sink io.world))
            ∙ ap (λ n. sink io.world ++ take n (drop sent buf)) none_left;
      }

  send_loop_lem :
      (buf : List ℕ) (len fuel sent : ℕ) (io : Io W)
      → sent ≤ len
      → len < 2 ^ 32
      → len < sent + fuel
      → IsInTime net io.timer
      → Sent buf len fuel sent io
  send_loop_lem buf len zero sent io le short enough t = absurd (omega arith)
  send_loop_lem buf len (suc fuel) sent io le short enough t = elim (Bool-cases (ltb sent len)) [
    | inl h ↦
        let lt : sent < len = ltb→lt sent len h in
        let p = polled io t in
        let w = reliable.takes (drop sent buf) (len - sent) p.io1.timer p.io1.world (omega arith) in
        let r =
          send_loop_lem buf len fuel (sent + w.sent_len) (record p.io1 { world = w.world })
            (omega (arith, w.fits)) short (omega (arith, w.some_sent)) p.in_time in
        one_round buf len fuel sent io lt short p w r
    | inr h ↦ nothing_left buf len fuel sent io (omega (arith, ltb→le sent len h))
  ]

  -- Over a network that takes some bytes with each write, with a timer that the clock never reaches,
  -- and where the lock is had and given back: a packet that is shorter than the write buffer is sent
  -- with SUCCESS, and what has arrived is its bytes, once and in order, behind what was there.
  pub send_packet-arrives :
      (s : Semaphore) (c : Client) (len : ℕ) (io : Io W)
      → IsInTime net io.timer
      → IsLocked s c
      → s.given ≡ true
      → len < c.write_buf_size
      → len < 2 ^ 32
      → ((send_packet net s c len io).0 ≡ ok tt)
        × (sink (send_packet net s c len io).1.world ≡ sink io.world ++ take len c.write_buf)
  send_packet-arrives s c len io t locked given fits short =
      let sent = send_loop_lem c.write_buf len (suc len) 0 io (omega arith) short (omega arith) t in
      let all : send_packet net s c len io ≡ (ok tt, sent.io2) =
        send_packet_lem net s c len io sent.io2 locked given fits sent.result in
      let none_sent : len - 0 ≡ len = omega arith in
      (
        ap (λ (r : Result (Unit {0}) × Io W). r.0) all,
        ap (λ (r : Result (Unit {0}) × Io W). sink r.1.world) all
            ∙ sent.arrived
            ∙ ap (λ n. sink io.world ++ take n c.write_buf) none_sent,
      )
