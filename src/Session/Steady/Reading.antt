-- ===== src/Session/Steady/Reading.antt =====
-- Reading packets and waiting for one leave the state of the client as it is.
use hornbill_examples.Common.{ℕ, zero, suc, Bool, true, false, ◌∙◌}
use hornbill_examples.Errors.{Result, ok, err, fault}
use hornbill_examples.Threads.{Semaphore}
use hornbill_examples.Packet.Publish.{PublishFields}
use hornbill_examples.Client.{ClientState}
use hornbill_examples.Exec.{Exec, ◌>>=◌}
use hornbill_examples.Exec.Keeps.{Keeps, keeps_rules, Keeps-bind}
use hornbill_examples.Session.{System, next_semaphore}
use hornbill_examples.Session.Read.{
  message_params, Typed, deliver_with, deliver, handle_publish, dispatch, after_unlock, read_locked,
  cycle_read, after_cycle, after_expired, wait_loop, wait_for_read,
}
use hornbill_examples.Session.Steady.{
  KeepsState, IsIn, IsTaken, deliver_message-state, steady_rules, Keeps-expired,
}

module _ {ℓ} {W : Type ℓ} (sys : System W) (k : ClientState) (taken : IsTaken sys)
    (quiet : KeepsState sys.application) where
  pub Keeps-deliver : (f : PublishFields) → Keeps (IsIn k) (deliver sys f)
  unfolding deliver ◌>>=◌ next_semaphore deliver_with
  Keeps-deliver f = record {
    at = λ s h.
        let (s1, w1) = sys.semaphore s.world in
        let (s2, w2) = sys.semaphore w1 in
        deliver_message-state sys.application s1 s2 f.topic_name.string f.topic_name.string_len
          (message_params f) s.client quiet (taken s.world) (taken w1)
        ∙ h;
  }

  Keeps-handle_publish : Keeps (IsIn k) (handle_publish sys)
  unfolding handle_publish
  Keeps-handle_publish = search (keeps_rules, steady_rules, Keeps-deliver) depth 16

  Keeps-dispatch : (t : ℕ) → Keeps (IsIn k) (dispatch sys t)
  unfolding dispatch
  Keeps-dispatch t = search (keeps_rules, steady_rules, Keeps-handle_publish)

  after_unlock-Keeps :
      (unlocked : Result (Unit {0})) (old : ℕ) (r : Result ℕ)
      → Keeps (IsIn k) (after_unlock sys unlocked old r)
  after_unlock-Keeps unlocked old (ok t) = search (keeps_rules, Keeps-dispatch)
  after_unlock-Keeps unlocked old (err e) = search keeps_rules
  after_unlock-Keeps unlocked old fault = search keeps_rules

  read_locked-Keeps :
      (answers : Semaphore) (r : Result (Unit {0})) (old : ℕ)
      → Keeps (IsIn k) (read_locked sys answers r old)
  read_locked-Keeps answers (ok _) old = search (keeps_rules, steady_rules, after_unlock-Keeps)
  read_locked-Keeps answers (err e) old = search keeps_rules
  read_locked-Keeps answers fault old = search keeps_rules

  pub Keeps-cycle_read : (old : ℕ) → Keeps (IsIn k) (cycle_read sys old)
  unfolding cycle_read
  Keeps-cycle_read old = search (keeps_rules, steady_rules, read_locked-Keeps)

  after_cycle-Keeps :
      (rest : ℕ → Exec W Typed) (packet_type : ℕ) (read : Typed)
      → ((t : ℕ) → Keeps (IsIn k) (rest t))
      → Keeps (IsIn k) (after_cycle sys rest packet_type read)
  after_cycle-Keeps rest packet_type read kr = search (keeps_rules, kr)

  after_expired-Keeps :
      (rest : ℕ → Exec W Typed) (packet_type old : ℕ) (b : Bool)
      → ((t : ℕ) → Keeps (IsIn k) (rest t))
      → Keeps (IsIn k) (after_expired sys rest packet_type old b)
  after_expired-Keeps rest packet_type old true kr = search keeps_rules
  after_expired-Keeps rest packet_type old false kr =
      search (keeps_rules, Keeps-cycle_read, after_cycle-Keeps, kr)

  wait_loop-Keeps :
      (rounds packet_type old : ℕ) → Keeps (IsIn k) (wait_loop sys rounds packet_type old)
  unfolding wait_loop
  wait_loop-Keeps zero packet_type old = search keeps_rules
  wait_loop-Keeps (suc rounds) packet_type old = Keeps-bind _ _ (Keeps-expired sys k) (λ b.
      after_expired-Keeps (λ t. wait_loop sys rounds packet_type t) packet_type old b
        (λ t. wait_loop-Keeps rounds packet_type t))

  pub Keeps-wait_for_read : (packet_type : ℕ) → Keeps (IsIn k) (wait_for_read sys packet_type)
  unfolding wait_for_read
  Keeps-wait_for_read packet_type = search (keeps_rules, wait_loop-Keeps)
