-- ===== src/Client/Init/Fresh.antt =====
-- The client behind a successful initialisation.
use hornbill_examples.Common.{◌==◌, true, false, List, [], ◌∷◌, ◌≡◌, ◌≢◌, refl, arith}
use hornbill_examples.Errors.{ok}
use hornbill_examples.Packet.Connect.{is_null}
use hornbill_examples.Client.{
  Client, MessageHandler, initialized, is_client_state_valid_for_connect, is_connected_state,
}
use hornbill_examples.Client.Handlers.Table.{subscriptions}
use hornbill_examples.Client.Init.{
  InitParams, InitAnswers, init, clear_handlers, default_options, mutexes_init,
}

cleared-subscriptions :
    (handlers : List MessageHandler) → subscriptions (clear_handlers handlers) ≡ []
cleared-subscriptions [] = refl
cleared-subscriptions (h ∷ handlers) = cleared-subscriptions handlers

-- A call whose arguments are complete and whose every step succeeds.
abbrev pub IsComplete : InitParams → Type 0
IsComplete p =
    (is_null p.host_url ≡ false)
    × (p.port ≢ 0)
    × (is_null p.root_ca_location ≡ false)
    × (is_null p.device_private_key_location ≡ false)
    × (is_null p.device_cert_location ≡ false)

-- What a new client is like: it has no subscription, its connect options are the defaults, and it may
-- be connected but is not.
abbrev pub IsFresh : Client → Type 0
IsFresh c =
    (c.client_state ≡ initialized)
    × (subscriptions c.message_handlers ≡ [])
    × (c.options ≡ default_options)
    × (c.next_packet_id ≡ 1)
    × (c.is_ping_outstanding ≡ false)
    × (is_client_state_valid_for_connect c.client_state ≡ true)
    × (is_connected_state c.client_state ≡ false)

-- With complete arguments, and where the mutexes are created and the network stack is set up, the
-- initialisation succeeds and leaves a client in the initialized state, with no subscription, the
-- default connect options, 1 as its last packet id and no ping outstanding, which may be connected
-- but is not; it has the timeouts and the choice of
-- reconnecting that were asked for.
pub init-IsFresh :
    (p : InitParams) (a : InitAnswers) (c : Client)
    → IsComplete p
    → mutexes_init a ≡ ok tt
    → a.tls_init ≡ ok tt
    → ((init p a c).0 ≡ ok tt)
      × IsFresh (init p a c).1
      × ((init p a c).1.packet_timeout_ms ≡ p.mqtt_packet_timeout_ms)
      × ((init p a c).1.command_timeout_ms ≡ p.mqtt_command_timeout_ms)
      × ((init p a c).1.is_auto_reconnect_enabled ≡ p.enable_auto_reconnect)
unfolding init is_client_state_valid_for_connect
init-IsFresh p a c (url, port, ca, key, cert) mutexes tls =
    let port_given : (p.port == 0) ≡ false = ground arith in
    rw (url, port_given, ca, key, cert, mutexes, tls)
      (
        refl,
        (refl, cleared-subscriptions c.message_handlers, refl, refl, refl, refl, refl),
        refl,
        refl,
        refl,
      )
