-- ===== src/Client/PacketId/Cycle.antt =====
-- The ids that a client hands out one after the other.
use hornbill_examples.Common.{
  ℕ, zero, suc, ◌+◌, ◌%◌, ◌^◌, ◌<◌, ◌≤◌, ◌==◌, if◌then◌else◌, ◌≡◌, ◌≢◌, arith,
}
use hornbill_examples.Client.{Client}
use hornbill_examples.Client.PacketId.{max_packet_id, get_next_packet_id}

-- The client after a number of calls, and the id that the next call hands out.
abbrev pub after_calls : ℕ → Client → Client
after_calls zero c = c
after_calls (suc n) c = (get_next_packet_id (after_calls n c)).1

next_id_lem :
    (n x k : ℕ)
    → n ≡ (x + k + 65534) % 65535 + 1
    → (if n == max_packet_id then 1 else n + 1) % 2 ^ 16 ≡ (x + k) % 65535 + 1
next_id_lem n x k h = ground arith

after_calls_lem :
    (k : ℕ) (c : Client)
    → 1 ≤ c.next_packet_id
    → c.next_packet_id ≤ 65535
    → (after_calls k c).next_packet_id ≡ (c.next_packet_id + k + 65534) % 65535 + 1
unfolding get_next_packet_id
after_calls_lem zero c h1 h2 = omega arith
after_calls_lem (suc k) c h1 h2 = ground (
  arith,
  after_calls_lem k c h1 h2,
  next_id_lem (after_calls k c).next_packet_id c.next_packet_id k,
)

-- From a client whose last id is between 1 and 65535, every call hands out an id between 1 and
-- 65535, and any two of 65535 successive calls hand out different ids.
pub get_next_packet_id-distinct :
    (i j : ℕ) (c : Client)
    → 1 ≤ c.next_packet_id
    → c.next_packet_id ≤ 65535
    → i < j
    → j < i + 65535
    → (1 ≤ (get_next_packet_id (after_calls i c)).0)
      × ((get_next_packet_id (after_calls i c)).0 ≤ 65535)
      × ((get_next_packet_id (after_calls i c)).0 ≢ (get_next_packet_id (after_calls j c)).0)
unfolding get_next_packet_id
get_next_packet_id-distinct i j c h1 h2 lt lt' =
    ground (arith, after_calls_lem (suc i) c h1 h2, after_calls_lem (suc j) c h1 h2)
