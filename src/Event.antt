-- ===== src/Event.antt =====
-- include/Event.h and the delivery target of include/EventAgent.h: what the queues see of an event.
-- An object is its address.
use jhcommon.Prelude.{ℕ, Bool, true, false, Option, none, some, ◌==◌}
use jhcommon.Prelude.Int.{ℤ, pos, negsuc}

pub record Event : Type 0 where
  pub address : ℕ
  pub event_id : ℤ
  pub priority : ℤ
  -- `getDeliveryTarget`, which only an agent has
  pub target : ℕ

abbrev pub priority_normal : ℤ
priority_normal = pos 0

abbrev pub invalid_event_id : ℤ
invalid_event_id = negsuc 0

abbrev pub agent_event_id : ℤ
agent_event_id = negsuc 4

-- equality of two pointers, none for NULL
abbrev pub ptr_eq : Option ℕ → Option ℕ → Bool
ptr_eq none none = true
ptr_eq (some a) (some b) = a == b
ptr_eq _ _ = false
