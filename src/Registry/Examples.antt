-- ===== src/Registry/Examples.antt =====
-- The registry of tunnel sessions on concrete input.
use hooshi_xagent.Registry.{
  Heap, Gateway, register_session, unregister_session, session_for_device, device_tunnels,
  register_known, admit, place, insert, delete, is_none, set_primary,
}
use hooshi_xagent.Registry.Lists.{IsAmong, keep, find}
use hooshi_xagent.Registry.Invariant.{IsWellFormed}
use hooshi_xagent.Registry.Register.{register_session_lem}
use hooshi_xagent.Registry.Admit.{Registers}
use hooshi_xagent.Registry.Unregister.{Unregisters, unregister_session_lem}
use hooshi_xagent.Registry.Routing.{Routes, session_for_device_lem}
use mathlib.Core.Option.{none-ne-some}
use hooshi_xagent.Base.{[], ◌∷◌, true, false, some, none, ok, ◌≡◌, refl, arith, subst}

-- Two sessions of device 1: the first is the primary, the second its standby.
abbrev heap : Heap
heap = record {
  device_id = λ s. 1;
  session_id = λ s. s;
  last_seen = λ s. s;
  authorized = λ s. true;
  authorization_expires_at = λ s. some 100;
}

abbrev empty : Gateway
empty = record {
  max_agent_sessions = 4;
  max_tunnels_per_device = 2;
  draining = false;
  tunnels = [];
  primaries = λ device. none;
  session_rejects = 0;
  reconnects = 0;
}

empty-IsWellFormed : IsWellFormed heap empty
unfolding device_tunnels keep IsAmong
empty-IsWellFormed = record {
  total = omega arith;
  per_device = λ device. omega arith;
  unique = λ s t m n h. absurd m;
  primary_known = λ device p h. absurd (none-ne-some p h);
  routed = λ s m h. m;
}

register_session_lem_example : Registers heap empty 1 (register_session heap empty 1)
register_session_lem_example = register_session_lem heap empty 1 empty-IsWellFormed

abbrev one : Gateway
one = record empty { tunnels = 1 ∷ []; primaries = set_primary empty.primaries 1 (some 1) }

registers : register_session heap empty 1 ≡ (one, ok none)
unfolding register_session register_known admit place insert delete is_none keep find device_tunnels
registers = refl

one-IsWellFormed : IsWellFormed heap one
one-IsWellFormed =
    (subst (Registers heap empty 1) registers
      (register_session_lem heap empty 1 empty-IsWellFormed)).0

unregister_session_lem_example : Unregisters heap one 1 (unregister_session heap one 1)
unregister_session_lem_example = unregister_session_lem heap one 1 one-IsWellFormed

session_for_device_lem_example : Routes heap one 50 1 (session_for_device heap one 50 1)
session_for_device_lem_example = session_for_device_lem heap one 50 1 one-IsWellFormed
