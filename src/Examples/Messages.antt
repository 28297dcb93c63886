-- ===== src/Examples/Messages.antt =====
-- Messages of the protocol.
use wxdap.Base.{◌≡◌, refl, true, codes}
use wxdap.Decimal.{pos, negsuc}
use wxdap.Examples.Values.{integer_json}
use wxdap.Protocol.{Breakpoint}
use wxdap.Protocol.Events.{EventMessage, breakpoint, class_of, event_message_to, event_message_from}
use wxdap.Protocol.Events.RoundTrip.{event_body_read, event_message_from-to}

abbrev moved : Breakpoint
moved = record {
  id = pos 3;
  verified = true;
  message = codes "moved";
  source = record { name = codes "a.cpp"; path = codes "/src/a.cpp"; source_reference = pos 0 };
  line = pos 12;
  column = negsuc 0;
  end_line = negsuc 0;
  end_column = negsuc 0;
}

abbrev breakpoint_moved : EventMessage
breakpoint_moved = record {
  base = record { base = record { seq = pos 7; type = codes "event" }; event = codes "breakpoint" };
  body = breakpoint (codes "changed") moved;
}

event_message_from-to_example :
    event_message_from integer_json
      (class_of breakpoint_moved.body)
      (event_message_to integer_json breakpoint_moved)
    ≡ record { base = breakpoint_moved.base; body = event_body_read breakpoint_moved.body }
event_message_from-to_example =
    event_message_from-to integer_json breakpoint_moved (refl, refl, refl)
      (refl, (refl, refl, refl, refl, refl, refl, (refl, refl, refl)))
