-- ===== src/Tests/Entry.antt =====
-- Runs of the authentication of entry sessions, with a paired phone and a desk computer.
use family_ai_platform.Common.{String, ◌≡◌, refl, true, none, [], ◌∷◌, ◌==◌, List, map, false}
use family_ai_platform.Pairing.{PairingDb, family_admin}
use family_ai_platform.Pairing.Devices.{Requester, revoke_device}
use family_ai_platform.EntrySession.{
  SessionJoin, context_of, require_entry_request, authenticate, expired,
}
use family_ai_platform.EntrySession.Requests.{revoked_not_accepted, expired_stays}
use family_ai_platform.EventStream.{idle, taken}
use family_ai_platform.EventStream.Heartbeats.{
  Source, Connection, AllKept, heartbeat_all, heartbeats_shut_out,
}
use family_ai_platform.Tests.Paired.{hash, phone, phone_entry, phone_binding, phone_session, db}

abbrev desk_join : SessionJoin
desk_join = record {
  session = record phone_session {
    entry_session_ref = "entry-session:desk";
    entry_binding_ref = "entry-binding:desk";
    token_hash = hash "desk-token";
  };
  binding = record phone_entry {
    entry_binding_ref = "entry-binding:desk";
    device_ref = "device:desk";
    audience = family_admin;
  };
  device = record phone { device_ref = "device:desk"; installation_ref = none };
}

-- The tables with the desk computer of the same person beside the phone.
abbrev two_devices : PairingDb
two_devices = record db {
  devices = phone ∷ desk_join.device ∷ [];
  device_bindings =
      phone_binding
      ∷ record phone_binding {
        device_binding_ref = "device-binding:desk";
        device_ref = "device:desk";
      }
      ∷ [];
  entry_bindings = phone_entry ∷ desk_join.binding ∷ [];
  sessions = phone_session ∷ desk_join.session ∷ [];
}

revoked_not_accepted_example : ("device:desk" == "device:phone") ≡ false
unfolding require_entry_request revoke_device
revoked_not_accepted_example =
    revoked_not_accepted hash "device:phone" "entry-session:desk" "desk-token"
      (Requester.administrator "family:f") 10 20 none (context_of desk_join) two_devices refl refl

expired_stays_example :
    (authenticate hash "entry-session:1" "token" 30
      (authenticate hash "entry-session:1" "token" 700000000 two_devices).1).0
    ≡ expired
unfolding authenticate
expired_stays_example = expired_stays hash "entry-session:1" "token" 700000000 30 two_devices refl

abbrev stream : String → String → Connection
stream ref token = record {
  subscriber = record {
    person_ref = "person:an";
    scheduled_cursor = 0;
    closed = false;
    queue = [];
    queued_frames = 0;
    queued_bytes = 0;
    writer = idle;
    sent = [];
    sink = λ fs f. taken;
  };
  entry_session_ref = ref;
  token = token;
  source = Source.entry_cookie;
}

-- Two streams of the person, of which the second has the session of a tablet.
abbrev streams : List Connection
streams = stream "entry-session:1" "token" ∷ stream "entry-session:tablet" "tablet-token" ∷ []

abbrev with_tablet : PairingDb
with_tablet = record db {
  devices = phone ∷ record phone { device_ref = "device:tablet"; installation_ref = none } ∷ [];
  device_bindings =
      phone_binding
      ∷ record phone_binding {
        device_binding_ref = "device-binding:tablet";
        device_ref = "device:tablet";
      }
      ∷ [];
  entry_bindings =
      phone_entry
      ∷ record phone_entry {
        entry_binding_ref = "entry-binding:tablet";
        device_ref = "device:tablet";
      }
      ∷ [];
  sessions =
      phone_session
      ∷ record phone_session {
        entry_session_ref = "entry-session:tablet";
        entry_binding_ref = "entry-binding:tablet";
        token_hash = hash "tablet-token";
      }
      ∷ [];
}

unfoldable tablet_revoked : PairingDb
unfolding revoke_device
tablet_revoked =
    (revoke_device "device:tablet" (Requester.administrator "family:f") 10 with_tablet).1

heartbeats_shut_out_example :
    AllKept hash
      (λ f. 100)
      256
      1048576
      "device:tablet"
      20
      streams
      tablet_revoked
      (heartbeat_all hash (λ f. 100) 256 1048576 20 streams tablet_revoked).0
unfolding revoke_device tablet_revoked
heartbeats_shut_out_example =
    heartbeats_shut_out hash (λ f. 100) 256 1048576 "device:tablet"
      (Requester.administrator "family:f") 10 20 streams with_tablet refl

-- The first stream is still open after the round, and the second is closed.
round_closed :
    map
      (λ c. c.subscriber.closed)
      (heartbeat_all hash (λ f. 100) 256 1048576 20 streams tablet_revoked).0
    ≡ false ∷ true ∷ []
unfolding heartbeat_all tablet_revoked
round_closed = refl
