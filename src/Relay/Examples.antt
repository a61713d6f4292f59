-- ===== src/Relay/Examples.antt =====
-- A browser and a node on one session, and a node that reconnects.
use interlatent.Base.{
  ℕ, string_discrete, Bool, true, false, none, some, List, [], ◌∷◌, All, ite, if◌then◌else◌, ◌≡◌,
}
use interlatent.Base.Dict.{ℕ_key, get}
use interlatent.Relay.Registry.{browser, node, other, Registry, attach, detach}
use interlatent.Relay.Registry.Pairing.{holder, role_same, without, holder-attach, holder-detach}
use interlatent.Relay.Streams.{get_ref}
use interlatent.Relay.Connection.{RelayProtocol, StreamData, new_connection, target, on_wt_stream}
use interlatent.Relay.Bounds.{IsBounded, empty-IsBounded}
use interlatent.Relay.Forwarding.{
  StreamEvent, chunk, aborted, after_events, IsCopyOf, after_events-IsBounded,
  on_wt_stream-IsCopyOf,
}

abbrev paired : Registry ℕ
paired = (attach (attach [] "s" browser 1).0 "s" node 2).0

abbrev connection : RelayProtocol ℕ
connection = record new_connection {
  sessions = (4, record { role = node; session_id = "s"; peer = 2 }) ∷ [];
}

abbrev frame : Bool → StreamData
frame ended = record {
  session_stream = 4;
  stream_id = 6;
  payload = 255 ∷ 216 ∷ [];
  stream_ended = ended;
}

abbrev events : List (StreamEvent ℕ)
events = chunk paired (some 3) (frame false) ∷ chunk paired none (frame true) ∷ aborted 6 ∷ []

holder-attach_example :
    (holder (attach paired "s" node 5).0 "s" browser
      ≡ ite
          (string_discrete "s" "s")
          (if role_same node browser then some 5 else holder paired "s" browser)
          (holder paired "s" browser))
    × ((attach paired "s" node 5).1 ≡ holder paired "s" node)
holder-attach_example = holder-attach paired "s" "s" node browser 5

holder-detach_example :
    (holder (detach paired "s" browser 1).0 "s" browser
      ≡ ite
          (string_discrete "s" "s")
          (if role_same browser browser
            then without (holder paired "s" browser) 1
            else holder paired "s" browser)
          (holder paired "s" browser))
    × ((detach paired "s" browser 1).1 ≡ holder paired "s" (other browser))
holder-detach_example = holder-detach paired "s" "s" browser browser 1

after_events-IsBounded_example : IsBounded (after_events connection events).fwd
after_events-IsBounded_example = after_events-IsBounded connection events empty-IsBounded

on_wt_stream-IsCopyOf_example :
    All
      (IsCopyOf
        (get_ref connection.fwd 6)
        (target paired (get 4 connection.sessions))
        (some 3)
        (frame false))
      (on_wt_stream paired connection (some 3) (frame false)).1
on_wt_stream-IsCopyOf_example = on_wt_stream-IsCopyOf paired connection (some 3) (frame false)
