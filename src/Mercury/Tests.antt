-- ===== src/Mercury/Tests.antt =====
-- Runs of the theorems on core/src/mercury at concrete inputs.
use spotify_connect_scrobble.Prelude.{
  ◌≡◌, ◌≢◌, Run, panics, refl, List, ◌++◌, All, if◌then◌else◌, ◌==◌, [], ◌∷◌, some, Bool, true,
  returns, ◌>>=◌, arith,
}
use spotify_connect_scrobble.Prelude.Words.{Bytes, checked, be_bytes}
use spotify_connect_scrobble.Prelude.Int.{pos}
use spotify_connect_scrobble.Prelude.Eq.{bytes_eq}
use spotify_connect_scrobble.Prelude.Dict
use spotify_connect_scrobble.Crates.Reference.{byte_order, easy_buf}
use spotify_connect_scrobble.Util.SpotifyId.{codes}
use spotify_connect_scrobble.Mercury.{
  MercuryManager, ChannelId, response, dispatch, request, send_request, no_parts,
}
use spotify_connect_scrobble.Mercury.Types.{MercuryMethod, Protobuf, command}
use spotify_connect_scrobble.Mercury.Parts.{frame, framed}
use spotify_connect_scrobble.Mercury.Reassembly.{dispatch-dispatch}
use spotify_connect_scrobble.Mercury.Sender.{
  MercurySender, Received, ok, waiting, poll_complete, IsAnswered, Stops, poll_complete_lem,
}
use spotify_connect_scrobble.Mercury.Requests.{packet, request-dispatch}
use spotify_connect_scrobble.Prelude.Eq.{nat_eq}
use spotify_connect_scrobble.Util.Seq
use spotify_connect_scrobble.Mercury.{
  Completion, MercuryPending, new, next_seq, parse_part, read_parts, complete_request, get_request,
}
use spotify_connect_scrobble.Mercury.Types.{encode, write_parts}
use spotify_connect_scrobble.Mercury.Trace.{
  Event, asks, packet as arrives, step, run, run-completes_once,
}
use spotify_connect_scrobble.Mercury.Events.{dispatch-event}

-- A header that is its URI, with status 200.
abbrev proto : Protobuf
proto = record {
  parse_header = λ text. some (record { uri = text; status_code = pos 200 });
  write_header = λ uri name content_type. uri;
  parse_subscription = λ text. some text;
}

abbrev alive : ChannelId → Bool
alive channel = true

abbrev manager : MercuryManager
manager = record {
  sequence = record { value = 5 };
  pending = (be_bytes 8 4, no_parts (some 0)) ∷ [];
  subscriptions = [];
  next_channel = 1;
  completed = [];
  delivered = [];
  packets = [];
}

abbrev number : Bytes
number = be_bytes 8 4

abbrev uri : Bytes
uri = codes "hm://keymaster/token"

dispatch-dispatch_example :
    (dispatch proto alive 0xb2 (frame number 2 (uri ∷ (1 ∷ []) ∷ []) []) manager
      >>= dispatch proto alive 0xb2 (frame number 1 ((2 ∷ []) ∷ (3 ∷ []) ∷ []) []))
    ≡ dispatch proto alive 0xb2 (frame number 1 (uri ∷ (1 ∷ 2 ∷ []) ∷ (3 ∷ []) ∷ []) []) manager
dispatch-dispatch_example =
    dispatch-dispatch proto alive 0xb2 number (uri ∷ []) ((3 ∷ []) ∷ []) (1 ∷ []) (2 ∷ []) [] []
      manager (omega arith) (omega arith) (omega arith) (omega arith) (omega arith)

request-dispatch_example :
    (request proto checked (send_request uri (7 ∷ [])) manager >>= λ r.
    dispatch proto alive 0xb2 (frame (be_bytes 8 5) 1 (uri ∷ (1 ∷ []) ∷ []) []) r.1)
    ≡ returns (record manager {
      sequence = record { value = 6 };
      next_channel = 2;
      pending = Dict.remove (be_bytes 8 5) manager.pending;
      packets = (command MercuryMethod.send, packet proto (send_request uri (7 ∷ [])) 5) ∷ [];
      completed =
          (1, response (record { uri = uri; status_code = pos 200; payload = (1 ∷ []) ∷ [] })) ∷ [];
    })
request-dispatch_example =
    request-dispatch proto alive checked (send_request uri (7 ∷ [])) 0xb2 uri ((1 ∷ []) ∷ []) []
      (record { uri = uri; status_code = pos 200 }) manager (omega arith) (omega arith)
      (omega arith) (omega arith) (omega arith) (omega arith) refl refl refl

-- The second of three tasks waits.
abbrev answers : ChannelId → Received
answers channel =
    if channel == 4 then waiting else ok (record { uri = uri; status_code = pos 200; payload = [] })

abbrev sender : MercurySender
sender = record { uri = uri; pending = 3 ∷ 4 ∷ 5 ∷ [] }

poll_complete_lem_example :
    let (answer, s') = poll_complete answers sender in
    (done : List ChannelId) × (3 ∷ 4 ∷ 5 ∷ [] ≡ done ++ s'.pending)
    × All (IsAnswered answers) done
    × Stops answers answer s'.pending
poll_complete_lem_example = poll_complete_lem answers sender

-- Two subscribers of one URI, of which the second one is gone, and one of another URI.
abbrev first_lives : ChannelId → Bool
first_lives channel = channel == 0

abbrev subscribed_manager : MercuryManager
subscribed_manager = record manager {
  subscriptions = (codes "hm://a", 0) ∷ (codes "hm://a", 1) ∷ (codes "hm://b", 2) ∷ [];
}

dispatch-event_example :
    dispatch proto first_lives 0xb5
      (frame (be_bytes 8 9) 1 (codes "hm://a/1" ∷ (7 ∷ []) ∷ []) [])
      subscribed_manager
    ≡ returns (record subscribed_manager {
      pending = Dict.remove (be_bytes 8 9) subscribed_manager.pending;
      subscriptions = (codes "hm://a", 0) ∷ (codes "hm://b", 2) ∷ [];
      delivered =
          (0, record { uri = codes "hm://a/1"; status_code = pos 200; payload = (7 ∷ []) ∷ [] })
          ∷ [];
    })
unfolding Dict.get
dispatch-event_example =
    dispatch-event proto first_lives (be_bytes 8 9) (codes "hm://a/1") ((7 ∷ []) ∷ []) []
      (record { uri = codes "hm://a/1"; status_code = pos 200 }) subscribed_manager (omega arith)
      (omega arith) (omega arith) refl refl refl

-- What a run comes to.
abbrev result_of : Run MercuryManager → MercuryManager
result_of panics = new
result_of (returns m) = m

abbrev answered : List Event
answered =
    asks (get_request (codes "hm://a"))
    ∷ arrives 0xb2 (frame (be_bytes 8 0) 1 (codes "hm://a" ∷ (7 ∷ []) ∷ []) [])
    ∷ []

-- The same answer once more, and another request.
abbrev answered_again : List Event
answered_again =
    arrives 0xb2 (frame (be_bytes 8 0) 1 (codes "hm://b" ∷ []) [])
    ∷ asks (get_request (codes "hm://c"))
    ∷ []

abbrev first_manager : MercuryManager
first_manager = result_of (run proto alive checked answered new)

abbrev second_manager : MercuryManager
second_manager = result_of (run proto alive checked answered_again first_manager)

abbrev first_response : Completion
first_response =
    response (record { uri = codes "hm://a"; status_code = pos 200; payload = (7 ∷ []) ∷ [] })

run-completes_once_example :
    (Dict.get 0 second_manager.completed ≡ some first_response)
    × ((seq : Bytes) (p : MercuryPending)
        → Dict.get seq second_manager.pending ≡ some p
        → p.callback ≢ some 0)
unfolding run step request next_seq encode write_parts command dispatch parse_part read_parts frame
    framed complete_request Dict.get Dict.insert Dict.remove Seq.get
run-completes_once_example =
    run-completes_once proto alive checked answered answered_again first_manager second_manager 0
      first_response refl refl refl
