-- ===== src/Publisher/Examples.antt =====
-- A publisher with an event socket and a camera socket.
use r2_labs.Base.{
  ℕ, ◌≡◌, ◌+◌, ◌↔◌, refl, Bool, true, false, List, [], ◌∷◌, none, some, arith, All, if◌then◌else◌,
  ltb,
}
use r2_labs.Base.Dict.{lookup}
use r2_labs.Base.Order.{sorted, text_le}
use r2_labs.Base.Text.{IsText, codes, encode, encode_char, starts_with, text_beq, text_eq}
use r2_labs.Publisher.Start.{
  PubSocket, BasePublisher, ok, err, bind_failed, distinct, ambiguous_pair, prefixes, fresh, refuse,
  construct, start, never_drop_sndhwm, latest_wins_sndhwm, has_subscribers,
}
use r2_labs.Publisher.Owner.{Wake, continues, route, owner_pass, send_due_heartbeats, verb_of}
use r2_labs.Publisher.Routing.{IsUnambiguous, construct_iff, route-construct}
use r2_labs.Publisher.Presence.{Notices, receive, subs, unsubs, has_subscribers-receive}
use r2_labs.Publisher.Heartbeats.{beats, due_beats, send_due_heartbeats-due_beats}
use r2_labs.Publisher.Lifecycle.{start-Binds, start-start}
use r2_labs.Publisher.Forwarding.{SameSockets, owner_pass-message}

abbrev events : PubSocket
events = record {
  name = codes "events";
  port = 5555;
  topic_prefix = codes "event.";
  sndhwm = never_drop_sndhwm;
  heartbeat = true;
}

abbrev camera : PubSocket
camera = record {
  name = codes "camera";
  port = 5556;
  topic_prefix = codes "camera.";
  sndhwm = latest_wins_sndhwm;
  heartbeat = false;
}

abbrev two_sockets : List PubSocket
two_sockets = events ∷ camera ∷ []

construct_iff_example : (construct two_sockets ≡ ok (fresh two_sockets)) ↔ IsUnambiguous two_sockets
construct_iff_example = construct_iff events (camera ∷ [])

two_sockets_accepted : construct two_sockets ≡ ok (fresh two_sockets)
unfolding construct distinct ambiguous_pair sorted starts_with text_beq text_le refuse
two_sockets_accepted = refl

two_sockets-IsText : All IsText (prefixes two_sockets)
two_sockets-IsText = omega arith

abbrev frame_topic : List ℕ
frame_topic = codes "camera.left"

route-construct_example : route two_sockets frame_topic ≡ some camera
unfolding starts_with encode encode_char
route-construct_example =
    route-construct two_sockets (events ∷ []) camera [] (fresh two_sockets) frame_topic
      two_sockets_accepted refl two_sockets-IsText refl

abbrev can_bind_all : PubSocket → Bool
can_bind_all _ = true

abbrev up : BasePublisher
up = record (fresh two_sockets) { running = true; ready = true; xpubs = two_sockets }

start-Binds_example : start can_bind_all (fresh two_sockets) ≡ (ok tt, up)
unfolding fresh
start-Binds_example = start-Binds can_bind_all (fresh two_sockets) refl refl (refl, (refl, tt))

abbrev camera_port_taken : PubSocket → Bool
camera_port_taken s = if text_beq s.name (codes "camera") then false else true

start-start_example :
    let q = start camera_port_taken (fresh two_sockets) in
    (q.0 ≡ err (bind_failed camera))
    × (q.1.xpubs ≡ [])
    × (q.1.running ≡ false)
    × (start can_bind_all q.1 ≡ start can_bind_all (fresh two_sockets))
unfolding fresh text_beq
start-start_example =
    start-start camera_port_taken can_bind_all (fresh two_sockets) (events ∷ []) camera [] refl refl
      refl (refl, tt) refl

-- Two subscriptions and one unsubscription on `events`, one subscription on `camera`.
abbrev some_frames : Notices
some_frames =
    (codes "events", 1 ∷ [])
    ∷ (codes "camera", 1 ∷ [])
    ∷ (codes "events", 1 ∷ b'x' ∷ [])
    ∷ (codes "events", 0 ∷ [])
    ∷ []

has_subscribers-receive_example :
    has_subscribers (receive up some_frames) (codes "events")
    ≡ some (ltb (unsubs (codes "events") some_frames) (0 + subs (codes "events") some_frames))
unfolding fresh lookup text_beq verb_of
has_subscribers-receive_example =
    has_subscribers-receive some_frames up (codes "events") 0 refl (omega arith)

send_due_heartbeats-due_beats_example :
    let r = send_due_heartbeats can_bind_all 20000 [] up in
    (r.0 ≡ due_beats can_bind_all 20000 [] up two_sockets)
    × (lookup (codes "events") r.1.last_heartbeat
        ≡ (if beats can_bind_all 20000 [] up events then some 20000 else none))
unfolding fresh text_beq lookup
send_due_heartbeats-due_beats_example =
    send_due_heartbeats-due_beats can_bind_all 20000 [] up [] events (camera ∷ []) refl
      (((refl, tt), (tt, tt)))

abbrev message : Wake
message = record {
  frames = some (frame_topic ∷ (1 ∷ 2 ∷ []) ∷ []);
  notices = λ _. none;
  now = 20000;
  heartbeat_payload = [];
}

owner_pass-message_example :
    (q : BasePublisher) × (owner_pass can_bind_all message up
      ≡ continues
          ((camera, frame_topic ∷ (1 ∷ 2 ∷ []) ∷ [])
            ∷ due_beats can_bind_all message.now message.heartbeat_payload up two_sockets)
          q)
    × SameSockets up q
unfolding fresh starts_with encode encode_char
owner_pass-message_example =
    owner_pass-message two_sockets (events ∷ []) camera [] (fresh two_sockets) up can_bind_all
      message frame_topic (1 ∷ 2 ∷ []) two_sockets_accepted refl refl two_sockets-IsText refl refl
      refl

abbrev malformed : Wake
malformed = record message { frames = some (frame_topic ∷ []) }
