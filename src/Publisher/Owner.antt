-- ===== src/Publisher/Owner.antt =====
-- rpc/publisher.py: what the owner thread does between two waits of its poller.
use r2_labs.Base.{
  ◌&&◌, ℕ, ◌+◌, ◌-◌, Bool, true, false, List, [], ◌∷◌, ◌++◌, Option, none, some, if◌then◌else◌, ltb,
  ◌==◌,
}
use r2_labs.Base.Text.{Text, text_eq, encode, starts_with}
use r2_labs.Base.Dict.{lookup, insert}
use r2_labs.Publisher.Start.{PubSocket, BasePublisher, heartbeat_topic}

-- HEARTBEAT_PERIOD_S
abbrev pub heartbeat_period : ℕ
heartbeat_period = 15000

-- `_route`; `none` is the KeyError.
unfoldable pub route : List PubSocket → List ℕ → Option PubSocket
route [] topic = none
route (s ∷ ss) topic = if starts_with topic (encode s.topic_prefix) then some s else route ss topic

-- A multipart message on a socket.
abbrev pub Sent : Type 0
Sent = PubSocket × List (List ℕ)

-- The first byte of a subscription frame: how the presence counter moves.
pub data Verb : Type 0 where
  subscribe unsubscribe other : Verb

unfoldable pub verb_of : List ℕ → Verb
verb_of [] = other
verb_of (b ∷ bs) = if b == 1 then subscribe else if b == 0 then unsubscribe else other

unfoldable pub moved : Verb → ℕ → ℕ
moved subscribe n = n + 1
moved unsubscribe n = n - 1
moved other n = n

unfoldable pub bump : Verb → Text → Option ℕ → List (Text × ℕ) → List (Text × ℕ)
bump other name n d = d
bump v name none d = d
bump v name (some n) d = insert name (moved v n) d

-- `_on_subscription`; every name that it is called with is a key of `_presence`.
unfoldable pub on_subscription : BasePublisher → Text → List ℕ → BasePublisher
unfolding moved bump verb_of
on_subscription p name frame = record p {
  presence = bump (verb_of frame) name (lookup name p.presence) p.presence;
}

unfoldable pub is_due : Option ℕ → ℕ → Bool
is_due none now = true
is_due (some last) now = if ltb (now - last) heartbeat_period then false else true

unfoldable pub beat : PubSocket → List ℕ → Sent
beat s payload = (s, encode (heartbeat_topic s) ∷ payload ∷ [])

-- The loop of `_send_due_heartbeats`; `sends` says which sends the socket accepts.
unfoldable pub send_due :
    (PubSocket → Bool) → ℕ → List ℕ → List PubSocket → BasePublisher → List Sent × BasePublisher
unfolding is_due beat
send_due sends now payload [] p = ([], p)
send_due sends now payload (s ∷ ss) p =
    let sent = s.heartbeat && is_due (lookup s.name p.last_heartbeat) now && sends s in
    let p' = if sent then record p { last_heartbeat = insert s.name now p.last_heartbeat } else p in
    let rest = send_due sends now payload ss p' in
    (if sent then beat s payload ∷ rest.0 else rest.0, rest.1)

unfoldable pub send_due_heartbeats :
    (PubSocket → Bool) → ℕ → List ℕ → BasePublisher → List Sent × BasePublisher
send_due_heartbeats sends now payload p = send_due sends now payload p.xpubs p

-- What one wake of the poller finds: a producer's frames, the subscription frames by socket, the
-- clock, and the pickled payload of a heartbeat.
pub record Wake : Type 0 where
  pub frames : Option (List (List ℕ))
  pub notices : Text → Option (List ℕ)
  pub now : ℕ
  pub heartbeat_payload : List ℕ

-- The loop goes on, or an exception of `send_multipart` ends it and the sockets are closed.
pub data Pass : Type 0 where
  continues : List Sent → BasePublisher → Pass
  ends : BasePublisher → Pass

-- The loop over the XPUBs that are ready.
unfoldable pub take_notices :
    (Text → Option (List ℕ)) → List PubSocket → BasePublisher → BasePublisher
take_notices notices [] p = p
take_notices notices (s ∷ ss) p =
    take_notices notices ss
      (elim (notices s.name) [ none ↦ p | some frame ↦ on_subscription p s.name frame ])

unfoldable pub after_forward : (PubSocket → Bool) → Wake → List Sent → BasePublisher → Pass
after_forward sends w sent p =
    let p' = take_notices w.notices p.xpubs p in
    let (beats, p'') = send_due_heartbeats sends w.now w.heartbeat_payload p' in
    continues (sent ++ beats) p''

unfoldable pub forward_to :
    Option PubSocket → (PubSocket → Bool) → Wake → List ℕ → List ℕ → BasePublisher → Pass
unfolding after_forward
forward_to none sends w topic payload p = after_forward sends w [] p
forward_to (some s) sends w topic payload p =
    if sends s
    then after_forward sends w ((s, topic ∷ payload ∷ []) ∷ []) p
    else ends (record p { xpubs = [] })

-- A message that has not two frames is dropped, and so is one that no socket matches.
unfoldable pub forward : Option (List (List ℕ)) → (PubSocket → Bool) → Wake → BasePublisher → Pass
unfolding after_forward forward_to
forward (some (topic ∷ payload ∷ [])) sends w p =
    forward_to (route p.xpubs topic) sends w topic payload p
forward _ sends w p = after_forward sends w [] p

-- The body of the loop in `_run`.
unfoldable pub owner_pass : (PubSocket → Bool) → Wake → BasePublisher → Pass
unfolding forward
owner_pass sends w p = forward w.frames sends w p
