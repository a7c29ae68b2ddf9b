-- ===== src/Publisher/Forwarding.antt =====
-- One pass of the owner thread's loop over a message, end to end.
use r2_labs.Base.{
  ℕ, ◌≡◌, refl, sym, subst, ap, ◌∙◌, Bool, true, ◌&&◌, List, [], ◌∷◌, ◌++◌, Option, none, some,
  arith, All, if◌then◌else◌,
}
use r2_labs.Base.Order.{AllPairs}
use r2_labs.Base.Dict.{lookup, insert}
use r2_labs.Base.Text.{Text, text_eq, IsText, starts_with, encode}
use r2_labs.Publisher.Start.{PubSocket, BasePublisher, ok, names, prefixes, construct}
use r2_labs.Publisher.Owner.{
  Sent, Wake, continues, on_subscription, take_notices, send_due, send_due_heartbeats,
  after_forward, forward_to, forward, owner_pass, route, is_due,
}
use r2_labs.Publisher.Routing.{Differ, construct_sound, route-construct}
use r2_labs.Publisher.Heartbeats.{due_beats, sent-send_due}

-- The parts of a publisher that no pass of the loop changes while it goes on.
abbrev pub SameSockets : BasePublisher → BasePublisher → Type 0
SameSockets p q = (q.xpubs ≡ p.xpubs) × (q.sockets ≡ p.sockets) × (q.running ≡ p.running)

take_notices-SameSockets :
    (notices : Text → Option (List ℕ)) (ss : List PubSocket) (p : BasePublisher)
    → SameSockets p (take_notices notices ss p)
unfolding take_notices on_subscription
take_notices-SameSockets notices [] p = (refl, refl, refl)
take_notices-SameSockets notices (s ∷ ss) p =
    let q : BasePublisher = elim (notices s.name) [
      | none ↦ p
      | some frame ↦ on_subscription p s.name frame
    ] in
    ground (arith, take_notices-SameSockets notices ss q)

send_due-SameSockets :
    (sends : PubSocket → Bool) (now : ℕ) (payload : List ℕ) (ss : List PubSocket)
    (p : BasePublisher)
    → SameSockets p (send_due sends now payload ss p).1
unfolding send_due
send_due-SameSockets sends now payload [] p = (refl, refl, refl)
send_due-SameSockets sends now payload (s ∷ ss) p =
    let sent = s.heartbeat && is_due (lookup s.name p.last_heartbeat) now && sends s in
    let p' : BasePublisher =
      if sent then record p { last_heartbeat = insert s.name now p.last_heartbeat } else p in
    ground (arith, send_due-SameSockets sends now payload ss p')

take_notices-last_heartbeat :
    (notices : Text → Option (List ℕ)) (ss : List PubSocket) (p : BasePublisher)
    → (take_notices notices ss p).last_heartbeat ≡ p.last_heartbeat
unfolding take_notices on_subscription
take_notices-last_heartbeat notices [] p = refl
take_notices-last_heartbeat notices (s ∷ ss) p =
    let q : BasePublisher = elim (notices s.name) [
      | none ↦ p
      | some frame ↦ on_subscription p s.name frame
    ] in
    ground (arith, take_notices-last_heartbeat notices ss q)

-- Which sockets are due depends on the times of the last beats only.
due_beats-last_heartbeat :
    (sends : PubSocket → Bool) (now : ℕ) (payload : List ℕ) (p q : BasePublisher)
    (ss : List PubSocket)
    → q.last_heartbeat ≡ p.last_heartbeat
    → due_beats sends now payload q ss ≡ due_beats sends now payload p ss
unfolding due_beats
due_beats-last_heartbeat sends now payload p q [] h = refl
due_beats-last_heartbeat sends now payload p q (s ∷ ss) h =
    rw (h, due_beats-last_heartbeat sends now payload p q ss h)

after_forward_lem :
    (sends : PubSocket → Bool) (w : Wake) (sent : List Sent) (p : BasePublisher)
    → AllPairs Differ (names p.xpubs)
    → (q : BasePublisher) × (after_forward sends w sent p
        ≡ continues (sent ++ due_beats sends w.now w.heartbeat_payload p p.xpubs) q)
      × SameSockets p q
unfolding after_forward send_due_heartbeats
after_forward_lem sends w sent p u =
    let n = take_notices w.notices p.xpubs p in
    let d = send_due sends w.now w.heartbeat_payload n.xpubs n in
    let a = take_notices-SameSockets w.notices p.xpubs p in
    let b = send_due-SameSockets sends w.now w.heartbeat_payload n.xpubs n in
    let due : d.0 ≡ due_beats sends w.now w.heartbeat_payload p p.xpubs =
      sent-send_due sends w.now w.heartbeat_payload n.xpubs n
        (subst (λ xs. AllPairs Differ (names xs)) (sym (a.0)) u)
      ∙ ap (due_beats sends w.now w.heartbeat_payload n) a.0
      ∙ due_beats-last_heartbeat sends w.now w.heartbeat_payload p n p.xpubs
          (take_notices-last_heartbeat w.notices p.xpubs p) in
    (d.1, ap (λ x. continues (sent ++ x) d.1) due, (b.0 ∙ a.0, b.1 ∙ a.1, b.2 ∙ a.2))

forward_owned :
    (p : BasePublisher) (s : PubSocket) (sends : PubSocket → Bool) (w : Wake)
    (topic payload : List ℕ)
    → route p.xpubs topic ≡ some s
    → sends s ≡ true
    → forward (some (topic ∷ payload ∷ [])) sends w p
      ≡ after_forward sends w ((s, topic ∷ payload ∷ []) ∷ []) p
unfolding forward forward_to
forward_owned p s sends w topic payload r a = rw (r, forward_to) (rw a)

-- On sockets that the constructor accepted, a pass over a two-frame message whose topic starts with a
-- socket's prefix sends exactly the message, unchanged, on that socket, if the socket accepts the
-- send, and then one heartbeat, with the socket's heartbeat topic and the wake's payload, on each
-- socket that is due, in order; and the loop goes on with the same sockets.
pub owner_pass-message :
    (ss before : List PubSocket) (s : PubSocket) (after : List PubSocket) (c p : BasePublisher)
    (sends : PubSocket → Bool) (w : Wake) (topic payload : List ℕ)
    → construct ss ≡ ok c
    → p.xpubs ≡ ss
    → ss ≡ before ++ s ∷ after
    → All IsText (prefixes ss)
    → starts_with topic (encode s.topic_prefix) ≡ true
    → w.frames ≡ some (topic ∷ payload ∷ [])
    → sends s ≡ true
    → (q : BasePublisher) × (owner_pass sends w p
        ≡ continues ((s, topic ∷ payload ∷ []) ∷ due_beats sends w.now w.heartbeat_payload p ss) q)
      × SameSockets p q
unfolding owner_pass
owner_pass-message ss before s after c p sends w topic payload k x e t h f a =
    let r = ap (λ xs. route xs topic) x ∙ route-construct ss before s after c topic k e t h in
    let d = subst (λ xs. AllPairs Differ (names xs)) (sym x) (construct_sound ss c k).0 in
    let (q, y, m) = after_forward_lem sends w ((s, topic ∷ payload ∷ []) ∷ []) p d in
    (
      q,
      ap (λ o. forward o sends w p) f
          ∙ forward_owned p s sends w topic payload r a
          ∙ y
          ∙ ap
              (λ xs.
                continues
                  ((s, topic ∷ payload ∷ []) ∷ due_beats sends w.now w.heartbeat_payload p xs) q)
              x,
      m,
    )

forward-drops :
    (o : Option (List (List ℕ))) (p : BasePublisher) (sends : PubSocket → Bool) (w : Wake)
    → ((topic payload : List ℕ) → o ≡ some (topic ∷ payload ∷ []) → route p.xpubs topic ≡ none)
    → forward o sends w p ≡ after_forward sends w [] p
unfolding forward forward_to
forward-drops none p sends w h = refl
forward-drops (some []) p sends w h = refl
forward-drops (some (x ∷ [])) p sends w h = refl
forward-drops (some (x ∷ y ∷ [])) p sends w h = rw (h x y refl, forward_to)
forward-drops (some (x ∷ y ∷ z ∷ r)) p sends w h = refl

-- On sockets whose names differ, a message that has not two frames, or whose topic no socket matches,
-- is dropped: the pass sends the due heartbeats only, and the loop goes on with the same sockets.
pub owner_pass-drops :
    (p : BasePublisher) (sends : PubSocket → Bool) (w : Wake)
    → AllPairs Differ (names p.xpubs)
    → ((topic payload : List ℕ)
        → w.frames ≡ some (topic ∷ payload ∷ [])
        → route p.xpubs topic ≡ none)
    → (q : BasePublisher) × (owner_pass sends w p
        ≡ continues (due_beats sends w.now w.heartbeat_payload p p.xpubs) q)
      × SameSockets p q
unfolding owner_pass
owner_pass-drops p sends w d h =
    let (q, y, m) = after_forward_lem sends w [] p d in
    (q, forward-drops w.frames p sends w h ∙ y, m)
