-- ===== src/Publisher/Heartbeats.antt =====
-- When the owner thread beats, socket by socket.
use r2_labs.Base.{
  ℕ, ◌+◌, ◌<◌, ◌≡◌, refl, ◌∙◌, Bool, true, false, ◌&&◌, List, [], ◌∷◌, ◌++◌, Option, none, some,
  arith, if◌then◌else◌, inl, inr, Bool-cases, All,
}
use r2_labs.Base.Dict.{lookup, insert, lookup-insert, lookup-insert_self}
use r2_labs.Base.Order.{AllPairs}
use r2_labs.Base.Text.{Text, text_eq, text_beq_iff}
use r2_labs.Publisher.Start.{PubSocket, BasePublisher, names}
use r2_labs.Publisher.Owner.{Sent, beat, is_due, send_due, send_due_heartbeats, heartbeat_period}
use r2_labs.Publisher.Routing.{Differ}

Differ-symm : (a b : Text) → Differ a b → Differ b a
Differ-symm a b h = ground (arith, text_beq_iff a b, text_beq_iff b a)

All-names_at {κ} :
    (P : Text → Type κ) (before : List PubSocket) (s : PubSocket) (after : List PubSocket)
    → All P (names (before ++ s ∷ after))
    → P s.name
All-names_at P [] s after h = h.0
All-names_at P (b ∷ before) s after h = All-names_at P before s after h.1

module _ (sends : PubSocket → Bool) (now : ℕ) (payload : List ℕ) where
  -- A socket that beats at this wake, given the times of the last beats.
  abbrev pub beats : BasePublisher → PubSocket → Bool
  beats p s = s.heartbeat && is_due (lookup s.name p.last_heartbeat) now && sends s

  unfoldable pub due_beats : BasePublisher → List PubSocket → List Sent
  due_beats p [] = []
  due_beats p (s ∷ ss) = if beats p s then beat s payload ∷ due_beats p ss else due_beats p ss

  abbrev marked : BasePublisher → PubSocket → BasePublisher
  marked p s =
      if beats p s then record p { last_heartbeat = insert s.name now p.last_heartbeat } else p

  lookup-marked :
      (p : BasePublisher) (s : PubSocket) (j : Text)
      → Differ s.name j
      → lookup j (marked p s).last_heartbeat ≡ lookup j p.last_heartbeat
  lookup-marked p s j d = elim (Bool-cases (beats p s)) [
    | inl e ↦ rw (e, lookup-insert, d)
    | inr e ↦ rw e
  ]

  marked_self :
      (p : BasePublisher) (s : PubSocket)
      → lookup s.name (marked p s).last_heartbeat
        ≡ (if beats p s then some now else lookup s.name p.last_heartbeat)
  marked_self p s = elim (Bool-cases (beats p s)) [
    | inl e ↦ rw (e, lookup-insert_self)
    | inr e ↦ rw e
  ]

  due_beats-marked :
      (p : BasePublisher) (s : PubSocket) (ss : List PubSocket)
      → All (Differ s.name) (names ss)
      → due_beats (marked p s) ss ≡ due_beats p ss
  unfolding due_beats
  due_beats-marked p s [] d = refl
  due_beats-marked p s (x ∷ ss) d =
      ground (arith, lookup-marked p s x.name d.0, due_beats-marked p s ss d.1)

  pub sent-send_due :
      (ss : List PubSocket) (p : BasePublisher)
      → AllPairs Differ (names ss)
      → (send_due sends now payload ss p).0 ≡ due_beats p ss
  unfolding send_due due_beats
  sent-send_due [] p d = refl
  sent-send_due (s ∷ ss) p d =
      ground (arith, due_beats-marked p s ss d.0, sent-send_due ss (marked p s) d.1)

  kept-send_due :
      (ss : List PubSocket) (p : BasePublisher) (j : Text)
      → All (Differ j) (names ss)
      → lookup j (send_due sends now payload ss p).1.last_heartbeat ≡ lookup j p.last_heartbeat
  unfolding send_due
  kept-send_due [] p j d = refl
  kept-send_due (s ∷ ss) p j d =
      kept-send_due ss (marked p s) j d.1 ∙ lookup-marked p s j (Differ-symm j s.name d.0)

  last-send_due :
      (before : List PubSocket) (s : PubSocket) (after : List PubSocket) (p : BasePublisher)
      → AllPairs Differ (names (before ++ s ∷ after))
      → lookup s.name (send_due sends now payload (before ++ s ∷ after) p).1.last_heartbeat
        ≡ (if beats p s then some now else lookup s.name p.last_heartbeat)
  unfolding send_due
  last-send_due [] s after p d = kept-send_due after (marked p s) s.name d.0 ∙ marked_self p s
  last-send_due (b ∷ before) s after p d =
      let e = lookup-marked p b s.name (All-names_at (Differ b.name) before s after d.0) in
      ground (arith, e, last-send_due before s after (marked p b) d.1)

  -- At each wake exactly the due sockets beat, once each and in order, each decision resting on the
  -- times before the wake: a socket is due if it opted in, has never beaten or beat at least 15 s
  -- ago, and its send succeeds. A socket that beats has the wake's time as its last, any other
  -- keeps the last it had.
  pub send_due_heartbeats-due_beats :
      (p : BasePublisher) (before : List PubSocket) (s : PubSocket) (after : List PubSocket)
      → p.xpubs ≡ before ++ s ∷ after
      → AllPairs Differ (names p.xpubs)
      → let r = send_due_heartbeats sends now payload p in
        (r.0 ≡ due_beats p p.xpubs)
        × (lookup s.name r.1.last_heartbeat
            ≡ (if beats p s then some now else lookup s.name p.last_heartbeat))
  unfolding send_due_heartbeats
  send_due_heartbeats-due_beats p before s after x d =
      (sent-send_due p.xpubs p d, simp x (last-send_due before s after p (rw x at d)))

  fresh_after :
      (o : Option ℕ) (beats_now : Bool)
      → beats_now ≡ is_due o now
      → (u : ℕ) × ((if beats_now then some now else o) ≡ some u) × (now < u + heartbeat_period)
  unfolding is_due
  fresh_after none b e = (now, ground arith, omega arith)
  fresh_after (some t) true e = (now, refl, omega arith)
  fresh_after (some t) false e = (t, refl, ground arith)

  -- After a wake, every opted-in socket whose sends succeed has a last beat less than 15 s old.
  pub last_beat_fresh :
      (p : BasePublisher) (before : List PubSocket) (s : PubSocket) (after : List PubSocket)
      → p.xpubs ≡ before ++ s ∷ after
      → AllPairs Differ (names p.xpubs)
      → s.heartbeat ≡ true
      → sends s ≡ true
      → (u : ℕ) × (lookup s.name (send_due_heartbeats sends now payload p).1.last_heartbeat
          ≡ some u)
        × (now < u + heartbeat_period)
  last_beat_fresh p before s after x d h k =
      let (u, e, l) = fresh_after (lookup s.name p.last_heartbeat) (beats p s) (ground arith) in
      (u, (send_due_heartbeats-due_beats p before s after x d).1 ∙ e, l)
