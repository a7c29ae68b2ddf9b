-- ===== src/Publisher/Presence.antt =====
-- Subscriber presence over any sequence of subscription frames.
use r2_labs.Base.{
  ℕ, ◌+◌, ◌-◌, ◌≤◌, ◌≡◌, refl, Bool, true, false, List, [], ◌∷◌, Option, none, some, arith,
  if◌then◌else◌, ltb,
}
use r2_labs.Base.Dict.{lookup, lookup-insert}
use r2_labs.Base.Text.{Text, text_eq, text_beq, text_beq_iff}
use r2_labs.Publisher.Start.{BasePublisher, has_subscribers}
use r2_labs.Publisher.Owner.{
  Verb, subscribe, unsubscribe, other, verb_of, moved, bump, on_subscription,
}

-- Subscription frames, each with the name of the socket that it arrived on.
abbrev pub Notices : Type 0
Notices = List (Text × List ℕ)

pub receive : BasePublisher → Notices → BasePublisher
receive p [] = p
receive p ((name, frame) ∷ ns) = receive (on_subscription p name frame) ns

abbrev pub is_sub : Verb → ℕ
is_sub subscribe = 1
is_sub unsubscribe = 0
is_sub other = 0

abbrev pub is_unsub : Verb → ℕ
is_unsub unsubscribe = 1
is_unsub subscribe = 0
is_unsub other = 0

-- The subscriptions and the unsubscriptions that arrived on a socket.
pub subs : Text → Notices → ℕ
subs name [] = 0
subs name ((j, frame) ∷ ns) = (if text_beq j name then is_sub (verb_of frame) else 0) + subs name ns

pub unsubs : Text → Notices → ℕ
unsubs name [] = 0
unsubs name ((j, frame) ∷ ns) =
    (if text_beq j name then is_unsub (verb_of frame) else 0) + unsubs name ns

-- No socket unsubscribes more often than it subscribed, counting the `n` it began with.
abbrev pub IsNested : Text → ℕ → Notices → Type 0
IsNested name n [] = Unit
IsNested name n ((j, frame) ∷ ns) =
    ((if text_beq j name then is_unsub (verb_of frame) else 0) ≤ n)
    × IsNested name
        (n
          + (if text_beq j name then is_sub (verb_of frame) else 0)
          - (if text_beq j name then is_unsub (verb_of frame) else 0))
        ns

lookup-bump :
    (v : Verb) (j name : Text) (n : ℕ) (o : Option ℕ) (d : List (Text × ℕ))
    → lookup j d ≡ o
    → lookup name d ≡ some n
    → lookup name (bump v j o d) ≡ some (if text_beq j name then moved v n else n)
unfolding bump moved
lookup-bump other j name n o d e h = ground arith
lookup-bump subscribe j name n none d e h = ground (arith, text_beq_iff j name)
lookup-bump unsubscribe j name n none d e h = ground (arith, text_beq_iff j name)
lookup-bump subscribe j name n (some m) d e h =
    ground (arith, text_beq_iff j name, lookup-insert j name (m + 1) d)
lookup-bump unsubscribe j name n (some m) d e h =
    ground (arith, text_beq_iff j name, lookup-insert j name (m - 1) d)

lookup-on_subscription :
    (p : BasePublisher) (j name : Text) (frame : List ℕ) (n : ℕ)
    → lookup name p.presence ≡ some n
    → lookup name (on_subscription p j frame).presence
      ≡ some (if text_beq j name then moved (verb_of frame) n else n)
unfolding on_subscription
lookup-on_subscription p j name frame n h =
    lookup-bump (verb_of frame) j name n (lookup j p.presence) p.presence refl h

moved_counts :
    (b : Bool) (v : Verb) (n : ℕ)
    → (if b then moved v n else n) ≡ n + (if b then is_sub v else 0) - (if b then is_unsub v else 0)
unfolding moved
moved_counts true subscribe n = omega arith
moved_counts true unsubscribe n = omega arith
moved_counts true other n = omega arith
moved_counts false v n = omega arith

presence-receive :
    (ns : Notices) (p : BasePublisher) (name : Text) (n : ℕ)
    → lookup name p.presence ≡ some n
    → IsNested name n ns
    → (m : ℕ) × (lookup name (receive p ns).presence ≡ some m)
      × (m + unsubs name ns ≡ n + subs name ns)
unfolding receive subs unsubs
presence-receive [] p name n h k = (n, h, refl)
presence-receive ((j, frame) ∷ ns) p name n h k =
    let e = lookup-on_subscription p j name frame n h in
    let c = moved_counts (text_beq j name) (verb_of frame) n in
    let (m, l, q) = presence-receive ns (on_subscription p j frame) name _ (rw c at e) k.1 in
    (m, l, omega (arith, q, k.0))

-- After any sequence of frames on any sockets, `has_subscribers` is true of a socket exactly if it
-- has more subscriptions, with those it began with, than unsubscriptions, provided that at no
-- point it had been unsubscribed more often than subscribed.
pub has_subscribers-receive :
    (ns : Notices) (p : BasePublisher) (name : Text) (n : ℕ)
    → lookup name p.presence ≡ some n
    → IsNested name n ns
    → has_subscribers (receive p ns) name ≡ some (ltb (unsubs name ns) (n + subs name ns))
unfolding has_subscribers
has_subscribers-receive ns p name n h k =
    let (m, l, q) = presence-receive ns p name n h k in rw (l, has_subscribers) (ground (arith, q))
