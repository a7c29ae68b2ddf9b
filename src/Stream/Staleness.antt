-- ===== src/Stream/Staleness.antt =====
-- When a consumer counts as stale, and what it is told.
use r2_labs.Base.{
  ℕ, ◌+◌, ◌≡◌, ◌<◌, ◌∙◌, ap, refl, Bool, true, false, List, [], ◌∷◌, ◌++◌, Option, none, some,
  arith,
}
use mathlib.Core.List.{append-nil}
use r2_labs.Stream.Client.{
  StreamClient, Event, announces, live, goes_stale, delivers, Round, announce_interval, deliver,
  drain, receive_part, announce_part, stale_part, round, rounds,
}

-- A consumer that follows the calls: frames arrive only on a live stream, a stream goes live only
-- from stale and stale only from live. `none` is a call out of turn.
pub follow : Bool → List Event → Option Bool
follow stale [] = some stale
follow stale (announces ∷ es) = follow stale es
follow true (live ∷ es) = follow false es
follow false (live ∷ es) = none
follow true (goes_stale ∷ es) = none
follow false (goes_stale ∷ es) = follow true es
follow true (delivers f ∷ es) = none
follow false (delivers f ∷ es) = follow false es

follow-append :
    (es fs : List Event) (s t : Bool) → follow s es ≡ some t → follow s (es ++ fs) ≡ follow t fs
unfolding follow
follow-append [] fs s t h = ground arith
follow-append (announces ∷ es) fs s t h = follow-append es fs s t h
follow-append (live ∷ es) fs true t h = follow-append es fs false t h
follow-append (live ∷ es) fs false t h = cc
follow-append (goes_stale ∷ es) fs true t h = cc
follow-append (goes_stale ∷ es) fs false t h = follow-append es fs true t h
follow-append (delivers f ∷ es) fs true t h = cc
follow-append (delivers f ∷ es) fs false t h = follow-append es fs false t h

follow-deliver : (fs : List (List ℕ)) → follow false (deliver fs) ≡ some false
unfolding follow deliver
follow-deliver [] = refl
follow-deliver (f ∷ []) = refl
follow-deliver (f ∷ g ∷ fs) = follow-deliver (g ∷ fs)

follow-drain : (ms : List (List (List ℕ))) → follow false (drain ms) ≡ some false
unfolding drain
follow-drain [] = unfold follow in refl
follow-drain (m ∷ ms) =
    follow-append (deliver m) (drain ms) false false (follow-deliver m) ∙ follow-drain ms

follow-receive_part :
    (o : Option (List (List (List ℕ)))) (t : ℕ) (c : StreamClient)
    → follow c.is_stale (receive_part o t c).1 ≡ some (receive_part o t c).0.is_stale
unfolding receive_part follow
follow-receive_part none t c = refl
follow-receive_part (some ms) t c = ground (arith, follow-drain ms)

follow-announce_part :
    (now : ℕ) (c : StreamClient)
    → follow c.is_stale (announce_part now c).1 ≡ some (announce_part now c).0.is_stale
unfolding announce_part follow
follow-announce_part now c = ground arith

follow-stale_part :
    (now : ℕ) (c : StreamClient)
    → follow c.is_stale (stale_part now c).1 ≡ some (stale_part now c).0.is_stale
unfolding stale_part follow
follow-stale_part now c = ground arith

follow-round :
    (r : Round) (c : StreamClient) → follow c.is_stale (round r c).1 ≡ some (round r c).0.is_stale
unfolding round
follow-round r c =
    let p1 = receive_part r.messages r.received_at c in
    let p2 = announce_part r.now p1.0 in
    let p3 = stale_part r.now p2.0 in
    follow-append p1.1 (p2.1 ++ p3.1) c.is_stale p1.0.is_stale
      (follow-receive_part r.messages r.received_at c)
    ∙ follow-append p2.1 p3.1 p1.0.is_stale p2.0.is_stale (follow-announce_part r.now p1.0)
    ∙ follow-stale_part r.now p2.0

-- Over any rounds the calls are in turn: `on_snapshot` is called only while `is_stale` is false,
-- `on_stale` once for each time that the stream falls silent, and the last call agrees with
-- `is_stale`.
pub follow-rounds :
    (rs : List Round) (c : StreamClient)
    → follow c.is_stale (rounds rs c).1 ≡ some (rounds rs c).0.is_stale
unfolding rounds
follow-rounds [] c = unfold follow in refl
follow-rounds (r ∷ rs) c =
    follow-append (round r c).1 (rounds rs (round r c).0).1 c.is_stale (round r c).0.is_stale
      (follow-round r c)
    ∙ follow-rounds rs (round r c).0

-- After a round a stream that counts as live delivered less than `stale_after` ago.
pub round_live :
    (r : Round) (c : StreamClient)
    → (round r c).0.is_stale ≡ false
    → r.now < (round r c).0.last_recv + c.stale_after
unfolding round
round_live r c h = ground arith

-- After a round the last announcement is less than the announce interval old.
pub round_announced :
    (r : Round) (c : StreamClient) → r.now < (round r c).0.last_announce + announce_interval
unfolding round
round_announced r c = ground arith

-- The payloads handed to `on_snapshot`.
pub delivered : List Event → List (List ℕ)
delivered [] = []
delivered (delivers f ∷ es) = f ∷ delivered es
delivered (announces ∷ es) = delivered es
delivered (live ∷ es) = delivered es
delivered (goes_stale ∷ es) = delivered es

pub last_frames : List (List (List ℕ)) → List (List ℕ)
last_frames [] = []
last_frames ([] ∷ ms) = last_frames ms
last_frames ((f ∷ []) ∷ ms) = f ∷ last_frames ms
last_frames ((f ∷ g ∷ fs) ∷ ms) = last_frames ((g ∷ fs) ∷ ms)

pub received : List Round → List (List ℕ)
received [] = []
received (r ∷ rs) = (elim r.messages [ none ↦ [] | some ms ↦ last_frames ms ]) ++ received rs

delivered-append : (es fs : List Event) → delivered (es ++ fs) ≡ delivered es ++ delivered fs
unfolding delivered
delivered-append [] fs = refl
delivered-append (delivers f ∷ es) fs = ap (◌∷◌ f) (delivered-append es fs)
delivered-append (announces ∷ es) fs = delivered-append es fs
delivered-append (live ∷ es) fs = delivered-append es fs
delivered-append (goes_stale ∷ es) fs = delivered-append es fs

delivered-drain : (ms : List (List (List ℕ))) → delivered (drain ms) ≡ last_frames ms
unfolding drain deliver delivered last_frames
delivered-drain [] = refl
delivered-drain ([] ∷ ms) = delivered-drain ms
delivered-drain ((f ∷ []) ∷ ms) = ap (◌∷◌ f) (delivered-drain ms)
delivered-drain ((f ∷ g ∷ fs) ∷ ms) = delivered-drain ((g ∷ fs) ∷ ms)

delivered-receive_part :
    (o : Option (List (List (List ℕ)))) (t : ℕ) (c : StreamClient)
    → delivered (receive_part o t c).1 ≡ (elim o [ none ↦ [] | some ms ↦ last_frames ms ])
unfolding receive_part delivered
delivered-receive_part none t c = refl
delivered-receive_part (some ms) t c = ground (arith, delivered-drain ms)

delivered-announce_part : (now : ℕ) (c : StreamClient) → delivered (announce_part now c).1 ≡ []
unfolding announce_part delivered
delivered-announce_part now c = ground arith

delivered-stale_part : (now : ℕ) (c : StreamClient) → delivered (stale_part now c).1 ≡ []
unfolding stale_part delivered
delivered-stale_part now c = ground arith

-- Over any rounds `on_snapshot` gets the last frame of every non-empty message, in order of
-- arrival, none twice.
pub delivered-rounds :
    (rs : List Round) (c : StreamClient) → delivered (rounds rs c).1 ≡ received rs
unfolding rounds round received
delivered-rounds [] c = unfold delivered in refl
delivered-rounds (r ∷ rs) c =
    let p1 = receive_part r.messages r.received_at c in
    let p2 = announce_part r.now p1.0 in
    let p3 = stale_part r.now p2.0 in
    rw
      (
        delivered-append (p1.1 ++ (p2.1 ++ p3.1)) (rounds rs p3.0).1,
        delivered-append p1.1 (p2.1 ++ p3.1),
        delivered-append p2.1 p3.1,
        delivered-receive_part r.messages r.received_at c,
        delivered-announce_part r.now p1.0,
        delivered-stale_part r.now p2.0,
        delivered-rounds rs p3.0,
        append-nil,
      )
      refl
