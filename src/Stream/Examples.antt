-- ===== src/Stream/Examples.antt =====
-- One consumer of a stream server that sets a snapshot, and rounds of a consumer.
use r2_labs.Base.{◌+◌, ◌<◌, ◌≡◌, refl, true, [], ◌∷◌, none, some}
use r2_labs.Base.Text.{Text, text_eq, text_beq, codes}
use r2_labs.Base.Dict.{lookup, insert}
use r2_labs.Stream.Server.{
  init, set_snapshot_locked, set_dirty, handle_announcement, send_to, prune_departed_peers,
  prune_items, broadcast, broadcast_to, ready_frame,
}
use r2_labs.Stream.Steps.{
  polling, pruning, World, boot, note, stores, flags, wakes, answers, drains, prunes, clears,
  broadcasts, Reach, here, next,
}
use r2_labs.Stream.Freshness.{Reach-IsCurrent}
use r2_labs.Stream.Pruning.{keep_alive}
use r2_labs.Stream.Departed.{pruned_exactly}
use r2_labs.Stream.Client.{
  StreamClient, Round, round, rounds, begin, announce_interval, default_stale_after,
}
use r2_labs.Stream.Staleness.{
  follow, follow-rounds, round_announced, delivered, received, delivered-rounds,
}

abbrev arm_node : Text
arm_node = codes "stream-arm"

abbrev announced : World
announced = record boot { server = record init { peers = (arm_node, 100) ∷ [] }; phase = pruning }

announced_reached : Reach boot announced
unfolding boot init handle_announcement text_beq insert send_to note
announced_reached =
    next
      (next (next here (wakes refl refl))
        (answers none 100 (arm_node ∷ ready_frame ∷ []) refl refl))
      (drains none refl refl)

abbrev changed : World
changed = record {
  server = record init { peers = (arm_node, 100) ∷ []; snapshot = some (7 ∷ []) };
  setting = 0;
  phase = polling;
  seen = (arm_node, 7 ∷ []) ∷ [];
}

changed_reached : Reach boot changed
unfolding boot init set_snapshot_locked set_dirty prune_departed_peers prune_items broadcast
    broadcast_to note insert
changed_reached =
    next
      (next
        (next (next (next announced_reached (stores (7 ∷ []) refl)) (flags 0 refl refl))
          (prunes 200 refl refl))
        (clears refl refl refl))
      (broadcasts refl refl)

Reach-IsCurrent_example : lookup arm_node changed.seen ≡ some (7 ∷ [])
unfolding init lookup text_beq
Reach-IsCurrent_example = Reach-IsCurrent arm_node 100 changed_reached refl refl

pruned_exactly_example :
    lookup arm_node (prune_departed_peers 5101 changed.server).peers
    ≡ keep_alive 5101 (lookup arm_node changed.server.peers)
pruned_exactly_example = pruned_exactly 5101 arm_node changed_reached

abbrev quiet : Round
quiet = record { messages = none; received_at = 0; now = 2500 }

abbrev busy : Round
busy = record {
  messages = some (((1 ∷ []) ∷ []) ∷ [] ∷ ((2 ∷ []) ∷ (3 ∷ []) ∷ []) ∷ []);
  received_at = 40;
  now = 50;
}

abbrev listening : StreamClient
listening = (begin default_stale_after 0).0

follow-rounds_example :
    follow true (rounds (busy ∷ quiet ∷ []) listening).1
    ≡ some (rounds (busy ∷ quiet ∷ []) listening).0.is_stale
unfolding begin
follow-rounds_example = follow-rounds (busy ∷ quiet ∷ []) listening

round_announced_example : 2500 < (round quiet listening).0.last_announce + announce_interval
round_announced_example = round_announced quiet listening

delivered-rounds_example :
    delivered (rounds (busy ∷ quiet ∷ []) listening).1 ≡ received (busy ∷ quiet ∷ [])
delivered-rounds_example = delivered-rounds (busy ∷ quiet ∷ []) listening
