-- ===== src/Publisher/Lifecycle.antt =====
-- Starting, failing to start, stopping and starting again.
use r2_labs.Base.{◌≡◌, refl, Bool, true, false, List, [], ◌∷◌, ◌++◌, none, some, arith, All}
use mathlib.Core.List.{append_assoc, append-nil}
use r2_labs.Publisher.Start.{
  PubSocket, BasePublisher, ok, err, bind_failed, bind_all, bound_or_failed, finish_start,
  close_sockets, zero_presence, start,
}

abbrev Binds : (PubSocket → Bool) → PubSocket → Type 0
Binds can_bind s = can_bind s ≡ true

bind_all-All :
    (can_bind : PubSocket → Bool) (bound ss : List PubSocket)
    → All (Binds can_bind) ss
    → bind_all can_bind bound ss ≡ (bound ++ ss, none)
unfolding bind_all
bind_all-All can_bind bound [] h = rw append-nil
bind_all-All can_bind bound (s ∷ ss) h =
    rw (h.0, bind_all-All can_bind (bound ++ s ∷ []) ss h.1, append_assoc)

bind_all-some :
    (can_bind : PubSocket → Bool) (bound before : List PubSocket) (s : PubSocket)
    (after : List PubSocket)
    → All (Binds can_bind) before
    → can_bind s ≡ false
    → (bind_all can_bind bound (before ++ s ∷ after)).1 ≡ some s
unfolding bind_all
bind_all-some can_bind bound [] s after h e = rw e
bind_all-some can_bind bound (b ∷ before) s after h e =
    rw h.0 (bind_all-some can_bind (bound ++ b ∷ []) before s after h.1 e)

-- A publisher that is not running, whatever its history, starts clean if every socket binds: all
-- sockets are bound in order, every presence count is zero and no heartbeat is remembered.
pub start-Binds :
    (can_bind : PubSocket → Bool) (p : BasePublisher)
    → p.running ≡ false
    → p.xpubs ≡ []
    → All (Binds can_bind) p.sockets
    → start can_bind p ≡ (
      ok tt,
      record {
        sockets = p.sockets;
        running = true;
        stop_flag = false;
        ready = true;
        presence = zero_presence p.sockets;
        xpubs = p.sockets;
        startup_error = none;
        last_heartbeat = [];
      },
    )
unfolding start
start-Binds can_bind p r x h =
    rw (r, x, bind_all-All can_bind [] p.sockets h) (unfold bound_or_failed finish_start in refl)

-- If a socket cannot be bound, `start` raises for the first such socket, every socket is closed
-- again, and a later `start` does what it would have done without the failure.
pub start-start :
    (can_bind then_bind : PubSocket → Bool) (p : BasePublisher) (before : List PubSocket)
    (s : PubSocket) (after : List PubSocket)
    → p.running ≡ false
    → p.xpubs ≡ []
    → p.sockets ≡ before ++ s ∷ after
    → All (Binds can_bind) before
    → can_bind s ≡ false
    → let q = start can_bind p in
      (q.0 ≡ err (bind_failed s))
      × (q.1.xpubs ≡ [])
      × (q.1.running ≡ false)
      × (start then_bind q.1 ≡ start then_bind p)
unfolding start bound_or_failed finish_start close_sockets
start-start can_bind then_bind p before s after r x e h f =
    ground (arith, bind_all-some can_bind [] before s after h f)
