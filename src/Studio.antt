-- ===== src/Studio.antt =====
-- examples/scripts/training_ui/app.py: the connection that the page's endpoints share. Each endpoint
-- runs on one event loop and gives way only where it awaits, so an endpoint is a sequence of parts, and
-- the parts of several requests may follow each other in any order. A client is known by its number.
use r2_labs.Base.{
  ℕ, Bool, true, false, not, ◌&&◌, ◌||◌, List, [], ◌∷◌, ◌++◌, ◌≡◌, Option, none, some,
  if◌then◌else◌, is_some,
}
use r2_labs.Base.Text.{Text, codes}
pub mod Paired
pub mod Export
pub mod Exported
mod Examples

-- A request that waits: for its new client, for the server's answer to the reset of the skill trainer
-- or of the progress trainer, or for the fresh client after these.
pub data Waiting : Type 0 where
  connecting resetting_skill resetting_progress renewing : Text → Waiting

pub data Reply : Type 0 where
  success : Text → Reply
  disconnected not_connected : Reply
  failure : Reply

pub record Studio : Type 0 where
  pub trainer : Option ℕ
  pub progress_trainer : Option ℕ
  pub server_address : Option Text
  pub requests : List Waiting
  pub replies : List Reply

unfoldable pub start : Studio
start = record {
  trainer = none;
  progress_trainer = none;
  server_address = none;
  requests = [];
  replies = [];
}

abbrev pub answer : Reply → Studio → Studio
answer r s = record s { replies = s.replies ++ r ∷ [] }

abbrev pub await : Waiting → Studio → Studio
await w s = record s { requests = s.requests ++ w ∷ [] }

unfoldable pub connect : Text → Studio → Studio
connect addr s = await (connecting addr) s

-- The rest of `connect`: the new client, none where its constructor or the status call raised.
unfoldable pub connect_ends : Text → Option ℕ → Studio → Studio
connect_ends addr (some c) s =
    answer (success addr)
      (record s { trainer = some c; progress_trainer = some c; server_address = some addr })
connect_ends addr none s = answer failure (record s { trainer = none })

unfoldable pub disconnect : Studio → Studio
disconnect s =
    answer disconnected
      (record s { trainer = none; progress_trainer = none; server_address = none })

-- Both trainers are dropped, and the fresh client is made.
unfoldable pub destroy_trainers : Text → Studio → Studio
destroy_trainers addr s =
    await (renewing addr) (record s { trainer = none; progress_trainer = none })

unfoldable pub reset_progress : Text → Studio → Studio
unfolding destroy_trainers
reset_progress addr s =
    if is_some s.progress_trainer
    then await (resetting_progress addr) s
    else destroy_trainers addr s

unfoldable pub reset_skill : Text → Studio → Studio
unfolding reset_progress
reset_skill addr s =
    if is_some s.trainer then await (resetting_skill addr) s else reset_progress addr s

-- `hard_reset` up to its first await.
unfoldable pub hard_reset : Studio → Studio
unfolding reset_skill
hard_reset s = elim s.server_address [
  | none ↦ answer not_connected s
  | some addr ↦
      if is_some s.trainer || is_some s.progress_trainer
      then reset_skill addr s
      else answer not_connected s
]

-- The rest of `hard_reset` once the fresh client is there; none where something raised.
unfoldable pub renewed : Text → Option ℕ → Studio → Studio
renewed addr (some c) s =
    answer (success addr) (record s { trainer = some c; progress_trainer = some c })
renewed addr none s = answer failure (record s { trainer = none; server_address = none })

-- What a request does when its await is over. The resets' own failures are only printed.
unfoldable pub resume : Waiting → Option ℕ → Studio → Studio
unfolding connect_ends reset_progress destroy_trainers renewed
resume (connecting addr) o s = connect_ends addr o s
resume (resetting_skill addr) o s = reset_progress addr s
resume (resetting_progress addr) o s = destroy_trainers addr s
resume (renewing addr) o s = renewed addr o s

-- What the event loop runs next.
pub data Step (s s' : Studio) : Type 0 where
  connects : (addr : Text) → s' ≡ connect addr s → Step s s'
  disconnects : s' ≡ disconnect s → Step s s'
  resets : s' ≡ hard_reset s → Step s s'
  resumes :
      (before after : List Waiting) (w : Waiting) (o : Option ℕ)
      → s.requests ≡ before ++ w ∷ after
      → s' ≡ resume w o (record s { requests = before ++ after })
      → Step s s'

pub data Reach : Studio → Type 0 where
  here : Reach start
  next : {s s' : Studio} → Reach s → Step s s' → Reach s'
