-- ===== src/Tickets/Motion.antt =====
-- sdk/client.py: `ColumnClient._submit_motion`. The task that the executor runs and the cancel
-- callbacks are threads that share `cancelled` and `ticket_holder`; `abandoned` lists the tickets
-- that `_abandon` asked the server to cancel.
use r2_labs.Base.{
  ℕ, suc, ◌≡◌, Bool, true, false, List, [], ◌∷◌, ◌++◌, Option, none, some, if◌then◌else◌,
}

-- Where `_run` stands: not begun, in the call of `initiate_fn`, with a ticket that is not stored,
-- with a stored ticket, in `wait_for_ticket`, or ended.
pub data Stage : Type 0 where
  queued initiating stored waiting ended : Stage
  granted : ℕ → Stage

-- `calling` counts the callbacks between the setting of `cancelled` and the reading of the ticket;
-- `server_ticket` is the ticket that the server gave the motion.
pub record Motion : Type 0 where
  pub stage : Stage
  pub cancelled : Bool
  pub ticket : Option ℕ
  pub calling : ℕ
  pub server_ticket : Option ℕ
  pub abandoned : List ℕ

unfoldable pub submitted : Motion
submitted = record {
  stage = queued;
  cancelled = false;
  ticket = none;
  calling = 0;
  server_ticket = none;
  abandoned = [];
}

-- `_cancel_callback`, in two parts: what other threads do may fall between them.
unfoldable pub callback_sets : Motion → Motion
callback_sets m = record m { cancelled = true; calling = suc m.calling }

unfoldable pub abandon : Option ℕ → List ℕ → List ℕ
abandon none calls = calls
abandon (some t) calls = calls ++ t ∷ []

unfoldable pub callback_reads : ℕ → Motion → Motion
unfolding abandon
callback_reads others m = record m { calling = others; abandoned = abandon m.ticket m.abandoned }

-- `_run`, step by step: the first test, the server's answer (`none` is an exception or a refusal),
-- the storing of the ticket, and the second test.
unfoldable pub run_begins : Motion → Motion
run_begins m = record m { stage = if m.cancelled then ended else initiating }

unfoldable pub run_answered : Option ℕ → Motion → Motion
run_answered none m = record m { stage = ended }
run_answered (some t) m = record m { stage = granted t; server_ticket = some t }

unfoldable pub run_stores : ℕ → Motion → Motion
run_stores t m = record m { stage = stored; ticket = some t }

unfoldable pub run_checks : Motion → Motion
unfolding abandon
run_checks m = record m {
  stage = waiting;
  abandoned = if m.cancelled then abandon m.server_ticket m.abandoned else m.abandoned;
}

unfoldable pub run_ends : Motion → Motion
run_ends m = record m { stage = ended }

pub data Step (m m' : Motion) : Type 0 where
  sets : m' ≡ callback_sets m → Step m m'
  reads : (others : ℕ) → m.calling ≡ suc others → m' ≡ callback_reads others m → Step m m'
  begins : m.stage ≡ queued → m' ≡ run_begins m → Step m m'
  answered : (o : Option ℕ) → m.stage ≡ initiating → m' ≡ run_answered o m → Step m m'
  stores : (t : ℕ) → m.stage ≡ granted t → m' ≡ run_stores t m → Step m m'
  checks : m.stage ≡ stored → m' ≡ run_checks m → Step m m'
  ends : m.stage ≡ waiting → m' ≡ run_ends m → Step m m'

pub data Reach (s : Motion) : Motion → Type 0 where
  here : Reach s s
  next : {m m' : Motion} → Reach s m → Step m m' → Reach s m'
