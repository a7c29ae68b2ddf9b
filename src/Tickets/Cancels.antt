-- ===== src/Tickets/Cancels.antt =====
-- A cancellation of a column motion is not lost, wherever it falls.
use r2_labs.Base.{
  ℕ, ◌≡◌, refl, ◌⊎◌, inl, inr, Bool-cases, Bool, true, false, ◌||◌, List, [], ◌∷◌, Option, none,
  some, arith, ◌==◌,
}
use r2_labs.Tickets.Motion.{
  Stage, queued, initiating, stored, waiting, ended, granted, Motion, submitted, callback_sets,
  callback_reads, abandon, run_begins, run_answered, run_stores, run_checks, run_ends, Step, sets,
  reads, begins, answered, stores, checks, ends, Reach, here, next,
}

abbrev pub is_in : ℕ → List ℕ → Bool
is_in t [] = false
is_in t (x ∷ xs) = x == t || is_in t xs

pub is_in-abandon : (t : ℕ) (calls : List ℕ) → is_in t (abandon (some t) calls) ≡ true
unfolding abandon
is_in-abandon t [] = ground arith
is_in-abandon t (x ∷ calls) = ground (arith, is_in-abandon t calls)

-- The stages from which a motion may have a ticket, and those past the second test.
abbrev before_ticket : Stage → Bool
before_ticket queued = true
before_ticket initiating = true
before_ticket (granted t) = false
before_ticket stored = false
before_ticket waiting = false
before_ticket ended = false

abbrev pub past_check : Stage → Bool
past_check queued = false
past_check initiating = false
past_check (granted t) = false
past_check stored = false
past_check waiting = true
past_check ended = true

record IsHeard (m : Motion) : Type 0 where
  none_before : before_ticket m.stage ≡ true → m.server_ticket ≡ none
  given : (t : ℕ) → m.stage ≡ granted t → m.server_ticket ≡ some t
  kept : m.stage ≡ stored → m.ticket ≡ m.server_ticket
  kept_after : past_check m.stage ≡ true → m.ticket ≡ m.server_ticket
  heard :
      (t : ℕ)
      → past_check m.stage ≡ true
      → m.cancelled ≡ true
      → m.calling ≡ 0
      → m.server_ticket ≡ some t
      → is_in t m.abandoned ≡ true
  stays_empty : before_ticket m.stage ≡ true → m.ticket ≡ none

submitted-IsHeard : IsHeard submitted
unfolding submitted
submitted-IsHeard = record {
  none_before = λ h. refl;
  given = λ t h. cc;
  kept = λ h. cc;
  kept_after = λ h. cc;
  heard = λ t h c z s. cc;
  stays_empty = λ h. refl;
}

-- The stage after `ended` without a ticket needs that there is none; `run_begins` and a refusal
-- come from stages before the ticket.
Step-IsHeard : {m m' : Motion} → Step m m' → IsHeard m → IsHeard m'
unfolding callback_sets callback_reads run_begins run_answered run_stores run_checks run_ends
Step-IsHeard {m} (sets e) v = rw e (record {
  none_before = v.none_before;
  given = v.given;
  kept = v.kept;
  kept_after = v.kept_after;
  heard = λ t h c z s. cc;
  stays_empty = v.stays_empty;
})
Step-IsHeard {m} (reads others k e) v = rw e (record {
  none_before = v.none_before;
  given = v.given;
  kept = v.kept;
  kept_after = v.kept_after;
  heard = λ t h c z s. ground (arith, v.kept_after h, is_in-abandon t m.abandoned);
  stays_empty = v.stays_empty;
})
Step-IsHeard {m} (begins k e) v = rw e (record {
  none_before = λ h. ground (arith, v.none_before);
  given = λ t h. ground arith;
  kept = λ h. ground arith;
  kept_after = λ h. ground (arith, v.none_before, v.stays_empty);
  heard = λ t h c z s. ground (arith, v.none_before);
  stays_empty = λ h. ground (arith, v.stays_empty);
})
Step-IsHeard {m} (answered none k e) v = rw e (record {
  none_before = λ h. cc;
  given = λ t h. cc;
  kept = λ h. cc;
  kept_after = λ h. ground (arith, v.none_before, v.stays_empty);
  heard = λ t h c z s. ground (arith, v.none_before);
  stays_empty = λ h. cc;
})
Step-IsHeard {m} (answered (some t) k e) v = rw e (record {
  none_before = λ h. cc;
  given = λ u h. ground arith;
  kept = λ h. cc;
  kept_after = λ h. cc;
  heard = λ u h c z s. cc;
  stays_empty = λ h. cc;
})
Step-IsHeard {m} (stores t k e) v = rw e (record {
  none_before = λ h. cc;
  given = λ u h. cc;
  kept = λ h. ground (arith, v.given t k);
  kept_after = λ h. cc;
  heard = λ u h c z s. cc;
  stays_empty = λ h. cc;
})
Step-IsHeard {m} (checks k e) v = rw e (record {
  none_before = λ h. cc;
  given = λ u h. cc;
  kept = λ h. cc;
  kept_after = λ h. v.kept k;
  heard = λ t h c z s. ground (arith, is_in-abandon t m.abandoned);
  stays_empty = λ h. cc;
})
Step-IsHeard {m} (ends k e) v = rw e (record {
  none_before = λ h. cc;
  given = λ u h. cc;
  kept = λ h. cc;
  kept_after = λ h. ground (arith, v.kept_after);
  heard = λ t h c z s. ground (arith, v.heard t);
  stays_empty = λ h. cc;
})

all-IsHeard : {m : Motion} → Reach submitted m → IsHeard m
all-IsHeard here = submitted-IsHeard
all-IsHeard (next r st) = Step-IsHeard st (all-IsHeard r)

-- In every interleaving of the motion's task with any number of cancel callbacks, once the task is
-- past its second test and no callback is under way, a cancelled motion that the server gave a
-- ticket has had that ticket abandoned.
pub cancel_reaches_ticket :
    {m : Motion} (t : ℕ)
    → Reach submitted m
    → past_check m.stage ≡ true
    → m.cancelled ≡ true
    → m.calling ≡ 0
    → m.server_ticket ≡ some t
    → is_in t m.abandoned ≡ true
cancel_reaches_ticket t r h c z s = (all-IsHeard r).heard t h c z s

-- What `_abandon` was called with is the motion's own ticket.
record IsOwn (m : Motion) : Type 0 where
  own_ticket : (t : ℕ) → m.ticket ≡ some t → m.server_ticket ≡ some t
  own_grant : (t : ℕ) → m.stage ≡ granted t → m.server_ticket ≡ some t
  nothing_yet : before_ticket m.stage ≡ true → (m.ticket ≡ none) × (m.abandoned ≡ [])
  own_calls : (t : ℕ) → is_in t m.abandoned ≡ true → m.server_ticket ≡ some t

is_in-own :
    (t u : ℕ) (calls : List ℕ)
    → is_in t (abandon (some u) calls) ≡ true
    → (t ≡ u) ⊎ (is_in t calls ≡ true)
unfolding abandon
is_in-own t u [] h = inl (ground arith)
is_in-own t u (x ∷ calls) h = ground (arith, is_in-own t u calls)

own_abandon :
    (o server : Option ℕ) (calls : List ℕ) (t : ℕ)
    → ((u : ℕ) → o ≡ some u → server ≡ some u)
    → ((u : ℕ) → is_in u calls ≡ true → server ≡ some u)
    → is_in t (abandon o calls) ≡ true
    → server ≡ some t
own_abandon none server calls t f g h = unfold abandon in g t h
own_abandon (some u) server calls t f g h = elim (is_in-own t u calls h) [
  | inl e ↦ rw e (f u refl)
  | inr k ↦ g t k
]

Step-IsOwn : {m m' : Motion} → Step m m' → IsOwn m → IsOwn m'
unfolding callback_sets callback_reads run_begins run_answered run_stores run_checks run_ends
Step-IsOwn {m} (sets e) v = rw e (record {
  own_ticket = v.own_ticket;
  own_grant = v.own_grant;
  nothing_yet = v.nothing_yet;
  own_calls = v.own_calls;
})
Step-IsOwn {m} (reads others k e) v = rw e (record {
  own_ticket = v.own_ticket;
  own_grant = v.own_grant;
  nothing_yet = λ h. let n = v.nothing_yet h in (n.0, rw (n.0, n.1) (unfold abandon in refl));
  own_calls = λ t h. own_abandon m.ticket m.server_ticket m.abandoned t v.own_ticket v.own_calls h;
})
Step-IsOwn {m} (begins k e) v = rw e (record {
  own_ticket = v.own_ticket;
  own_grant = λ t h. ground arith;
  nothing_yet = λ h. v.nothing_yet (ground arith);
  own_calls = v.own_calls;
})
Step-IsOwn {m} (answered none k e) v = rw e (record {
  own_ticket = v.own_ticket;
  own_grant = λ t h. cc;
  nothing_yet = λ h. cc;
  own_calls = v.own_calls;
})
Step-IsOwn {m} (answered (some t) k e) v = rw e (record {
  own_ticket = λ u h. ground (arith, v.nothing_yet);
  own_grant = λ u h. ground arith;
  nothing_yet = λ h. cc;
  own_calls = λ u h. ground (arith, v.nothing_yet);
})
Step-IsOwn {m} (stores t k e) v = rw e (record {
  own_ticket = λ u h. ground (arith, v.own_grant t k);
  own_grant = λ u h. cc;
  nothing_yet = λ h. cc;
  own_calls = v.own_calls;
})
Step-IsOwn {m} (checks k e) v = rw e (record {
  own_ticket = v.own_ticket;
  own_grant = λ u h. cc;
  nothing_yet = λ h. cc;
  own_calls = λ t h. elim (Bool-cases m.cancelled) [
    | inl c ↦
        own_abandon m.server_ticket m.server_ticket m.abandoned t (λ u q. q) v.own_calls (rw c at h)
    | inr c ↦ v.own_calls t (rw c at h)
  ];
})
Step-IsOwn {m} (ends k e) v = rw e (record {
  own_ticket = v.own_ticket;
  own_grant = λ u h. cc;
  nothing_yet = λ h. cc;
  own_calls = v.own_calls;
})

all-IsOwn : {m : Motion} → Reach submitted m → IsOwn m
unfolding submitted
all-IsOwn here = record {
  own_ticket = λ t h. cc;
  own_grant = λ t h. cc;
  nothing_yet = λ h. (refl, refl);
  own_calls = λ t h. cc;
}
all-IsOwn (next r st) = Step-IsOwn st (all-IsOwn r)

-- In every interleaving the only ticket that a motion's cancellation abandons is the one that the
-- server gave that motion, so cancelling a motion that has none abandons nothing.
pub cancel_abandons_own :
    {m : Motion} (t : ℕ) → Reach submitted m → is_in t m.abandoned ≡ true → m.server_ticket ≡ some t
cancel_abandons_own t r h = (all-IsOwn r).own_calls t h
