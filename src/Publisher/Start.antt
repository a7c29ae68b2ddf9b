-- ===== src/Publisher/Start.antt =====
-- rpc/publisher.py: the sockets, the checks of the constructor, `start`, `stop`, `has_subscribers`.
use r2_labs.Base.{
  ℕ, Bool, true, false, not, List, [], ◌∷◌, ◌++◌, map, Option, none, some, if◌then◌else◌, ltb, ◌==◌,
  length,
}
use r2_labs.Base.Text.{Text, text_eq, codes, text_beq, starts_with}
use r2_labs.Base.Order.{sorted}
use r2_labs.Base.Dict.{lookup}

pub record PubSocket : Type 0 where
  pub name : Text
  pub port : ℕ
  pub topic_prefix : Text
  pub sndhwm : ℕ
  pub heartbeat : Bool

abbrev pub never_drop_sndhwm : ℕ
never_drop_sndhwm = 100000

abbrev pub latest_wins_sndhwm : ℕ
latest_wins_sndhwm = 1

abbrev pub heartbeat_suffix : Text
heartbeat_suffix = codes "heartbeat"

unfoldable pub heartbeat_topic : PubSocket → Text
heartbeat_topic s = s.topic_prefix ++ heartbeat_suffix

-- The exceptions of the constructor and of `start`.
pub data PublisherError : Type 0 where
  no_sockets duplicate_names started_twice : PublisherError
  ambiguous_prefixes : Text → Text → PublisherError
  bind_failed : PubSocket → PublisherError

pub data Result {ℓ} (A : Type ℓ) : Type ℓ where
  ok : A → Result A
  err : PublisherError → Result A

pub record BasePublisher : Type 0 where
  pub sockets : List PubSocket
  pub running : Bool
  pub stop_flag : Bool
  pub ready : Bool
  pub presence : List (Text × ℕ)
  pub xpubs : List PubSocket
  pub startup_error : Option PubSocket
  pub last_heartbeat : List (Text × ℕ)

-- The elements of a set built from a list.
unfoldable pub member : Text → List Text → Bool
member x [] = false
member x (y ∷ ys) = if text_beq x y then true else member x ys

unfoldable pub distinct : List Text → List Text
unfolding member
distinct [] = []
distinct (x ∷ xs) = let rest = distinct xs in if member x rest then rest else x ∷ rest

-- The loop over `zip(ordered, ordered[1:])`: the first pair that raises.
unfoldable pub ambiguous_pair : List Text → Option (Text × Text)
ambiguous_pair [] = none
ambiguous_pair (x ∷ []) = none
ambiguous_pair (x ∷ y ∷ ys) =
    let rest = ambiguous_pair (y ∷ ys) in if starts_with y x then some (x, y) else rest

abbrev pub zero_presence : List PubSocket → List (Text × ℕ)
zero_presence ss = map (λ s. (s.name, 0)) ss

abbrev pub names : List PubSocket → List Text
names ss = map (λ s. s.name) ss

abbrev pub prefixes : List PubSocket → List Text
prefixes ss = map (λ s. s.topic_prefix) ss

unfoldable pub fresh : List PubSocket → BasePublisher
fresh ss = record {
  sockets = ss;
  running = false;
  stop_flag = false;
  ready = false;
  presence = zero_presence ss;
  xpubs = [];
  startup_error = none;
  last_heartbeat = [];
}

unfoldable pub refuse : Option (Text × Text) → BasePublisher → Result BasePublisher
refuse none p = ok p
refuse (some (shorter, longer)) p = err (ambiguous_prefixes shorter longer)

-- `BasePublisher.__init__`
unfoldable pub construct : List PubSocket → Result BasePublisher
construct [] = err no_sockets
construct (s ∷ ss) =
    if not (length (distinct (names (s ∷ ss))) == length (s ∷ ss))
    then err duplicate_names
    else refuse (ambiguous_pair (sorted (prefixes (s ∷ ss)))) (fresh (s ∷ ss))

-- The binding half of `_run`: each socket is tracked before it is bound, so a failure closes it too.
unfoldable pub bind_all :
    (PubSocket → Bool) → List PubSocket → List PubSocket → List PubSocket × Option PubSocket
bind_all can_bind bound [] = (bound, none)
bind_all can_bind bound (s ∷ ss) =
    let rest = bind_all can_bind (bound ++ s ∷ []) ss in
    if can_bind s then rest else (bound ++ s ∷ [], some s)

unfoldable pub close_sockets : BasePublisher → BasePublisher
close_sockets p = record p { xpubs = [] }

unfoldable pub bound_or_failed : List PubSocket × Option PubSocket → BasePublisher → BasePublisher
bound_or_failed (xs, none) p = record p { xpubs = xs; ready = true }
bound_or_failed (xs, some s) p = record (close_sockets (record p { xpubs = xs })) {
  startup_error = some s;
  ready = true;
}

unfoldable pub finish_start : Option PubSocket → BasePublisher → Result (Unit {0}) × BasePublisher
finish_start none p = (ok tt, p)
finish_start (some s) p = (err (bind_failed s), record p { running = false })

-- `start`, up to the owner thread's `_ready.set()`; `can_bind` is the operating system's answer.
unfoldable pub start : (PubSocket → Bool) → BasePublisher → Result (Unit {0}) × BasePublisher
start can_bind p =
    if p.running
    then (err started_twice, p)
    else let clean = record p {
      ready = false;
      stop_flag = false;
      startup_error = none;
      presence = zero_presence p.sockets;
      last_heartbeat = [];
      running = true;
    } in
      let p' = bound_or_failed (bind_all can_bind p.xpubs p.sockets) clean in
      finish_start p'.startup_error p'

-- `stop`: the owner thread notices the flag, closes its sockets and is joined.
unfoldable pub stop : BasePublisher → BasePublisher
stop p =
    if p.running
    then record (close_sockets p) { stop_flag = true; running = false }
    else record p { stop_flag = true }

-- `has_subscribers`; `none` is the KeyError of an unknown name.
unfoldable pub has_subscribers : BasePublisher → Text → Option Bool
has_subscribers p name = elim (lookup name p.presence) [ none ↦ none | some n ↦ some (ltb 0 n) ]
