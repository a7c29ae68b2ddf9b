-- ===== src/Publisher/Routing.antt =====
-- The constructor accepts exactly the socket lists on which routing is unambiguous.
use r2_labs.Base.{
  ℕ, suc, ◌≤◌, ◌≡◌, refl, ap, ◌↔◌, inl, inr, true, false, List, [], ◌∷◌, ◌++◌, none, some, arith,
  length, All, Bool-cases, ◌==◌,
}
use r2_labs.Base.Text.{
  Text, IsText, text_beq, starts_with, starts_with-append, starts_with_total, starts_with-encode,
  encode, encode-append,
}
use r2_labs.Base.Order.{
  AllPairs, Le, text_le, starts_with_between, starts_with_le, sorted, sorted-Le, AllPairs-sorted,
  AllPairs-sorted_inv,
}
use r2_labs.Publisher.Start.{
  PubSocket, BasePublisher, ok, member, distinct, ambiguous_pair, names, prefixes, fresh, refuse,
  construct, heartbeat_topic,
}
use r2_labs.Publisher.Owner.{route}

-- Neither text is a prefix of the other.
abbrev pub NoOverlap : Text → Text → Type 0
NoOverlap a b = (starts_with a b ≡ false) × (starts_with b a ≡ false)

NoOverlap-symm : (a b : Text) → NoOverlap a b → NoOverlap b a
NoOverlap-symm a b h = (h.1, h.0)

abbrev pub Differ : Text → Text → Type 0
Differ a b = text_beq a b ≡ false

-- A sorted list whose neighbours do not overlap has no overlap at all.
head_apart :
    (x y : Text) (ys : List Text)
    → text_le x y ≡ true
    → All (Le y) ys
    → All (Le x) ys
    → starts_with y x ≡ false
    → All (NoOverlap x) ys
head_apart x y [] xy h k n = tt
head_apart x y (z ∷ zs) xy h k n =
    (ground (arith, starts_with_between x y z, starts_with_le x z), head_apart x y zs xy h.1 k.1 n)

neighbours_apart :
    (xs : List Text) → AllPairs Le xs → ambiguous_pair xs ≡ none → AllPairs NoOverlap xs
unfolding ambiguous_pair
neighbours_apart [] s h = tt
neighbours_apart (x ∷ []) s h = (tt, tt)
neighbours_apart (x ∷ y ∷ ys) s h = elim (Bool-cases (starts_with y x)) [
  | inl e ↦ cc (rw e at h)
  | inr e ↦
      let rest : ambiguous_pair (y ∷ ys) ≡ none = rw e at h in
      (
        (ground (arith, starts_with_le x y), head_apart x y ys s.0.0 s.1.0 s.0.1 e),
        neighbours_apart (y ∷ ys) s.1 rest,
      )
]

apart_neighbours : (xs : List Text) → AllPairs NoOverlap xs → ambiguous_pair xs ≡ none
unfolding ambiguous_pair
apart_neighbours [] h = refl
apart_neighbours (x ∷ []) h = refl
apart_neighbours (x ∷ y ∷ ys) h = rw h.0.0.1 (apart_neighbours (y ∷ ys) h.1)

member-Differ : (x : Text) (ys : List Text) → member x ys ≡ false → All (Differ x) ys
unfolding member
member-Differ x [] h = tt
member-Differ x (y ∷ ys) h = (ground arith, member-Differ x ys (ground arith))

Differ-member : (x : Text) (ys : List Text) → All (Differ x) ys → member x ys ≡ false
unfolding member
Differ-member x [] h = refl
Differ-member x (y ∷ ys) h = rw h.0 (Differ-member x ys h.1)

length-distinct-le : (xs : List Text) → length (distinct xs) ≤ length xs
unfolding distinct
length-distinct-le [] = omega arith
length-distinct-le (x ∷ xs) = ground (arith, length-distinct-le xs)

distinct-Differ :
    (xs : List Text) → length (distinct xs) ≡ length xs → AllPairs Differ xs × (distinct xs ≡ xs)
unfolding distinct
distinct-Differ [] h = (tt, refl)
distinct-Differ (x ∷ xs) h = elim (Bool-cases (member x (distinct xs))) [
  | inl e ↦ absurd (omega (arith, rw e at h, length-distinct-le xs))
  | inr e ↦
      let n : suc (length (distinct xs)) ≡ suc (length xs) = rw e at h in
      let ih = distinct-Differ xs (omega arith) in
      ((member-Differ x xs (rw ih.1 at e), ih.0), rw e (ap (◌∷◌ x) ih.1))
]

Differ-distinct : (xs : List Text) → AllPairs Differ xs → distinct xs ≡ xs
unfolding distinct
Differ-distinct [] h = refl
Differ-distinct (x ∷ xs) h = rw (Differ-distinct xs h.1, Differ-member x xs h.0)

length-map : (ss : List PubSocket) → length (names ss) ≡ length ss
length-map [] = refl
length-map (s ∷ ss) = omega (arith, length-map ss)

-- No two sockets share a name, and no topic prefix is a prefix of another.
abbrev pub IsUnambiguous : List PubSocket → Type 0
IsUnambiguous ss = AllPairs Differ (names ss) × AllPairs NoOverlap (prefixes ss)

accepted_apart :
    (ps : List Text) (p : BasePublisher) {q : BasePublisher}
    → refuse (ambiguous_pair (sorted ps)) p ≡ ok q
    → AllPairs NoOverlap ps
unfolding refuse
accepted_apart ps p h =
    AllPairs-sorted_inv NoOverlap NoOverlap-symm ps
      (neighbours_apart (sorted ps) (sorted-Le ps) (ground arith))

pub construct_sound :
    (ss : List PubSocket) (p : BasePublisher) → construct ss ≡ ok p → IsUnambiguous ss
unfolding construct
construct_sound [] p h = cc
construct_sound (s ∷ ss) p h =
    elim (Bool-cases (length (distinct (names (s ∷ ss))) == length (s ∷ ss))) [
      | inl e ↦ (
        (distinct-Differ (names (s ∷ ss)) (ground (arith, length-map (s ∷ ss)))).0,
        accepted_apart (prefixes (s ∷ ss)) (fresh (s ∷ ss)) (rw e at h),
      )
      | inr e ↦ cc (rw e at h)
    ]

construct_complete :
    (s : PubSocket) (ss : List PubSocket)
    → IsUnambiguous (s ∷ ss)
    → construct (s ∷ ss) ≡ ok (fresh (s ∷ ss))
unfolding construct refuse
construct_complete s ss h =
    let e = ap length (Differ-distinct (names (s ∷ ss)) h.0) in
    let a =
      apart_neighbours (sorted (prefixes (s ∷ ss)))
        (AllPairs-sorted NoOverlap NoOverlap-symm (prefixes (s ∷ ss)) h.1) in
    ground (arith, e, a, length-map (s ∷ ss))

-- The constructor accepts a non-empty list of sockets exactly if their names differ and no topic
-- prefix is a prefix of another; the check of sorted neighbours misses no pair.
pub construct_iff :
    (s : PubSocket) (ss : List PubSocket)
    → (construct (s ∷ ss) ≡ ok (fresh (s ∷ ss))) ↔ IsUnambiguous (s ∷ ss)
construct_iff s ss = (construct_sound (s ∷ ss) (fresh (s ∷ ss)), construct_complete s ss)

All-prefixes_at {κ} :
    (P : Text → Type κ) (before : List PubSocket) (s : PubSocket) (after : List PubSocket)
    → All P (prefixes (before ++ s ∷ after))
    → P s.topic_prefix
All-prefixes_at P [] s after h = h.0
All-prefixes_at P (b ∷ before) s after h = All-prefixes_at P before s after h.1

route_owner :
    (before : List PubSocket) (s : PubSocket) (after : List PubSocket) (topic : List ℕ)
    → All IsText (prefixes (before ++ s ∷ after))
    → AllPairs NoOverlap (prefixes (before ++ s ∷ after))
    → starts_with topic (encode s.topic_prefix) ≡ true
    → route (before ++ s ∷ after) topic ≡ some s
unfolding route
route_owner [] s after topic t a h = rw h
route_owner (b ∷ before) s after topic t a h =
    elim (Bool-cases (starts_with topic (encode b.topic_prefix))) [
      | inl e ↦
          let apart = All-prefixes_at (NoOverlap b.topic_prefix) before s after a.0 in
          let ts = All-prefixes_at IsText before s after t.1 in
          elim (starts_with_total topic (encode b.topic_prefix) (encode s.topic_prefix) e h) [
            | inl x ↦ cc (starts_with-encode b.topic_prefix s.topic_prefix t.0 ts x, apart.0)
            | inr x ↦ cc (starts_with-encode s.topic_prefix b.topic_prefix ts t.0 x, apart.1)
          ]
      | inr e ↦ rw e (route_owner before s after topic t.1 a.1 h)
    ]

-- On sockets that the constructor accepts, a topic that starts with a socket's prefix goes to that
-- socket, wherever it stands in the list.
pub route-construct :
    (ss before : List PubSocket) (s : PubSocket) (after : List PubSocket) (p : BasePublisher)
    (topic : List ℕ)
    → construct ss ≡ ok p
    → ss ≡ before ++ s ∷ after
    → All IsText (prefixes ss)
    → starts_with topic (encode s.topic_prefix) ≡ true
    → route ss topic ≡ some s
route-construct ss before s after p topic c e t h =
    rw e (route_owner before s after topic (rw e at t) (rw e at (construct_sound ss p c).1) h)

-- Every accepted socket's heartbeat topic goes to that socket.
pub route-heartbeat_topic :
    (ss before : List PubSocket) (s : PubSocket) (after : List PubSocket) (p : BasePublisher)
    → construct ss ≡ ok p
    → ss ≡ before ++ s ∷ after
    → All IsText (prefixes ss)
    → route ss (encode (heartbeat_topic s)) ≡ some s
unfolding heartbeat_topic
route-heartbeat_topic ss before s after p c e t =
    route-construct ss before s after p (encode (heartbeat_topic s)) c e t
      (rw encode-append (starts_with-append (encode s.topic_prefix) _))
