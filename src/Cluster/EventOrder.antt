-- ===== src/Cluster/EventOrder.antt =====
-- integrations/kubernetes_client.py: the order of `sort_events`.
use llopster.Base.{
  ℕ, ◌≤◌, ◌≡◌, refl, sym, ◌∙◌, ap, Option, none, some, List, [], ◌∷◌, Bool, true, false, filter,
  All, ◌==◌, leb, inl, inr, Bool-cases, arith,
}
use llopster.Base.Newest.{IsNewestFirst, AreAtMost, at, sort_newest-IsNewestFirst, at-sort_newest}
use llopster.Cluster.Objects.{ClusterEvent}
use llopster.Cluster.Events.{instant, sort_events}

-- An event with the second time may follow one with the first: the first is dated and not older, or
-- the second has no time. The year 1, which no event is of, begins with the instant 0.
abbrev pub Precedes : Option ℕ → Option ℕ → Type 0
Precedes earlier none = Unit
Precedes none (some t) = t ≡ 0
Precedes (some u) (some t) = t ≤ u

-- Each event may be followed by all those behind it.
abbrev pub AreOrdered : List ClusterEvent → Type 0
AreOrdered [] = Unit
AreOrdered (e ∷ events) =
    All (λ (f : ClusterEvent). Precedes e.last_timestamp f.last_timestamp) events
    × AreOrdered events

-- Whether a time is the given one.
abbrev pub is_time : Option ℕ → Option ℕ → Bool
is_time none none = true
is_time (some t) (some u) = u == t
is_time _ _ = false

-- The events with a time, or those without one.
abbrev pub stamped : Option ℕ → List ClusterEvent → List ClusterEvent
stamped time events = filter (λ (e : ClusterEvent). is_time time e.last_timestamp) events

abbrev key_of : Option ℕ → ℕ
key_of none = 0
key_of (some t) = t

Precedes-leb : (a b : Option ℕ) → leb (key_of b) (key_of a) ≡ true → Precedes a b
Precedes-leb a none h = tt
Precedes-leb none (some t) h = ground arith
Precedes-leb (some u) (some t) h = ground arith

key_of_instant : (o : Option ℕ) → (elim o [ none ↦ 0 | some t ↦ t ]) ≡ key_of o
key_of_instant none = refl
key_of_instant (some t) = refl

All-Precedes :
    (e : ClusterEvent) (events : List ClusterEvent)
    → AreAtMost instant (instant e) events
    → All (λ (f : ClusterEvent). Precedes e.last_timestamp f.last_timestamp) events
All-Precedes e [] h = tt
All-Precedes e (f ∷ events) (l, h) = (
  Precedes-leb e.last_timestamp f.last_timestamp
      (rw (sym (key_of_instant e.last_timestamp), sym (key_of_instant f.last_timestamp)) l),
  All-Precedes e events h,
)

AreOrdered-newest : (events : List ClusterEvent) → IsNewestFirst instant events → AreOrdered events
AreOrdered-newest [] h = tt
AreOrdered-newest (e ∷ events) (l, h) = (All-Precedes e events l, AreOrdered-newest events h)

is_time-key : (time o : Option ℕ) → is_time time o ≡ true → (key_of o == key_of time) ≡ true
is_time-key none none h = refl
is_time-key none (some t) h = absurd (cc)
is_time-key (some t) none h = absurd (cc)
is_time-key (some t) (some u) h = h

stamped-at :
    (time : Option ℕ) (events : List ClusterEvent)
    → stamped time (at instant (key_of time) events) ≡ stamped time events
stamped-at time [] = refl
stamped-at time (e ∷ events) = elim (Bool-cases (is_time time e.last_timestamp)) [
  | inl t ↦
      let same =
        ap (λ k. k == key_of time) (key_of_instant e.last_timestamp)
        ∙ is_time-key time e.last_timestamp t in
      let rest = stamped-at time events in rw same (rw t (ap (λ es. e ∷ es) rest))
  | inr t ↦ elim (Bool-cases (instant e == key_of time)) [
    | inl k ↦ rw k (rw t (stamped-at time events))
    | inr k ↦ rw (k, t) (stamped-at time events)
  ]
]

-- The events without a time come last, but for events of the instant 0; no dated event is followed
-- by a newer one. For each time the events of that time, and those without one, are those of the
-- list, in the order that they had.
pub sort_events-AreOrdered :
    (events : List ClusterEvent) (time : Option ℕ)
    → AreOrdered (sort_events events) × (stamped time (sort_events events) ≡ stamped time events)
unfolding sort_events
sort_events-AreOrdered events time = (
  AreOrdered-newest (sort_events events) (sort_newest-IsNewestFirst instant events),
  sym (stamped-at time (sort_events events))
      ∙ ap (stamped time) (at-sort_newest instant (key_of time) events)
      ∙ stamped-at time events,
)
