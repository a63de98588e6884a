-- ===== src/Limiter/Window.antt =====
-- A sliding window against its specification, the list of everything that was ever added: it
-- counts exactly the weight of the last minute.
use inter_gate.Base.{
  ℕ, ◌+◌, ◌-◌, ◌≤◌, ◌<◌, ◌≡◌, refl, Bool, true, List, [], ◌∷◌, ◌++◌, arith, string_eq, ltb, leb,
  filter, sum, sum-append, All, Bool-cases, inl, inr, ap, ◌∙◌,
}
use mathlib.Core.List.{append-nil}
use inter_gate.Limiter.{Event, SlidingWindow, prune_from, prune, add, count, new_window, minute}

-- An event of the window that ends at `now`.
abbrev pub in_window : ℕ → ℕ → Event → Bool
in_window window now e = ltb now (e.0 + window)

abbrev pub weight : Event → ℕ
weight e = e.1

-- The weight that the history has in the window that ends at `now`.
abbrev pub weight_in : ℕ → ℕ → List Event → ℕ
weight_in window now history = sum weight (filter (in_window window now) history)

-- The events stand in the order of their times, none after `t`.
abbrev pub IsTimed : ℕ → List Event → Type 0
IsTimed t [] = Unit
IsTimed t (e ∷ es) = (e.0 ≤ t) × All (λ (f : Event). e.0 ≤ f.0) es × IsTimed t es

-- The window holds what the history has in it at the time of its last call.
pub record Follows (w : SlidingWindow) (history : List Event) (t : ℕ) : Type 0 where
  pub timed : IsTimed t history
  pub held : w.events ≡ filter (in_window w.window t) history
  pub summed : w.sum ≡ sum weight w.events

filter-later :
    (window t now : ℕ) (es : List Event)
    → t ≤ now
    → filter (in_window window now) (filter (in_window window t) es)
      ≡ filter (in_window window now) es
filter-later window t now [] h = refl
filter-later window t now (e ∷ es) h = ground (arith, filter-later window t now es h)

All-in_window :
    (window now : ℕ) (ts : ℕ) (es : List Event)
    → All (λ (f : Event). ts ≤ f.0) es
    → now < ts + window
    → filter (in_window window now) es ≡ es
All-in_window window now ts [] h k = refl
All-in_window window now ts (e ∷ es) h k = ground (arith, All-in_window window now ts es h.1 k)

-- In a timed list to drop the old events from the front is to keep the young ones.
prune_from-filter :
    (window now t : ℕ) (es : List Event) (total : ℕ)
    → IsTimed t es
    → total ≡ sum weight es
    → prune_from window now es total ≡ (filter (in_window window now) es, weight_in window now es)
unfolding prune_from
prune_from-filter window now t [] total h s = ground arith
prune_from-filter window now t (e ∷ es) total h s = elim (Bool-cases (leb (e.0 + window) now)) [
  | inl p ↦ ground (arith, prune_from-filter window now t es (total - e.1) h.2)
  | inr p ↦ ground (arith, All-in_window window now e.0 es h.1)
]

IsTimed-later : (t now : ℕ) (es : List Event) → IsTimed t es → t ≤ now → IsTimed now es
IsTimed-later t now [] h k = tt
IsTimed-later t now (e ∷ es) h k = (omega arith, h.1, IsTimed-later t now es h.2 k)

All-later :
    (a now : ℕ) (t w : ℕ) (es : List Event)
    → All (λ (f : Event). a ≤ f.0) es
    → a ≤ now
    → All (λ (f : Event). a ≤ f.0) (es ++ (now, w) ∷ [])
All-later a now t w [] h k = (k, tt)
All-later a now t w (e ∷ es) h k = (h.0, All-later a now t w es h.1 k)

IsTimed-append :
    (t now w : ℕ) (es : List Event) → IsTimed t es → t ≤ now → IsTimed now (es ++ (now, w) ∷ [])
IsTimed-append t now w [] h k = (omega arith, tt, tt)
IsTimed-append t now w (e ∷ es) h k =
    (omega arith, All-later e.0 now t w es h.1 (omega arith), IsTimed-append t now w es h.2 k)

All-filter :
    (p : Event → Bool) (a : ℕ) (es : List Event)
    → All (λ (f : Event). a ≤ f.0) es
    → All (λ (f : Event). a ≤ f.0) (filter p es)
All-filter p a [] h = tt
All-filter p a (e ∷ es) h = elim (Bool-cases (p e)) [
  | inl q ↦ rw q (h.0, All-filter p a es h.1)
  | inr q ↦ rw q (All-filter p a es h.1)
]

IsTimed-filter :
    (p : Event → Bool) (t : ℕ) (es : List Event) → IsTimed t es → IsTimed t (filter p es)
IsTimed-filter p t [] h = tt
IsTimed-filter p t (e ∷ es) h = elim (Bool-cases (p e)) [
  | inl q ↦ rw q (h.0, All-filter p e.0 es h.1, IsTimed-filter p t es h.2)
  | inr q ↦ rw q (IsTimed-filter p t es h.2)
]

filter-append :
    (p : Event → Bool) (es : List Event) (e : Event)
    → p e ≡ true
    → filter p (es ++ e ∷ []) ≡ filter p es ++ e ∷ []
filter-append p [] e h = rw h refl
filter-append p (x ∷ es) e h = ground (arith, filter-append p es e h)

prune-Follows :
    (w : SlidingWindow) (history : List Event) (t now : ℕ)
    → Follows w history t
    → t ≤ now
    → ((prune w now).events ≡ filter (in_window w.window now) history)
      × ((prune w now).sum ≡ weight_in w.window now history)
      × ((prune w now).window ≡ w.window)
unfolding prune
prune-Follows w history t now f h =
    let kept = filter (in_window w.window t) history in
    let s : w.sum ≡ sum weight kept = f.summed ∙ ap (sum weight) f.held in
    let step =
      prune_from-filter w.window now t kept w.sum
        (IsTimed-filter (in_window w.window t) t history f.timed) s in
    rw (f.held, step, filter-later w.window t now history h) (refl, refl, refl)

-- An addition is counted, and the number that it returns is the weight of the window that it ends.
pub add-Follows :
    (w : SlidingWindow) (history : List Event) (t now n : ℕ)
    → Follows w history t
    → t ≤ now
    → 0 < w.window
    → Follows (add w now n).0 (history ++ (now, n) ∷ []) now
      × ((add w now n).1 ≡ weight_in w.window now (history ++ (now, n) ∷ []))
      × ((add w now n).0.window ≡ w.window)
unfolding add
add-Follows w history t now n f h pos =
    let (held, summed, same) = prune-Follows w history t now f h in
    let young : in_window w.window now (now, n) ≡ true = ground arith in
    let grown = filter-append (in_window w.window now) history (now, n) young in
    let total = sum-append weight (filter (in_window w.window now) history) ((now, n) ∷ []) in
    (
      record {
        timed = IsTimed-append t now n history f.timed h;
        held = rw (same, grown, held) refl;
        summed = rw (held, summed, total) (omega arith);
      },
      rw (grown, summed, total) (omega arith),
      same,
    )

count-Follows :
    (w : SlidingWindow) (history : List Event) (t now : ℕ)
    → Follows w history t
    → t ≤ now
    → (count w now).1 ≡ weight_in w.window now history
unfolding count
count-Follows w history t now f h = (prune-Follows w history t now f h).1

pub minute-pos : 0 < minute
unfolding minute
minute-pos = omega arith

pub add_all : SlidingWindow → List Event → SlidingWindow
add_all w [] = w
add_all w ((now, n) ∷ rest) = add_all (add w now n).0 rest

-- Times that do not fall, from `t` on.
abbrev pub Rising : ℕ → List Event → Type 0
Rising t [] = Unit
Rising t (e ∷ es) = (t ≤ e.0) × Rising e.0 es

abbrev pub last_time : ℕ → List Event → ℕ
last_time t [] = t
last_time t (e ∷ es) = last_time e.0 es

append_one :
    (history : List Event) (e : Event) (es : List Event)
    → (history ++ e ∷ []) ++ es ≡ history ++ (e ∷ es)
append_one [] e es = refl
append_one (x ∷ history) e es = ap (◌∷◌ x) (append_one history e es)

add_all-Follows :
    (events : List Event) (w : SlidingWindow) (history : List Event) (t : ℕ)
    → Follows w history t
    → 0 < w.window
    → Rising t events
    → Follows (add_all w events) (history ++ events) (last_time t events)
      × ((add_all w events).window ≡ w.window)
unfolding add_all
add_all-Follows [] w history t f pos r = (rw (append-nil history) f, refl)
add_all-Follows (e ∷ es) w history t f pos r =
    let (next, _, same) = add-Follows w history t e.0 e.1 f r.0 pos in
    let pos' : 0 < (add w e.0 e.1).0.window = rw same pos in
    let (done, kept) = add_all-Follows es (add w e.0 e.1).0 (history ++ e ∷ []) e.0 next pos' r.1 in
    (rw (append_one history e es) at done, kept ∙ same)

pub new_window-Follows : Follows new_window [] 0
unfolding new_window
new_window-Follows = record { timed = tt; held = refl; summed = refl }

-- Whatever was added to a new window at times that do not fall, a count at any later time is the
-- sum of the weights of exactly the additions of the minute before it.
pub count-add_all :
    (events : List Event) (now : ℕ)
    → Rising 0 events
    → last_time 0 events ≤ now
    → (count (add_all new_window events) now).1 ≡ weight_in minute now events
unfolding new_window
count-add_all events now r h =
    let (f, same) = add_all-Follows events new_window [] 0 new_window-Follows minute-pos r in
    count-Follows (add_all new_window events) events (last_time 0 events) now f h
    ∙ ap (λ (k : ℕ). weight_in k now events) same
