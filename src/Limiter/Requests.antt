-- ===== src/Limiter/Requests.antt =====
-- `services/rate_limiter.py`: the check of a run of requests against the requests of the last
-- minute, counted from scratch.
use inter_gate.Base.{
  ℕ, ◌≤◌, ◌<◌, String, ◌≡◌, refl, Bool, true, false, List, [], ◌∷◌, ◌++◌, arith, ◌==◌, string_eq,
  ltb, leb, if◌then◌else◌, Bool-cases, inl, inr, ap, ◌∙◌, eq_refl, subst, eq→path,
}
use inter_gate.Base.Int.{pos_part}
use inter_gate.Base.Floats.{Floats}
use inter_gate.Base.Dict
use inter_gate.Base.Dict.{Dict, lookup-insert, lookup-insert_self}
use inter_gate.Limiter.{
  Event, SlidingWindow, add, new_window, minute, RateLimiter, LimitSettings, init, check, check_ip,
  positive, window_of,
}
use inter_gate.Limiter.Window.{Follows, weight_in, add-Follows, minute-pos, new_window-Follows}

-- A request: its time and its address.
abbrev pub Asked : Type 0
Asked = ℕ × String

-- The requests of the address in a list, each of weight one.
unfoldable pub requests_of : String → List Asked → List Event
requests_of ip [] = []
requests_of ip ((now, from) ∷ rest) =
    let later = requests_of ip rest in if from == ip then (now, 1) ∷ later else later

-- Every request of a list, each of weight one.
unfoldable pub every_request : List Asked → List Event
every_request [] = []
every_request ((now, from) ∷ rest) = (now, 1) ∷ every_request rest

-- The answers to the requests for a global limit and a limit of each address, counted from the
-- lists of all the requests so far and of those that the global limit let pass.
unfoldable pub counted : (limit ip_limit : ℕ) → (all passed : List Asked) → List Asked → List Bool
unfolding requests_of every_request
counted limit ip_limit all passed [] = []
counted limit ip_limit all passed ((now, ip) ∷ rest) =
    let all' = all ++ (now, ip) ∷ [] in
    let passed' = passed ++ (now, ip) ∷ [] in
    elim (leb (weight_in minute now (every_request all')) limit) [
      | true ↦
          leb (weight_in minute now (requests_of ip passed')) ip_limit
          ∷ counted limit ip_limit all' passed' rest
      | false ↦ false ∷ counted limit ip_limit all' passed rest
    ]

-- The times do not fall, from `t` on.
abbrev pub InOrder : ℕ → List Asked → Type 0
InOrder t [] = Unit
InOrder t (q ∷ qs) = (t ≤ q.0) × InOrder q.0 qs

every_request-append :
    (qs : List Asked) (q : Asked) → every_request (qs ++ q ∷ []) ≡ every_request qs ++ (q.0, 1) ∷ []
unfolding every_request
every_request-append [] q = refl
every_request-append (x ∷ qs) q = ap (◌∷◌ (x.0, 1)) (every_request-append qs q)

requests_of-append :
    (ip : String) (qs : List Asked) (q : Asked)
    → requests_of ip (qs ++ q ∷ [])
      ≡ (if q.1 == ip then requests_of ip qs ++ (q.0, 1) ∷ [] else requests_of ip qs)
unfolding requests_of
requests_of-append ip [] q = elim (Bool-cases (q.1 == ip)) [ inl e ↦ rw e refl | inr e ↦ rw e refl ]
requests_of-append ip (x ∷ qs) q = ground (arith, requests_of-append ip qs q)

-- A window of a minute that follows the history up to a time before `t`.
abbrev Watches : SlidingWindow → List Event → ℕ → Type 0
Watches w history t = (w.window ≡ minute) × ((s : ℕ) × (s ≤ t) × Follows w history s)

add-Watches :
    (w : SlidingWindow) (history : List Event) (t now : ℕ)
    → Watches w history t
    → t ≤ now
    → Watches (add w now 1).0 (history ++ (now, 1) ∷ []) now
      × ((add w now 1).1 ≡ weight_in minute now (history ++ (now, 1) ∷ []))
add-Watches w history t now (m, (s, h, f)) l =
    let pos : 0 < w.window = rw m minute-pos in
    let (next, n, same) = add-Follows w history s now 1 f (omega arith) pos in
    (
      (same ∙ m, (now, omega arith, next)),
      n ∙ ap (λ k. weight_in k now (history ++ (now, 1) ∷ [])) m,
    )

later-Watches :
    (w : SlidingWindow) (history : List Event) (t now : ℕ)
    → Watches w history t
    → t ≤ now
    → Watches w history now
later-Watches w history t now (m, (s, h, f)) l = (m, (s, omega arith, f))

window_of-insert :
    (ip j : String) (w : SlidingWindow) (d : Dict String SlidingWindow)
    → window_of j (Dict.insert ip w d) ≡ (if ip == j then w else window_of j d)
window_of-insert ip j w d = elim (Bool-cases (ip == j)) [
  | inl e ↦ ground (arith, lookup-insert ip j w d, e)
  | inr e ↦ ground (arith, lookup-insert ip j w d, e)
]

module _ (fl : Floats) where
  -- The answers of `check` to the requests one after the other.
  unfoldable pub check_all : RateLimiter fl → List Asked → List Bool
  check_all r [] = []
  check_all r ((now, ip) ∷ rest) =
      let (r', answer) = check fl r now ip in answer.0 ∷ check_all r' rest

  -- What the limiter holds behind requests up to the time `t`.
  record Holds (settings : LimitSettings) (r : RateLimiter fl) (all passed : List Asked) (t : ℕ)
      : Type 0 where
    pub same : r.settings ≡ settings
    pub global : Watches r.global (every_request all) t
    pub own : (ip : String) → Watches (window_of ip r.ip) (requests_of ip passed) t

  init-Holds : (settings : LimitSettings) → Holds settings (init fl settings) [] [] 0
  unfolding init new_window every_request requests_of Dict.lookup
  init-Holds settings =
      let fresh : Watches new_window [] 0 = (refl, (0, omega arith, new_window-Follows)) in
      record { same = refl; global = fresh; own = λ ip. fresh }

  -- The global limit refuses the request, or lets it through to the limit of its address.
  check-stops :
      (r : RateLimiter fl) (now : ℕ) (ip : String)
      → r.settings.rate_limit_enabled ≡ true
      → positive r.settings.global_rpm_limit ≡ true
      → leb (add r.global now 1).1 (pos_part r.settings.global_rpm_limit) ≡ false
      → ((check fl r now ip).1.0 ≡ false)
        × ((check fl r now ip).0 ≡ (record r { global = (add r.global now 1).0 }))
  unfolding check
  check-stops r now ip on limited over =
      let t : ltb (pos_part r.settings.global_rpm_limit) (add r.global now 1).1 ≡ true =
        ground arith in
      rw (on, limited, t) (refl, refl)

  check-passes :
      (r : RateLimiter fl) (now : ℕ) (ip : String)
      → r.settings.rate_limit_enabled ≡ true
      → positive r.settings.global_rpm_limit ≡ true
      → leb (add r.global now 1).1 (pos_part r.settings.global_rpm_limit) ≡ true
      → check fl r now ip ≡ check_ip fl (record r { global = (add r.global now 1).0 }) now ip
  unfolding check
  check-passes r now ip on limited under =
      let t : ltb (pos_part r.settings.global_rpm_limit) (add r.global now 1).1 ≡ false =
        ground arith in
      rw (on, limited, t) refl

  check_ip-counts :
      (r : RateLimiter fl) (now : ℕ) (ip : String)
      → positive r.settings.ip_rate_limit_per_minute ≡ true
      → let (w, n) = add (window_of ip r.ip) now 1 in
        ((check_ip fl r now ip).1.0 ≡ leb n (pos_part r.settings.ip_rate_limit_per_minute))
        × ((check_ip fl r now ip).0 ≡ (record r { ip = Dict.insert ip w r.ip }))
  unfolding check_ip
  check_ip-counts r now ip limited = rw limited (ground arith, refl)

  own-insert :
      (d : Dict String SlidingWindow) (passed : List Asked) (t now : ℕ) (ip j : String)
      → ((i : String) → Watches (window_of i d) (requests_of i passed) t)
      → t ≤ now
      → Watches
          (window_of j (Dict.insert ip (add (window_of ip d) now 1).0 d))
          (requests_of j (passed ++ (now, ip) ∷ []))
          now
  own-insert d passed t now ip j own l =
      let w = (add (window_of ip d) now 1).0 in
      let mine : Watches (window_of ip (Dict.insert ip w d))
          (requests_of ip (passed ++ (now, ip) ∷ [])) now =
        rw (window_of-insert ip ip w d, requests_of-append ip passed (now, ip), eq_refl ip)
          (add-Watches (window_of ip d) (requests_of ip passed) t now (own ip) l).0 in
      elim (Bool-cases (ip == j)) [
        | inl e ↦
            subst
              (λ i.
                Watches (window_of i (Dict.insert ip w d))
                  (requests_of i (passed ++ (now, ip) ∷ [])) now)
              (eq→path ip j e) mine
        | inr e ↦
            rw (window_of-insert ip j w d, requests_of-append j passed (now, ip), e)
              (later-Watches (window_of j d) (requests_of j passed) t now (own j) l)
      ]

  module _ (settings : LimitSettings) (on : settings.rate_limit_enabled ≡ true)
      (limited : positive settings.global_rpm_limit ≡ true)
      (ip_limited : positive settings.ip_rate_limit_per_minute ≡ true) where
    -- The global window behind a request, and what the test of its limit comes to.
    global-Watches :
        (r : RateLimiter fl) (all passed : List Asked) (t now : ℕ) (ip : String)
        → Holds settings r all passed t
        → t ≤ now
        → let all' = all ++ (now, ip) ∷ [] in
          Watches (add r.global now 1).0 (every_request all') now
          × (leb (add r.global now 1).1 (pos_part r.settings.global_rpm_limit)
              ≡ leb
                  (weight_in minute now (every_request all'))
                  (pos_part settings.global_rpm_limit))
          × (r.settings.rate_limit_enabled ≡ true)
          × (positive r.settings.global_rpm_limit ≡ true)
    global-Watches r all passed t now ip h l =
        let (watched, n) = add-Watches r.global (every_request all) t now h.global l in
        let grown = every_request-append all (now, ip) in
        (
          rw grown watched,
          rw (h.same, n, grown) refl,
          ap (λ (s : LimitSettings). s.rate_limit_enabled) h.same ∙ on,
          ap (λ (s : LimitSettings). positive s.global_rpm_limit) h.same ∙ limited,
        )

    -- A request that the global limit lets pass is answered by the limit of its address.
    passed-Holds :
        (r : RateLimiter fl) (all passed : List Asked) (t now : ℕ) (ip : String)
        → Holds settings r all passed t
        → t ≤ now
        → leb
            (weight_in minute now (every_request (all ++ (now, ip) ∷ [])))
            (pos_part settings.global_rpm_limit)
          ≡ true
        → let passed' = passed ++ (now, ip) ∷ [] in
          ((check fl r now ip).1.0
            ≡ leb
                (weight_in minute now (requests_of ip passed'))
                (pos_part settings.ip_rate_limit_per_minute))
          × Holds settings (check fl r now ip).0 (all ++ (now, ip) ∷ []) passed' now
    passed-Holds r all passed t now ip h l p =
        let (held, same, on', limited') = global-Watches r all passed t now ip h l in
        let r₁ : RateLimiter fl = record r { global = (add r.global now 1).0 } in
        let step = check-passes r now ip on' limited' (same ∙ p) in
        let (answer, after) =
          check_ip-counts r₁ now ip
            (ap (λ (s : LimitSettings). positive s.ip_rate_limit_per_minute) h.same ∙ ip_limited) in
        let (_, m) = add-Watches (window_of ip r.ip) (requests_of ip passed) t now (h.own ip) l in
        let count : (add (window_of ip r.ip) now 1).1
            ≡ weight_in minute now (requests_of ip (passed ++ (now, ip) ∷ [])) =
          rw (requests_of-append ip passed (now, ip), eq_refl ip) m in
        (
          ap (λ x. x.1.0) step ∙ answer ∙ rw (count, h.same) refl,
          rw (step, after)
              (record {
                same = h.same;
                global = held;
                own = λ j. own-insert r.ip passed t now ip j h.own l;
              }),
        )

    -- Any other request is refused and does not reach the window of its address.
    stopped-Holds :
        (r : RateLimiter fl) (all passed : List Asked) (t now : ℕ) (ip : String)
        → Holds settings r all passed t
        → t ≤ now
        → leb
            (weight_in minute now (every_request (all ++ (now, ip) ∷ [])))
            (pos_part settings.global_rpm_limit)
          ≡ false
        → ((check fl r now ip).1.0 ≡ false)
          × Holds settings (check fl r now ip).0 (all ++ (now, ip) ∷ []) passed now
    stopped-Holds r all passed t now ip h l p =
        let (held, same, on', limited') = global-Watches r all passed t now ip h l in
        let (answer, after) = check-stops r now ip on' limited' (same ∙ p) in
        (
          answer,
          rw after (record {
            same = h.same;
            global = held;
            own = λ j. later-Watches (window_of j r.ip) (requests_of j passed) t now (h.own j) l;
          }),
        )

    check_all-Holds :
        (r : RateLimiter fl) (all passed qs : List Asked) (t : ℕ)
        → Holds settings r all passed t
        → InOrder t qs
        → check_all r qs
          ≡ counted
              (pos_part settings.global_rpm_limit)
              (pos_part settings.ip_rate_limit_per_minute)
              all
              passed
              qs
    unfolding check_all counted
    check_all-Holds r all passed [] t h o = refl
    check_all-Holds r all passed ((now, ip) ∷ qs) t h o =
        let all' = all ++ (now, ip) ∷ [] in
        let passed' = passed ++ (now, ip) ∷ [] in
        let r' = (check fl r now ip).0 in
        let admitted =
          leb (weight_in minute now (requests_of ip passed'))
            (pos_part settings.ip_rate_limit_per_minute) in
        elim (Bool-cases
          (leb (weight_in minute now (every_request all')) (pos_part settings.global_rpm_limit))) [
            | inl p ↦
                let (answer, next) = passed-Holds r all passed t now ip h o.0 p in
                rw (check_all, counted, p, answer)
                  (ap (◌∷◌ admitted) (check_all-Holds r' all' passed' qs now next o.1))
            | inr p ↦
                let (answer, next) = stopped-Holds r all passed t now ip h o.0 p in
                rw (check_all, counted, p, answer)
                  (ap (◌∷◌ false) (check_all-Holds r' all' passed qs now next o.1))
          ]

  -- Where the limiter is on and both limits are set, requests at times that do not fall are
  -- answered by a new limiter as a count from scratch answers them: a request is let through
  -- exactly if, itself counted, all the requests of the last minute are no more than the global
  -- limit, and the requests of its address in the last minute that the global limit let pass are
  -- no more than the limit of an address. Requests that the limit itself refused count for it.
  pub check_all-counted :
      (settings : LimitSettings) (qs : List Asked)
      → settings.rate_limit_enabled ≡ true
      → positive settings.global_rpm_limit ≡ true
      → positive settings.ip_rate_limit_per_minute ≡ true
      → InOrder 0 qs
      → check_all (init fl settings) qs
        ≡ counted
            (pos_part settings.global_rpm_limit)
            (pos_part settings.ip_rate_limit_per_minute)
            []
            []
            qs
  check_all-counted settings qs on limited ip_limited o =
      check_all-Holds settings on limited ip_limited (init fl settings) [] [] qs 0
        (init-Holds settings) o
