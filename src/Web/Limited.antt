-- ===== src/Web/Limited.antt =====
-- `webapp.py`: the login's limit against a history of the failures that forgets nothing.
use inter_gate.Base.{
  ℕ, ◌/◌, ◌≤◌, String, ◌≡◌, refl, sym, ap, Bool, true, false, List, [], ◌∷◌, ◌++◌, ◌==◌, string_eq,
  nat_eq, list_eq, leb, arith, if◌then◌else◌, filter, length, Bool-cases, inl, inr, eq→path,
}
use inter_gate.Base.Dict
use inter_gate.Base.Dict.{Dict, IsDict, lookup-insert, lookup-remove, insert-IsDict, remove-IsDict}
use inter_gate.Base.Text.{Text, codes}
use inter_gate.Web.Tokens.{Signer, make_token}
use inter_gate.Web.Login.{
  Attempts, Call, Outcome, login_max_failures, is_recent, recent, is_limited, record_attempt,
  matches, login, logins,
}

-- All the failures of each client since its last success, with their times.
abbrev pub History : Type 0
History = String → List ℕ

-- A login by the history: five failures in the sixty seconds before it are the limit.
abbrev pub counted_login : Signer → (web_password : Text) → History → Call → History × Outcome
counted_login signer pwd h c =
    let fails = length (filter (is_recent c.checked) (h c.ip)) in
    let failed : History = λ ip. if c.ip == ip then h ip ++ c.recorded ∷ [] else h ip in
    let cleared : History = λ ip. if c.ip == ip then [] else h ip in
    if leb login_max_failures fails
    then (h, Outcome.limited)
    else if pwd == []
    then (h, Outcome.token (make_token signer pwd (c.recorded / 1000) (codes "local")))
    else if matches c.password pwd
    then (cleared, Outcome.token (make_token signer pwd (c.recorded / 1000) (codes "admin")))
    else (failed, Outcome.wrong)

abbrev pub counted_logins : Signer → (web_password : Text) → History → List Call → List Outcome
counted_logins signer pwd h [] = []
counted_logins signer pwd h (c ∷ cs) =
    let (h', outcome) = counted_login signer pwd h c in outcome ∷ counted_logins signer pwd h' cs

-- The clock does not go back from t on.
abbrev pub IsOrdered : ℕ → List Call → Type 0
IsOrdered t [] = Unit
IsOrdered t (c ∷ cs) = (t ≤ c.checked) × (c.checked ≤ c.recorded) × IsOrdered c.recorded cs

-- From the time t on, the attempts of the code and the history have the same recent failures.
abbrev Agrees : ℕ → Attempts → History → Type 0
Agrees t a h = (ip : String) (now : ℕ) → t ≤ now → recent a now ip ≡ filter (is_recent now) (h ip)

filter-append :
    (p : ℕ → Bool) (xs : List ℕ) (y : ℕ)
    → filter p (xs ++ y ∷ []) ≡ filter p xs ++ filter p (y ∷ [])
filter-append p [] y = refl
filter-append p (x ∷ xs) y = elim (Bool-cases (p x)) [
  | inl e ↦ rw e (ap (λ r. x ∷ r) (filter-append p xs y))
  | inr e ↦ rw e (filter-append p xs y)
]

-- What is recent later was recent before.
filter_recent_twice :
    (before now : ℕ) (xs : List ℕ)
    → before ≤ now
    → filter (is_recent now) (filter (is_recent before) xs) ≡ filter (is_recent now) xs
filter_recent_twice before now [] h = refl
filter_recent_twice before now (x ∷ xs) h = ground (arith, filter_recent_twice before now xs h)

later_Agrees : (t u : ℕ) (a : Attempts) (h : History) → t ≤ u → Agrees t a h → Agrees u a h
later_Agrees t u a h le agrees ip now le' = agrees ip now (omega arith)

recent-insert :
    (a : Attempts) (ip other : String) (ts : List ℕ) (now : ℕ)
    → recent (Dict.insert ip ts a) now other
      ≡ (if ip == other then filter (is_recent now) ts else recent a now other)
recent-insert a ip other ts now = elim (Bool-cases (ip == other)) [
  | inl e ↦ rw (lookup-insert ip other ts a, e) refl
  | inr e ↦ rw (lookup-insert ip other ts a, e) refl
]

recent-remove :
    (a : Attempts) (ip other : String) (now : ℕ)
    → IsDict a
    → recent (Dict.remove ip a) now other ≡ (if ip == other then [] else recent a now other)
recent-remove a ip other now d = elim (Bool-cases (ip == other)) [
  | inl e ↦ rw (lookup-remove ip other a d, e) refl
  | inr e ↦ rw (lookup-remove ip other a d, e) refl
]

failed_Agrees :
    (t now : ℕ) (a : Attempts) (h : History) (ip : String)
    → t ≤ now
    → Agrees t a h
    → Agrees now
        (record_attempt a now ip)
        (λ other. if ip == other then h other ++ now ∷ [] else h other)
unfolding record_attempt
failed_Agrees t now a h ip le agrees other later le' =
    let ts : List ℕ = recent a now ip ++ now ∷ [] in
    let step = recent-insert a ip other ts later in
    elim (Bool-cases (ip == other)) [
      | inl e ↦
          let same : ip ≡ other = eq→path ip other e in
          rw
            (
              step,
              e,
              filter-append (is_recent later) (recent a now ip) now,
              agrees ip now le,
              filter_recent_twice now later (h ip) le',
              same,
            )
            (sym (filter-append (is_recent later) (h other) now))
      | inr e ↦ rw (step, e) (agrees other later (omega arith))
    ]

cleared_Agrees :
    (t : ℕ) (a : Attempts) (h : History) (ip : String)
    → IsDict a
    → Agrees t a h
    → Agrees t (Dict.remove ip a) (λ other. if ip == other then [] else h other)
cleared_Agrees t a h ip d agrees other later le =
    let step = recent-remove a ip other later d in
    elim (Bool-cases (ip == other)) [
      | inl e ↦ rw (step, e) refl
      | inr e ↦ rw (step, e) (agrees other later le)
    ]

record_attempt-IsDict :
    (a : Attempts) (now : ℕ) (ip : String) → IsDict a → IsDict (record_attempt a now ip)
unfolding record_attempt
record_attempt-IsDict a now ip d = insert-IsDict ip (recent a now ip ++ now ∷ []) a d

-- The state behind a step and the outcome of the step agree with those of the history.
abbrev StepAgrees : ℕ → Attempts × Outcome → History × Outcome → Type 0
StepAgrees t x y = IsDict x.0 × Agrees t x.0 y.0 × (x.1 ≡ y.1)

if_both_two :
    {A B : Type 0} (P : A → B → Type 0) (b : Bool) (x y : A) (u v : B)
    → P x u
    → P y v
    → P (if b then x else y) (if b then u else v)
if_both_two P true x y u v p q = p
if_both_two P false x y u v p q = q

login-StepAgrees :
    (signer : Signer) (pwd : Text) (t : ℕ) (a : Attempts) (h : History) (c : Call)
    → IsDict a
    → Agrees t a h
    → t ≤ c.checked
    → c.checked ≤ c.recorded
    → StepAgrees c.recorded (login signer pwd a c) (counted_login signer pwd h c)
unfolding login is_limited
login-StepAgrees signer pwd t a h c d agrees le le' =
    let P = StepAgrees c.recorded in
    let same = later_Agrees t c.recorded a h (omega arith) agrees in
    rw (agrees c.ip c.checked le) (
      if_both_two P (leb login_max_failures (length (filter (is_recent c.checked) (h c.ip)))) _ _ _
        _ (d, same, refl)
        (if_both_two P (pwd == []) _ _ _ _ (d, same, refl)
          (if_both_two P (matches c.password pwd) _ _ _ _
            (remove-IsDict c.ip a d, cleared_Agrees c.recorded a h c.ip d same, refl)
            (
              record_attempt-IsDict a c.recorded c.ip d,
              failed_Agrees t c.recorded a h c.ip (omega arith) agrees,
              refl,
            ))))

logins-counted_from :
    (signer : Signer) (pwd : Text) (t : ℕ) (a : Attempts) (h : History) (cs : List Call)
    → IsDict a
    → Agrees t a h
    → IsOrdered t cs
    → logins signer pwd a cs ≡ counted_logins signer pwd h cs
unfolding logins
logins-counted_from signer pwd t a h [] d agrees o = refl
logins-counted_from signer pwd t a h (c ∷ cs) d agrees o =
    let x = login signer pwd a c in
    let y = counted_login signer pwd h c in
    let (d', agrees', same) = login-StepAgrees signer pwd t a h c d agrees o.0 o.1 in
    rw (same, logins-counted_from signer pwd c.recorded x.0 y.0 cs d' agrees' o.2) refl

-- However many clients log in, in whatever order, each login ends as it does by the full history of
-- the failures: refused while the client has five failures in the last sixty seconds and since its
-- last success, compared with the password in every other case. What the code throws away of
-- the history never matters, as long as the clock does not go back.
pub logins-counted :
    (signer : Signer) (pwd : Text) (cs : List Call)
    → IsOrdered 0 cs
    → logins signer pwd [] cs ≡ counted_logins signer pwd (λ ip. []) cs
unfolding Dict.lookup
logins-counted signer pwd cs o =
    logins-counted_from signer pwd 0 [] (λ ip. []) cs tt (λ ip now le. refl) o
