-- ===== src/Gateway/Attempts.antt =====
-- `gateway.py`: which keys the failover loop of `_handle` tries, and when it gives up.
use inter_gate.Base.{
  ℕ, zero, suc, ◌+◌, ◌≤◌, min, String, ◌≡◌, refl, subst, ◌⊎◌, inl, inr, true, false, not, Option,
  none, List, [], ◌∷◌, arith, ◌==◌, string_eq, filter, filter-Elem, Elem-filter, contains,
  IsDistinct, length, Elem, All, All-Elem, Elem-All, Bool-cases, eq→path, eq_refl,
}
use inter_gate.Base.Floats.{Floats}
use inter_gate.Keys.ApiKey.{ApiKey, Metadata}
use inter_gate.Balancer.{pick}
use inter_gate.Balancer.Choice.{pick-candidate}
use inter_gate.Gateway.Upstream.{Job, UpstreamResult, Failure, Answer, Verdict}
use inter_gate.Gateway.Failover.{Gateway, Round, attempt, failover, try_keys}
use inter_gate.Constants.{max_retry_keys}

-- The loop that started behind the keys `before`, with n rounds left, ended with the keys `tried`.
pub record Tried (keys : List ApiKey) (before : List String) (n : ℕ) (tried : List String)
    (answer : Answer) : Type 0 where
  pub bound : length tried ≤ length before + n
  pub distinct : IsDistinct tried
  pub known :
      All (λ id. (contains before id ≡ true) ⊎ ((k : ApiKey) × Elem k keys × (k.id ≡ id))) tried
  pub ended :
      ((k : ApiKey) × (r : UpstreamResult) × (answer ≡ Answer.served k r))
      ⊎ (length tried ≡ length before + n)
      ⊎ All (λ (k : ApiKey). contains tried k.id ≡ true) keys

-- No key is left.
none_left :
    (keys : List ApiKey) (tried : List String)
    → filter (λ (k : ApiKey). not (contains tried k.id)) keys ≡ []
    → (k : ApiKey) → Elem k keys
    → contains tried k.id ≡ true
none_left keys tried h k m = elim (Bool-cases (contains tried k.id)) [
  | inl e ↦ e
  | inr e ↦
      let there =
        Elem-filter (λ (k : ApiKey). not (contains tried k.id)) k keys m (ground (arith, e)) in
      absurd (subst (λ xs. Elem k xs) h there tt)
]

Elem-contains : (xs : List String) (a : String) → Elem a xs → contains xs a ≡ true
Elem-contains [] a m = absurd (m tt)
Elem-contains (x ∷ xs) a (inl e) = ground (arith, e, eq_refl a)
Elem-contains (x ∷ xs) a (inr m) = ground (arith, Elem-contains xs a m)

-- What a tried id is known from.
abbrev Source : List ApiKey → List String → String → Type 0
Source keys before id = (contains before id ≡ true) ⊎ ((k : ApiKey) × Elem k keys × (k.id ≡ id))

stop :
    (keys : List ApiKey) (before : List String) (n : ℕ) (last : Option Failure)
    → IsDistinct before
    → (n ≡ 0) ⊎ (filter (λ (k : ApiKey). not (contains before k.id)) keys ≡ [])
    → Tried keys before n before (Answer.failed last)
stop keys before n last d h = record {
  bound = omega arith;
  distinct = d;
  known = Elem-All (Source keys before) before (λ id m. inl (Elem-contains before id m));
  ended = inr (elim h [
    | inl z ↦ inl (omega (arith, z))
    | inr l ↦
        inr (Elem-All (λ (k : ApiKey). contains before k.id ≡ true) keys (none_left keys before l))
  ]);
}

module _ (keys : List ApiKey) (before : List String) (n : ℕ) (k : ApiKey) (m : Elem k keys) where
  -- What is known behind one key more is known behind it.
  widen : (id : String) → Source keys (k.id ∷ before) id → Source keys before id
  widen id (inr s) = inr s
  widen id (inl c) = elim (Bool-cases (k.id == id)) [
    | inl p ↦ inr (k, m, eq→path k.id id p)
    | inr p ↦ inl (ground (arith, c, p))
  ]

  served :
      (used : ApiKey) (r : UpstreamResult)
      → IsDistinct before
      → contains before k.id ≡ false
      → Tried keys before (suc n) (k.id ∷ before) (Answer.served used r)
  served used r d fresh = record {
    bound = omega arith;
    distinct = (fresh, d);
    known =
        Elem-All (Source keys before) (k.id ∷ before)
          (λ id l. widen id (inl (Elem-contains (k.id ∷ before) id l)));
    ended = inl (used, r, refl);
  }

  later :
      (tried : List String) (answer : Answer)
      → Tried keys (k.id ∷ before) n tried answer
      → Tried keys before (suc n) tried answer
  later tried answer t = record {
    bound = omega (arith, t.bound);
    distinct = t.distinct;
    known =
        Elem-All (Source keys before) tried
          (λ id l. widen id (All-Elem (Source keys (k.id ∷ before)) id tried t.known l));
    ended = elim t.ended [
      | inl a ↦ inl a
      | inr r ↦ inr (elim r [ inl l ↦ inl (omega (arith, l)) | inr a ↦ inr a ])
    ];
  }

pub Verdict-cases :
    (v : Verdict)
    → ((k : ApiKey) × (r : UpstreamResult) × (v ≡ Verdict.done k r))
      ⊎ ((last : Option Failure) × (v ≡ Verdict.next last))
Verdict-cases (Verdict.done k r) = inl (k, r, refl)
Verdict-cases (Verdict.next last) = inr (last, refl)

module _ (fl : Floats) (percent : fl.F → String) (json_dumps : Metadata → String) where
  failover-Tried :
      (n : ℕ) (g : Gateway fl) (env : ℕ → Round fl) (strategy : String) (job : Job)
      (keys : List ApiKey) (before : List String) (last : Option Failure)
      → IsDistinct before
      → Tried keys before n
          (failover fl percent json_dumps n g env strategy job keys before last).1
          (failover fl percent json_dumps n g env strategy job keys before last).2
  unfolding failover
  failover-Tried zero g env strategy job keys before last d = stop keys before 0 last d (inl refl)
  failover-Tried (suc n) g env strategy job keys before last d =
      let e = env (length before) in
      let left = filter (λ (k : ApiKey). not (contains before k.id)) keys in
      elim (pick-candidate fl g.balancer e.now e.draw left strategy) [
        | inl (p, empty) ↦ rw (failover, p) (stop keys before (suc n) last d (inr empty))
        | inr (k, p, m) ↦
            let r = filter-Elem (λ (k : ApiKey). not (contains before k.id)) k keys m in
            let fresh : contains before k.id ≡ false = ground (arith, r.1) in
            let b = (pick fl g.balancer e.now e.draw left strategy).0 in
            let r₁ = attempt fl percent json_dumps (record g { balancer = b }) e job last k in
            elim (Verdict-cases r₁.1) [
              | inl (used, status, q) ↦
                  rw (failover, p, q) (served keys before n k r.0 used status d fresh)
              | inr (last', q) ↦
                  rw (failover, p, q)
                    (later keys before n k r.0 _ _ (
                      failover-Tried n r₁.0 env strategy job keys (k.id ∷ before) last' (fresh, d)))
            ]
      ]

  -- The loop makes at most three rounds and at most as many as there are candidates, with a
  -- candidate each and none twice. It fails only after all these rounds, or when every candidate
  -- has been tried.
  pub try_keys-Tried :
      (g : Gateway fl) (env : ℕ → Round fl) (strategy : String) (job : Job) (keys : List ApiKey)
      → Tried keys []
          (min max_retry_keys (length keys))
          (try_keys fl percent json_dumps g env strategy job keys).1
          (try_keys fl percent json_dumps g env strategy job keys).2
  unfolding try_keys
  try_keys-Tried g env strategy job keys =
      failover-Tried (min max_retry_keys (length keys)) g env strategy job keys [] none tt
