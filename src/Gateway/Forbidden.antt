-- ===== src/Gateway/Forbidden.antt =====
-- `gateway.py`: requests that may not be made.
use inter_gate.Base.{
  String, ◌≡◌, refl, true, not, Option, none, some, [], ◌∷◌, ◌==◌, string_eq, nat_eq, if_both,
  contains, length, ltb, Option-cases, inl, inr, ◌⊎◌,
}
use inter_gate.Base.Floats.{Floats}
use inter_gate.Base.Text.{Text}
use inter_gate.Keys.ApiKey.{Metadata}
use inter_gate.Constants.{health_paths, max_request_body_bytes}
use inter_gate.Base.Int.{pos, leb_ℤ}
use inter_gate.Gateway.{header, Permission, authorize, denied}
use inter_gate.Gateway.Replies.{Reply, Incoming}
use inter_gate.Gateway.Query.{Python, read_body, query_of}
use inter_gate.Gateway.Server.{Server, Outside}
use inter_gate.Gateway.Handle.{with_body, with_permission, managed, permitted, authorized, handle}

module _ (py : Python) (fl : Floats) (percent : fl.F → String)
    (json_dumps : Metadata → String) where
  -- The caller has no permission, or the permission is not one for the request.
  abbrev pub IsForbidden : Server fl → Outside fl → Incoming → Type 0
  IsForbidden s io r =
      ((authorize s.access io.mono io.stored r.request).1 ≡ none)
      ⊎ ((p : Permission) × ((authorize s.access io.mono io.stored r.request).1 ≡ some p)
          × (denied p (query_of py s.syncer r.body).model r.request.method ≡ true))

  -- Nothing but the list of the additional keys is read again, and the answer is one of the
  -- gateway's own.
  abbrev pub IsUntouched : Server fl → Outside fl → Incoming → Server fl × Reply → Type 0
  IsUntouched s io r x =
      ((x.0 ≡ s)
        ⊎ (x.0 ≡ (record s { access = (authorize s.access io.mono io.stored r.request).0 })))
      × (contains (204 ∷ 200 ∷ 401 ∷ 403 ∷ 413 ∷ 503 ∷ []) x.1.status ≡ true)

  with_body-IsUntouched :
      (s : Server fl) (io : Outside fl) (r : Incoming) (p : Permission) (body : Option Text)
      → denied p (query_of py s.syncer r.body).model r.request.method ≡ true
      → (body ≡ none) ⊎ (body ≡ some r.body)
      → (with_body py fl percent json_dumps s io r p body).0 ≡ s
        × (contains
              (204 ∷ 200 ∷ 401 ∷ 403 ∷ 413 ∷ 503 ∷ [])
              (with_body py fl percent json_dumps s io r p body).1.status
            ≡ true)
  unfolding with_body permitted
  with_body-IsUntouched s io r p body d (inl e) = rw e (refl, refl)
  with_body-IsUntouched s io r p body d (inr e) = rw (e, d) (refl, refl)

  read_body-cases :
      (r : Incoming) → (read_body py.int_of r ≡ none) ⊎ (read_body py.int_of r ≡ some r.body)
  unfolding read_body
  read_body-cases r =
      let P = λ (x : Option Text). (x ≡ none) ⊎ (x ≡ some r.body) in
      let read = if_both P (ltb max_request_body_bytes (length r.body)) _ _ (inl refl) (inr refl) in
      elim (Option-cases (py.int_of (header r.request "content-length"))) [
        | inl e ↦ rw (read_body, e) read
        | inr (n, e) ↦
            rw (read_body, e) (if_both P (leb_ℤ n (pos max_request_body_bytes)) _ _ read (inl refl))
      ]

  -- A request without permission, or that its permission refuses, reaches no limiter, no cache, no
  -- key and no upstream: at most the list of the additional keys is read again.
  pub handle-IsUntouched :
      (s : Server fl) (io : Outside fl) (r : Incoming)
      → IsForbidden s io r
      → IsUntouched s io r (handle py fl percent json_dumps s io r)
  unfolding handle with_permission authorized
  handle-IsUntouched s io r h =
      let a = authorize s.access io.mono io.stored r.request in
      let s₁ : Server fl = record s { access = a.0 } in
      let P = IsUntouched s io r in
      if_both P (r.request.method == "OPTIONS") _ _ (inl refl, refl)
        (if_both P (contains health_paths r.path) _ _ (inl refl, refl)
          (if_both P (not s.gateway_enabled) _ _ (inl refl, refl)
            (elim h [
              | inl e ↦ rw e (inr refl, refl)
              | inr (p, e, d) ↦ rw e (
                  if_both P (managed py fl percent json_dumps r.path) _ _ (inr refl, refl)
                    (let u =
                        with_body-IsUntouched s₁ io r p (read_body py.int_of r) d
                          (read_body-cases r) in
                      (inr u.0, u.1)))
            ])))
