-- ===== src/Web/Lifetime.antt =====
-- `webapp.py`: how long a token of the console is good for.
use inter_gate.Base.{
  ℕ, ◌-◌, ◌≤◌, ◌≡◌, ◌≢◌, refl, sym, ap, ◌∙◌, true, false, none, some, [], ◌∷◌, ◌++◌, ◌==◌, nat_eq,
  list_eq, leb, arith, contains, All, eq_refl, eq_ne,
}
use inter_gate.Base.Int.{pos}
use inter_gate.Base.Decimal.{show, show-IsDigits, read_int-show, IsDigits}
use inter_gate.Base.Text.{Text}
use inter_gate.Web.Tokens.{
  Signer, rsplit, hour_of, secret_of, payload_of, make_token, roles, is_fresh, verify_token,
}

-- The character does not stand in the text.
abbrev pub IsWithout : ℕ → Text → Type 0
IsWithout c s = All (λ d. (d == c) ≡ false) s

-- What the code relies on: decoding undoes encoding, the empty text is encoded as itself, and a
-- signature is in hexadecimal digits, which have no dot.
pub record IsSigner (signer : Signer) : Type 0 where
  pub round : (t : Text) → signer.decode (signer.encode t) ≡ some t
  pub empty : signer.decode [] ≡ some []
  pub hex : (s p : Text) → IsWithout b'.' (signer.sign s p)

rsplit-none : (c : ℕ) (s : Text) → IsWithout c s → rsplit c s ≡ none
unfolding rsplit
rsplit-none c [] h = refl
rsplit-none c (d ∷ s) h = rw (rsplit-none c s h.1, h.0) refl

rsplit-append :
    (c : ℕ) (front back : Text)
    → IsWithout c back
    → rsplit c (front ++ (c ∷ back)) ≡ some (front, back)
unfolding rsplit
rsplit-append c [] back h = rw (rsplit-none c back h, eq_refl c) refl
rsplit-append c (d ∷ front) back h = rw (rsplit-append c front back h) refl

colon_free : (s : Text) → IsDigits s → IsWithout b':' s
colon_free [] h = tt
colon_free (c ∷ s) h = (ground (arith, h.0), colon_free s h.1)

append-nonempty : (front : Text) (c : ℕ) (back : Text) → (front ++ (c ∷ back)) ≢ []
append-nonempty [] c back e = cc
append-nonempty (d ∷ front) c back e = cc

some_eq : {s t : Text} → some s ≡ some t → s ≡ t
some_eq e = cc

encode-nonempty :
    (signer : Signer) (front : Text) (c : ℕ) (back : Text)
    → IsSigner signer
    → (signer.encode (front ++ (c ∷ back)) == []) ≡ false
encode-nonempty signer front c back h =
    let t : Text = front ++ (c ∷ back) in
    eq_ne (signer.encode t) [] (λ e.
      append-nonempty front c back (some_eq (sym (h.round t) ∙ (ap signer.decode e ∙ h.empty))))

fresh_after :
    (now later : ℕ)
    → now ≤ later
    → is_fresh later (some (pos (hour_of now))) ≡ leb (hour_of later - hour_of now) 24
fresh_after now later h = ground arith

-- A token that is made for a role of the console is accepted for the 24 hours that follow the hour
-- it is made in, and never again.
pub verify_token-make_token :
    (signer : Signer) (pwd role : Text) (now later : ℕ)
    → IsSigner signer
    → contains roles role ≡ true
    → now ≤ later
    → verify_token signer pwd later (make_token signer pwd now role)
      ≡ leb (hour_of later - hour_of now) 24
unfolding verify_token make_token
verify_token-make_token signer pwd role now later h known order =
    let payload = payload_of role now in
    let sig = signer.sign (secret_of pwd) payload in
    rw
      (
        encode-nonempty signer payload b'.' sig h,
        h.round (payload ++ (b'.' ∷ sig)),
        rsplit-append b'.' payload sig (h.hex (secret_of pwd) payload),
        rsplit-append b':' role (show (hour_of now))
            (colon_free (show (hour_of now)) (show-IsDigits (hour_of now))),
        known,
        eq_refl sig,
        read_int-show (hour_of now),
      )
      (fresh_after now later order)
