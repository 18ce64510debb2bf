-- ===== src/Example/Signing.antt =====
-- Tokens that keep their claims and their secret: a list of texts, where each text is written with
-- a mark in front of every character and one at its end, and the numbers are in unary.
use Prim.Native.Char.{Char, code}
use Prim.Native.String.{String}
use finance_project.Prelude.{
  ℕ, zero, suc, ◌<◌, ◌≡◌, refl, subst, Bool, true, false, Option, none, some, List, [], ◌∷◌, ltb,
  str_eq, eq_iff, ◌==◌, if◌then◌else◌, arith, ◌&&◌, length,
}
use finance_project.Platform.Reply.{Reply, done, failed}
use finance_project.Platform.Runtime.{Claims}
use finance_project.Example.Unary.{unary, count_marks, count_marks-unary}

abbrev field : String → String → String
field String.[] rest = String.◌∷◌ "." rest
field (String.◌∷◌ c s) rest = String.◌∷◌ "x" (String.◌∷◌ c (field s rest))

abbrev cons_to : Char → Option (String × String) → Option (String × String)
cons_to c none = none
cons_to c (some (s, rest)) = some (String.◌∷◌ c s, rest)

-- The first text and what follows it; the flag says that a mark has been read.
abbrev split_field : Bool → String → Option (String × String)
split_field false String.[] = none
split_field false (String.◌∷◌ c s) =
    let rest = split_field true s in if code c == 46 then some (String.[], s) else rest
split_field true String.[] = none
split_field true (String.◌∷◌ c s) = cons_to c (split_field false s)

split_field-field : (s rest : String) → split_field false (field s rest) ≡ some (s, rest)
split_field-field String.[] rest = refl
split_field-field (String.◌∷◌ c s) rest = rw (split_field-field s rest) refl

abbrev encode : List String → String
encode [] = String.[]
encode (s ∷ ss) = field s (encode ss)

abbrev add_field : String → Option (List String) → Option (List String)
add_field s none = none
add_field s (some ss) = some (s ∷ ss)

abbrev decode : ℕ → String → Option (List String)
decode zero text = some []
decode (suc n) text = elim (split_field false text) [
  | none ↦ none
  | some (s, rest) ↦ add_field s (decode n rest)
]

decode-encode : (ss : List String) → decode (length ss) (encode ss) ≡ some ss
decode-encode [] = refl
decode-encode (s ∷ ss) = rw (decode, split_field-field s (encode ss), decode-encode ss) refl

abbrev fields : Claims → String → List String
fields c secret =
    secret
    ∷ c.user_id
    ∷ c.email
    ∷ c.role
    ∷ c.issuer
    ∷ c.audience
    ∷ unary c.issued_at
    ∷ unary c.expires_at
    ∷ []

abbrev pub sign : Claims → String → Reply String
sign c secret = done (encode (fields c secret))

abbrev check : String → String → String → ℕ → Option (List String) → Reply (Claims × Bool)
check secret issuer audience now
      (some (key ∷ user_id ∷ email ∷ role ∷ iss ∷ aud ∷ issued ∷ expires ∷ [])) =
    if str_eq key secret
      && (str_eq iss issuer && (str_eq aud audience && ltb now (count_marks expires)))
    then done (
      record {
        user_id = user_id;
        email = email;
        role = role;
        issuer = iss;
        audience = aud;
        issued_at = count_marks issued;
        expires_at = count_marks expires;
      },
      true,
    )
    else failed "token is invalid"
check _ _ _ _ _ = failed "token is malformed"

abbrev pub parse : String → (Bool → Reply String) → String → String → ℕ → Reply (Claims × Bool)
parse token key issuer audience now = elim (key true) [
  | failed cause ↦ failed cause
  | done secret ↦ check secret issuer audience now (decode 8 token)
]

pub parse-sign :
    (c : Claims) (secret token : String) (key : Bool → Reply String) (now : ℕ)
    → sign c secret ≡ done token
    → key true ≡ done secret
    → now < c.expires_at
    → parse token key c.issuer c.audience now ≡ done (c, true)
parse-sign c secret token key now signed keyed live =
    let is_token : encode (fields c secret) ≡ token = cc in
    let early : ltb now (count_marks (unary c.expires_at)) ≡ true =
      ground (arith, count_marks-unary c.expires_at) in
    subst (λ text. parse text key c.issuer c.audience now ≡ done (c, true)) is_token
      (rw
        (
          parse,
          keyed,
          decode-encode (fields c secret),
          check,
          (eq_iff secret secret).1 refl,
          (eq_iff c.issuer c.issuer).1 refl,
          (eq_iff c.audience c.audience).1 refl,
          early,
          count_marks-unary c.issued_at,
          count_marks-unary c.expires_at,
        )
        refl)
