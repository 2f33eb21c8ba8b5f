-- ===== src/Auth/Tokens/Plain.antt =====
-- A toy in place of bcrypt and of signed tokens: a hash is the text itself, and a token is its
-- payload, written so that it reads back. It shows that the laws of `Crypto` can hold.
use Prim.Native.Char.{Char, code}
use Prim.Native.String.{String, [], ◌∷◌}
use parking_gate_remote.Common.{
  ℕ, ◌≡◌, refl, Bool, true, Option, none, some, ◌==◌, eqb, eq_refl, if◌then◌else◌,
}
use parking_gate_remote.Users.Schema.{Role, user, admin}
use parking_gate_remote.Auth.Tokens.{Payload, Crypto}

abbrev ends : Char → Bool
ends c = eqb (code c) b'0'

abbrev zero_char : Char
zero_char = "0"

abbrev one_char : Char
one_char = "1"

-- Each character behind a "1", and a "0" behind the last.
pub write : String → String → String
write [] rest = zero_char ∷ rest
write (c ∷ s) rest = one_char ∷ (c ∷ write s rest)

pub read : String → Option (String × String)
read [] = none
read (d ∷ []) = if ends d then some ([], []) else none
read (d ∷ (c ∷ s)) =
    let rest = read s in
    if ends d then some ([], c ∷ s) else elim rest [ none ↦ none | some (t, r) ↦ some (c ∷ t, r) ]

read-write : (s rest : String) → read (write s rest) ≡ some (s, rest)
unfolding read write
read-write [] [] = refl
read-write [] (c ∷ rest) = refl
read-write (c ∷ s) rest = rw (read-write s rest)

abbrev pub role_text : Role → String
role_text user = "u"
role_text admin = "a"

abbrev pub role_of : String → Role
role_of s = if s == "a" then admin else user

abbrev pub write_payload : Payload → String
write_payload p = write p.sub (write p.device_id (write p.sid (role_text p.role)))

abbrev then_read : Option (String × String) → (String → String → Option Payload) → Option Payload
then_read none f = none
then_read (some (s, rest)) f = f s rest

pub read_payload : String → Option Payload
read_payload t = then_read (read t) λ sub more. then_read (read more) λ device_id last.
    then_read (read last)
      λ sid role. some (record { sub = sub; role = role_of role; device_id = device_id; sid = sid })

role_of-role_text : (r : Role) → role_of (role_text r) ≡ r
role_of-role_text user = refl
role_of-role_text admin = refl

pub read_payload-write_payload : (p : Payload) → read_payload (write_payload p) ≡ some p
unfolding read_payload
read_payload-write_payload p = rw (
  read-write p.sub (write p.device_id (write p.sid (role_text p.role))),
  read-write p.device_id (write p.sid (role_text p.role)),
  read-write p.sid (role_text p.role),
  role_of-role_text p.role,
)

abbrev pub same_text : String → String → Bool
same_text a b = a == b

pub same_text_refl : (salt : ℕ) (s : String) → same_text s s ≡ true
same_text_refl salt s = eq_refl s

pub read_payload-same :
    (t : String) (p q : Payload) → read_payload t ≡ some p → read_payload t ≡ some q → q ≡ p
read_payload-same t p q h k = cc

unfoldable pub plain : Crypto
unfolding read_payload read write
plain = record {
  hash = λ salt s. s;
  compare = same_text;
  sign_access = λ t p. write_payload p;
  sign_refresh = λ t p. write_payload p;
  verify_refresh = λ t s. read_payload s;
  refresh_life = 1000;
  compare-hash = same_text_refl;
  verify-sign = λ signed now p from until. read_payload-write_payload p;
  verify-same = λ t now later p q h k. read_payload-same t p q h k;
}
