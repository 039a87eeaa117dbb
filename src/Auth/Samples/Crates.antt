-- ===== src/Auth/Samples/Crates.antt =====
-- A signing of tokens that writes the secret in front of the claims, and its reading.
use kanbrick_v.Common.{
  ℕ, zero, suc, ◌+◌, ◌≤◌, ◌<◌, ℤ, pos, negsuc, Text, List, [], ◌∷◌, Bool, true, ◌&&◌, Option, some,
  text_beq, text_beq_iff, ltb, Result, ok, err, ok_injective, if◌then◌else◌, ◌≡◌, refl, sym, ap,
  ◌∙◌, arith,
}
use kanbrick_v.Core.Clearance.{ClearanceLevel, l1, l2, l3, l4, l5}
use kanbrick_v.Auth.Token.{
  Claims, Validation, DecodeError, expired_signature, invalid_signature, other_error, TokenCrates,
}
use kanbrick_v.Auth.Token.RoundTrip.{TokenLaws}

-- Texts, each with a terminator.
abbrev write_text : Text → Text → Text
write_text [] rest = 0 ∷ rest
write_text (c ∷ t) rest = suc c ∷ write_text t rest

abbrev write_texts : List Text → Text
write_texts [] = []
write_texts (t ∷ ts) = write_text t (write_texts ts)

abbrev longer : ℕ → List Text → List Text
longer c [] = []
longer c (t ∷ ts) = (c ∷ t) ∷ ts

abbrev read_texts : Text → List Text
read_texts [] = []
read_texts (zero ∷ s) = [] ∷ read_texts s
read_texts (suc c ∷ s) = longer c (read_texts s)

read-write_text : (t rest : Text) → read_texts (write_text t rest) ≡ t ∷ read_texts rest
read-write_text [] rest = refl
read-write_text (c ∷ t) rest = ap (longer c) (read-write_text t rest)

read-write_texts : (ts : List Text) → read_texts (write_texts ts) ≡ ts
read-write_texts [] = refl
read-write_texts (t ∷ ts) = read-write_text t (write_texts ts) ∙ ap (t ∷◌) (read-write_texts ts)

abbrev level_code : ClearanceLevel → ℕ
level_code l1 = 0
level_code l2 = 1
level_code l3 = 2
level_code l4 = 3
level_code l5 = 4

abbrev level_from : ℕ → ClearanceLevel
level_from zero = l1
level_from (suc zero) = l2
level_from (suc (suc zero)) = l3
level_from (suc (suc (suc zero))) = l4
level_from _ = l5

level_back : (l : ClearanceLevel) → level_from (level_code l) ≡ l
level_back l1 = refl
level_back l2 = refl
level_back l3 = refl
level_back l4 = refl
level_back l5 = refl

abbrev int_code : ℤ → Text
int_code (pos n) = 0 ∷ n ∷ []
int_code (negsuc n) = 1 ∷ n ∷ []

abbrev int_of : Text → ℤ
int_of (zero ∷ n ∷ _) = pos n
int_of (suc _ ∷ n ∷ _) = negsuc n
int_of _ = pos 0

int_back : (z : ℤ) → int_of (int_code z) ≡ z
int_back (pos n) = refl
int_back (negsuc n) = refl

abbrev pack : Text → Claims → List Text
pack secret c =
    secret
    ∷ c.sub
    ∷ c.email
    ∷ (level_code c.clearance ∷ [])
    ∷ c.firm_id
    ∷ c.sid
    ∷ int_code c.iat
    ∷ int_code c.exp
    ∷ c.roles

abbrev is_over : Validation → ℕ → ℤ → Bool
is_over v now (pos e) = v.validate_exp && ltb (e + v.leeway) now
is_over v now (negsuc n) = true

abbrev read_claims : Text → Text → Validation → ℕ → Claims → Result DecodeError Claims
read_claims key secret v now c =
    if text_beq secret key
    then (if is_over v now c.exp then err expired_signature else ok c)
    else err invalid_signature

abbrev unpack : Text → Validation → ℕ → List Text → Result DecodeError Claims
unpack key v now (secret ∷ sub ∷ email ∷ (level ∷ []) ∷ firm_id ∷ sid ∷ iat ∷ exp ∷ roles) =
    read_claims key secret v now (record {
      sub = sub;
      email = email;
      clearance = level_from level;
      firm_id = firm_id;
      roles = roles;
      sid = sid;
      iat = int_of iat;
      exp = int_of exp;
    })
unpack key v now _ = err (other_error [])

abbrev one_code : Text → Option ℕ
one_code (c ∷ []) = some c
one_code _ = some 0

abbrev pub plain : TokenCrates Text Text
plain = record {
  encoding_key = λ s. s;
  decoding_key = λ s. s;
  encode = λ a c k. ok (write_texts (pack k c));
  decode = λ t k v now. unpack k v now (read_texts t);
  timestamp = pos;
  timestamp_opt = λ z. some (magnitude z);
  uuid_text = λ n. n ∷ [];
  parse_uuid = one_code;
}
  where
    magnitude : ℤ → ℕ
    magnitude (pos n) = n
    magnitude (negsuc n) = 0

unpack-pack :
    (secret : Text) (c : Claims) (v : Validation) (now : ℕ)
    → unpack secret v now (pack secret c) ≡ read_claims secret secret v now c
unpack-pack secret c v now = rw (level_back c.clearance, int_back c.iat, int_back c.exp)

reads_back :
    (secret token : Text) (c : Claims) (v : Validation) (now : ℕ)
    → ◌≡◌ {A = Result Text Text} (ok (write_texts (pack secret c))) (ok token)
    → unpack secret v now (read_texts token)
      ≡ (if is_over v now c.exp then err expired_signature else ok c)
reads_back secret token c v now h =
    ap (λ t. unpack secret v now (read_texts t)) (sym (ok_injective h))
    ∙ ap (unpack secret v now) (read-write_texts (pack secret c))
    ∙ unpack-pack secret c v now
    ∙ rw ((text_beq_iff secret secret).1 refl)

pub plain-TokenLaws : TokenLaws plain (λ t. t)
plain-TokenLaws = record {
  in_time = λ secret token c v e now h x early.
      reads_back secret token c v now h ∙ lasting c v e now x early;
  too_late = λ secret token c v e now h x on late.
      reads_back secret token c v now h ∙ over c v e now x on late;
  read_back = λ n. refl;
  second = λ t. refl;
}
  where
    lasting :
        (c : Claims) (v : Validation) (e now : ℕ)
        → c.exp ≡ pos e
        → now ≤ e + v.leeway
        → (if is_over v now c.exp then err expired_signature else ok c) ≡ ok c
    lasting c v e now x early = rw x (ground arith)

    over :
        (c : Claims) (v : Validation) (e now : ℕ)
        → c.exp ≡ pos e
        → v.validate_exp ≡ true
        → e + v.leeway < now
        → (if is_over v now c.exp then err expired_signature else ok c) ≡ err expired_signature
    over c v e now x on late = rw (x, on) (ground arith)
