-- ===== src/Auth/ApiKey/Compare.antt =====
-- kanbrick-auth/src/apikey.rs, `constant_time_eq`: it is the equality of texts.
use Prim.Native.Nat.{bit_or, bit_xor, bit_or-bitwise, bit_xor-bitwise, digits, differ, max}
use kanbrick_v.Common.{
  ℕ, zero, suc, ◌/◌, ◌%◌, ◌≤◌, Text, [], ◌∷◌, length, nat_beq, nat_beq_iff, true, ◌≡◌, ◌↔◌, refl,
  sym, ap, ◌∙◌, arith, Bool-cases, inl, inr,
}
use kanbrick_v.Auth.ApiKey.{differences, constant_time_eq}

differ-eq : (x y : ℕ) → differ x y ≡ 0 → x ≡ y
differ-eq zero y h = sym h
differ-eq (suc x) zero h = h
differ-eq (suc x) (suc y) h = omega (arith, differ-eq x y h)

differ_self : (x : ℕ) → differ x x ≡ 0
differ_self zero = refl
differ_self (suc x) = differ_self x

xor_digits : (n a b : ℕ) → a ≤ n → digits (λ z. z) differ n a b ≡ 0 → a ≡ b
xor_digits zero a b h e = omega arith
xor_digits (suc n) zero b h e = sym e
xor_digits (suc n) (suc a) b h e = omega (
  arith,
  xor_digits n (suc a / 2) (b / 2) (omega arith) (omega arith),
  differ-eq (suc a % 2) (b % 2) (omega arith),
)

xor_same : (n a : ℕ) → a ≤ n → digits (λ z. z) differ n a a ≡ 0
xor_same zero a h = omega arith
xor_same (suc n) zero h = refl
xor_same (suc n) (suc a) h =
    omega (arith, xor_same n (suc a / 2) (omega arith), differ_self (suc a % 2))

max_zero : (x y : ℕ) → max x y ≡ 0 → (x ≡ 0) × (y ≡ 0)
max_zero x y h = omega arith

or_digits : (n a b : ℕ) → a ≤ n → digits (λ z. z) max n a b ≡ 0 → (a ≡ 0) × (b ≡ 0)
or_digits zero a b h e = omega arith
or_digits (suc n) zero b h e = (refl, e)
or_digits (suc n) (suc a) b h e =
    let (p, q) = or_digits n (suc a / 2) (b / 2) (omega arith) (omega arith) in
    let (r, s) = max_zero (suc a % 2) (b % 2) (omega arith) in omega arith

xor_zero_iff : (x y : ℕ) → (bit_xor x y ≡ 0) ↔ (x ≡ y)
xor_zero_iff x y = (
  λ h. xor_digits x x y (omega arith) (sym (λ i. bit_xor-bitwise x y i) ∙ h),
  λ e. ap (bit_xor x) (sym e) ∙ (λ i. bit_xor-bitwise x x i) ∙ xor_same x x (omega arith),
)

or_zero : (x y : ℕ) → bit_or x y ≡ 0 → (x ≡ 0) × (y ≡ 0)
or_zero x y h = or_digits x x y (omega arith) (sym (λ i. bit_or-bitwise x y i) ∙ h)

differences_self : (a : Text) → differences 0 a a ≡ 0
unfolding differences
differences_self [] = refl
differences_self (x ∷ a) = rw ((xor_zero_iff x x).1 refl) (differences_self a)

differences_zero :
    (diff : ℕ) (a b : Text) → length a ≡ length b → differences diff a b ≡ 0 → (diff ≡ 0) × (a ≡ b)
unfolding differences
differences_zero diff [] [] l h = (h, refl)
differences_zero diff [] (y ∷ b) l h = absurd (omega arith)
differences_zero diff (x ∷ a) [] l h = absurd (omega arith)
differences_zero diff (x ∷ a) (y ∷ b) l h =
    let (p, rest) = differences_zero (bit_or diff (bit_xor x y)) a b (omega arith) h in
    let (none_before, same) = or_zero diff (bit_xor x y) p in
    (none_before, λ i. (xor_zero_iff x y).0 same i ∷ rest i)

-- The comparison that looks at every character is the equality of the texts.
pub constant_time_eq_iff : (a b : Text) → (constant_time_eq a b ≡ true) ↔ (a ≡ b)
unfolding constant_time_eq
constant_time_eq_iff a b = (equal a b, λ e. ap (constant_time_eq a) (sym e) ∙ itself a)
  where
    itself : (c : Text) → constant_time_eq c c ≡ true
    itself c = rw ((nat_beq_iff (length c) (length c)).1 refl, differences_self c)

    equal : (c d : Text) → constant_time_eq c d ≡ true → c ≡ d
    equal c d h = elim (Bool-cases (nat_beq (length c) (length d))) [
      | inl l ↦
          (differences_zero 0 c d ((nat_beq_iff (length c) (length d)).0 l)
            (ground (arith, nat_beq_iff (differences 0 c d) 0))).1
      | inr n ↦ cc
    ]
