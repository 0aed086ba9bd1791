-- ===== src/Abi/Uri/Decimal.antt =====
-- crates/abi/src/uri.rs: the decimal digits of an id.
use selium.Base.{
  ℕ, zero, suc, ◌+◌, ◌*◌, ◌-◌, ◌/◌, ◌%◌, ◌^◌, ◌<◌, true, false, some, [], ◌∷◌, ◌≡◌, refl, sym, ap,
  ◌∙◌, arith, ltb, nat_beq, lt→ltb, Bool-cases, inl, inr, and_left, and_right,
}
use selium.Base.Text.{Text, all_chars, is_digit}
use selium.Abi.Uri.{digits, digits_value, parse_u64, show_u64, contains}

abbrev tens : ℕ → ℕ
tens zero = 1
tens (suc n) = 10 * tens n

-- The digits of a number onto some others: the first of them, and what they are together.
pub record Digits (n : ℕ) (acc out : Text) : Type 0 where
  pub first : ℕ
  pub rest : Text
  pub is_cons : out ≡ first ∷ rest
  pub value : digits_value out 0 ≡ digits_value acc n
  pub all_digits : all_chars is_digit out ≡ all_chars is_digit acc
  pub first_digit : is_digit first ≡ true

is_digit-digit : (n : ℕ) → n < 10 → is_digit (b'0' + n) ≡ true
is_digit-digit n h = ground arith

Digits-one : (n : ℕ) (acc : Text) → n < 10 → Digits n acc ((b'0' + n) ∷ acc)
unfolding digits_value all_chars
Digits-one n acc small = record {
  first = b'0' + n;
  rest = acc;
  is_cons = refl;
  value = ap (digits_value acc) (omega arith);
  all_digits = rw (is_digit-digit n small) refl;
  first_digit = is_digit-digit n small;
}

-- A digit more in front of what is there.
Digits-more :
    (n : ℕ) (acc out : Text) → Digits (n / 10) ((b'0' + n % 10) ∷ acc) out → Digits n acc out
unfolding digits_value all_chars
Digits-more n acc out d =
    let digit = is_digit-digit (n % 10) (omega arith) in
    let sums : n / 10 * 10 + ((b'0' + n % 10) - b'0') ≡ n = omega arith in
    record {
      first = d.first;
      rest = d.rest;
      is_cons = d.is_cons;
      value = d.value ∙ ap (digits_value acc) sums;
      all_digits = d.all_digits ∙ rw digit refl;
      first_digit = d.first_digit;
    }

digits-Digits :
    (fuel n : ℕ) (acc : Text) → n < tens (suc fuel) → Digits n acc (digits (suc fuel) n acc)
unfolding digits
digits-Digits zero n acc h = rw (lt→ltb n 10 (omega arith)) (Digits-one n acc (omega arith))
digits-Digits (suc fuel) n acc h = elim (Bool-cases (ltb n 10)) [
  | inl small ↦ rw small (Digits-one n acc (ground arith))
  | inr large ↦ rw large (
      Digits-more n acc (digits (suc fuel) (n / 10) ((b'0' + n % 10) ∷ acc))
        (digits-Digits fuel (n / 10) ((b'0' + n % 10) ∷ acc) (omega arith)))
]

-- What a digit is not.
is_digit-ne : (c d : ℕ) → is_digit c ≡ true → is_digit d ≡ false → nat_beq c d ≡ false
is_digit-ne c d h k = ground arith

contains-all_chars :
    (s : Text) (c : ℕ) → all_chars is_digit s ≡ true → is_digit c ≡ false → contains s c ≡ false
unfolding all_chars
contains-all_chars [] c h k = refl
contains-all_chars (x ∷ s) c h k =
    rw (is_digit-ne x c (and_left (is_digit x) _ h) k)
      (contains-all_chars s c (and_right (is_digit x) _ h) k)

parse_u64-digits :
    (c n : ℕ) (s : Text)
    → is_digit c ≡ true
    → all_chars is_digit (c ∷ s) ≡ true
    → digits_value (c ∷ s) 0 ≡ n
    → n < 2 ^ 64
    → parse_u64 (c ∷ s) ≡ some n
unfolding parse_u64
parse_u64-digits c n s first whole value small =
    rw (is_digit-ne c b'+' first refl, whole, value, lt→ltb n (2 ^ 64) small) refl

-- The text of an id: digits that are read back, with no slash among them.
pub record Shows (n : ℕ) (s : Text) : Type 0 where
  pub first : ℕ
  pub rest : Text
  pub is_cons : s ≡ first ∷ rest
  pub no_slash : contains s b'/' ≡ false
  pub all_digits : all_chars is_digit s ≡ true
  pub read : parse_u64 s ≡ some n

pub show_u64-Shows : (n : ℕ) → n < 2 ^ 64 → Shows n (show_u64 n)
unfolding all_chars digits_value
show_u64-Shows n small =
    let d = digits-Digits 19 n [] (omega arith) in
    let whole : all_chars is_digit (show_u64 n) ≡ true = d.all_digits in
    record {
      first = d.first;
      rest = d.rest;
      is_cons = d.is_cons;
      no_slash = contains-all_chars (show_u64 n) b'/' whole refl;
      all_digits = whole;
      read =
          ap parse_u64 d.is_cons
          ∙ parse_u64-digits d.first n d.rest d.first_digit (rw d.is_cons at whole)
              (sym (ap (λ t. digits_value t 0) d.is_cons) ∙ d.value) small;
    }
