-- ===== src/Notify/Ids.antt =====
-- strconv.Itoa and strconv.Atoi, by which internal/notify/notify.go keeps the ID of a Telegram
-- message as the reference of an alert.
use Prim.Native.Nat.{◌^◌}
use mathlib.Core.List.{reverse, reverse_aux, reverse-reverse}
use malert.Queue.Job.{digits_below, format_int}
use malert.Base.{
  All, Text, ℕ, zero, suc, ◌+◌, ◌*◌, ◌/◌, ◌%◌, ◌≤◌, ◌<◌, ◌≡◌, refl, ◌≢◌, [], ◌∷◌, arith, leb, ◌==◌,
  Int64, int64_half, is_space, drop_spaces, trim_space, ◌-◌, true, false, some, ltb,
}
use malert.Config.OffWindow.{parse_digits, atoi}

parse_digits_step :
    (d m : ℕ) (acc : Text)
    → d < 10
    → parse_digits ((b'0' + d) ∷ acc) m ≡ parse_digits acc (m * 10 + d)
unfolding parse_digits
parse_digits_step d m acc h = ground arith

-- Reading the digits of a number, and then what follows them.
parse_digits-digits_below :
    (fuel n : ℕ) (acc : Text)
    → n < 10 ^ fuel
    → parse_digits (digits_below fuel n acc) 0 ≡ parse_digits acc n
unfolding digits_below
parse_digits-digits_below zero n acc h = let z : n ≡ 0 = omega (arith) in rw z refl
parse_digits-digits_below (suc fuel) n acc h =
    let small : n / 10 < 10 ^ fuel = omega arith in
    ground (
      arith,
      parse_digits_step (n % 10) 0 acc,
      parse_digits_step (n % 10) (n / 10) acc,
      parse_digits-digits_below fuel (n / 10) ((b'0' + n % 10) ∷ acc) small,
    )

abbrev pub IsDigit : ℕ → Type 0
IsDigit c = (b'0' ≤ c) × (c ≤ b'9')

-- The digits of a number, of which there is at least one, come before what follows them.
pub digits_below-IsDigit :
    (fuel n : ℕ) (acc : Text) → All IsDigit acc → All IsDigit (digits_below fuel n acc)
unfolding digits_below
digits_below-IsDigit zero n acc h = h
digits_below-IsDigit (suc fuel) n acc h =
    ground (arith, digits_below-IsDigit fuel (n / 10) ((b'0' + n % 10) ∷ acc))

digits_below_ne : (fuel n c : ℕ) (acc : Text) → digits_below fuel n (c ∷ acc) ≢ []
unfolding digits_below
digits_below_ne zero n c acc h = cc
digits_below_ne (suc fuel) n c acc h =
    ground (arith, digits_below_ne fuel (n / 10) (b'0' + n % 10) (c ∷ acc))

digit-is_space : (c : ℕ) → IsDigit c → is_space c ≡ false
unfolding is_space
digit-is_space c h = ground arith

drop_spaces_digits : (s : Text) → All IsDigit s → drop_spaces s ≡ s
unfolding drop_spaces
drop_spaces_digits [] h = refl
drop_spaces_digits (c ∷ s) h = rw (digit-is_space c h.0) refl

All-reverse : (s acc : Text) → All IsDigit s → All IsDigit acc → All IsDigit (reverse_aux s acc)
All-reverse [] acc hs ha = ha
All-reverse (c ∷ s) acc hs ha = All-reverse s (c ∷ acc) hs.1 (hs.0, ha)

-- There are no spaces around digits.
pub trim_space_digits : (s : Text) → All IsDigit s → trim_space s ≡ s
unfolding trim_space
trim_space_digits s h =
    rw
      (
        drop_spaces_digits s h,
        drop_spaces_digits (reverse s) (All-reverse s [] h tt),
        reverse-reverse s,
      )
      refl

atoi_digits :
    (s : Text) (n : ℕ)
    → All IsDigit s
    → s ≢ []
    → parse_digits s 0 ≡ some n
    → n < int64_half
    → atoi s ≡ some (record { negative = false; magnitude = n })
unfolding atoi
atoi_digits [] n h ne e small = absurd (ne refl)
atoi_digits (c ∷ s) n h ne e small =
    let minus : (c == b'-') ≡ false = ground arith in
    let plus : (c == b'+') ≡ false = ground arith in
    let fits : leb n (int64_half - 1) ≡ true = ground arith in rw (minus, plus, e, fits) refl

pub format_int_below : (id : Int64) → id < int64_half → format_int id ≡ digits_below 20 id []
unfolding format_int digits_below
format_int_below id h = let e : ltb id int64_half ≡ true = ground arith in rw e refl

pub digits_below-nonempty : (fuel n : ℕ) → digits_below (suc fuel) n [] ≢ []
unfolding digits_below
digits_below-nonempty fuel n = ground (arith, digits_below_ne fuel (n / 10) (b'0' + n % 10) [])

-- An int64 that is not negative is read back.
pub atoi-format_int :
    (id : Int64)
    → id < int64_half
    → atoi (trim_space (format_int id)) ≡ some (record { negative = false; magnitude = id })
unfolding parse_digits
atoi-format_int id h =
    let digits = digits_below-IsDigit 20 id [] tt in
    let small : id < 10 ^ 20 = omega arith in
    rw (format_int_below id h, trim_space_digits (digits_below 20 id []) digits)
      (atoi_digits (digits_below 20 id []) id digits (digits_below-nonempty 19 id)
        (parse_digits-digits_below 20 id [] small) h)
