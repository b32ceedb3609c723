-- ===== src/Text/Base64/Digits.antt =====
-- The alphabet and its inverse, and the arithmetic of a group of four digits.
use workpane.Prelude.{ℕ, ◌+◌, ◌*◌, ◌/◌, ◌%◌, ◌^◌, ◌<◌, ◌≡◌, ◌≢◌, some, arith}
use workpane.Text.Base64.{alphabet, value, shift_in}

pub value-alphabet : (d : ℕ) → d < 64 → value (alphabet d) ≡ some d
unfolding value alphabet
value-alphabet d h = ground arith

pub alphabet-value : (c d : ℕ) → value c ≡ some d → (alphabet d ≡ c) × (d < 64)
unfolding value alphabet
alphabet-value c d h = ground arith

-- The padding is no digit.
pub alphabet-ne-pad : (d : ℕ) → d < 64 → alphabet d ≢ b'='
unfolding alphabet
alphabet-ne-pad d h = ground arith

-- The bytes that the buffer gives up, whatever it held before.
pub second_byte :
    (b x y : ℕ) → x < 64 → y < 64 → shift_in (shift_in b x) y / 2 ^ 4 % 256 ≡ x * 4 + y / 16
unfolding shift_in
second_byte b x y h k = omega arith

pub third_byte :
    (b x y : ℕ) → x < 64 → y < 64 → shift_in (shift_in b x) y / 2 ^ 2 % 256 ≡ x % 16 * 16 + y / 4
unfolding shift_in
third_byte b x y h k = omega arith

pub fourth_byte :
    (b x y : ℕ) → x < 64 → y < 64 → shift_in (shift_in b x) y / 2 ^ 0 % 256 ≡ x % 4 * 64 + y
unfolding shift_in
fourth_byte b x y h k = omega arith

-- The bits that are left behind a short group.
pub rest_four : (b x : ℕ) → x < 64 → shift_in b x % 2 ^ 4 ≡ x % 16
unfolding shift_in
rest_four b x h = omega arith

pub rest_two : (b x : ℕ) → x < 64 → shift_in b x % 2 ^ 2 ≡ x % 4
unfolding shift_in
rest_two b x h = omega arith
