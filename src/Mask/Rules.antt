-- ===== src/Mask/Rules.antt =====
-- internal/relay/mask/rules.go: the checks that keep ordinary numbers from being masked. A text is
-- read by its bytes: no byte of a character beyond ASCII is a digit. The calendar of the time
-- package is a parameter.
pub mod Checksums
pub mod Identity
use nova_vei.Base.{
  ℕ, zero, suc, ◌+◌, ◌-◌, ◌*◌, ◌%◌, Bool, true, false, ◌&&◌, ◌||◌, not, List, [], ◌∷◌, Option, none,
  some, reverse, map, if◌then◌else◌, ltb, leb, ◌==◌, nat_eq, length, select, get_elem?, take, drop,
}
use nova_vei.Mask.Bytes.{Bytes}

unfoldable pub is_digit : ℕ → Bool
is_digit c = leb b'0' c && leb c b'9'

abbrev pub digit : ℕ → ℕ
digit c = c - b'0'

unfoldable pub digits_of : Bytes → List ℕ
unfolding is_digit
digits_of num = map digit (select is_digit num)

abbrev pub doubled : ℕ → ℕ
doubled d = if ltb 9 (d * 2) then d * 2 - 9 else d * 2

-- The loop of luhnOK, over the digits from the last one on.
unfoldable pub luhn_sum : Bool → List ℕ → ℕ
luhn_sum dbl [] = 0
luhn_sum dbl (d ∷ ds) = (if dbl then doubled d else d) + luhn_sum (not dbl) ds

unfoldable pub luhn_digits : List ℕ → Bool
unfolding luhn_sum
luhn_digits digits =
    if ltb (length digits) 12 then false else luhn_sum false (reverse digits) % 10 == 0

-- luhnOK
unfoldable pub luhn_ok : Bytes → Bool
unfolding digits_of luhn_digits
luhn_ok num = luhn_digits (digits_of num)

abbrev pub idcard_w : List ℕ
idcard_w = 7 ∷ 9 ∷ 10 ∷ 5 ∷ 8 ∷ 4 ∷ 2 ∷ 1 ∷ 6 ∷ 3 ∷ 7 ∷ 9 ∷ 10 ∷ 5 ∷ 8 ∷ 4 ∷ 2 ∷ []

-- "10X98765432"
abbrev pub idcard_code : Bytes
idcard_code = b'1' ∷ b'0' ∷ b'X' ∷ b'9' ∷ b'8' ∷ b'7' ∷ b'6' ∷ b'5' ∷ b'4' ∷ b'3' ∷ b'2' ∷ []

-- The weighted sum of idcard18OK.
unfoldable pub weighted : List ℕ → List ℕ → ℕ
weighted [] ds = 0
weighted (w ∷ ws) [] = 0
weighted (w ∷ ws) (d ∷ ds) = d * w + weighted ws ds

abbrev pub upper : ℕ → ℕ
upper last = if leb b'a' last && leb last b'z' then last - 32 else last

-- `last == idcardCode[total%11]`
unfoldable pub check_digit_ok : Bytes → Bool
unfolding weighted
check_digit_ok num =
    let total = weighted idcard_w (map digit (take 17 num)) in
    elim (get_elem? num 17) [
      | none ↦ false
      | some last ↦ elim (get_elem? idcard_code (total % 11)) [
        | none ↦ false
        | some code ↦ upper last == code
      ]
    ]

abbrev pub idcard_provinces : List ℕ
idcard_provinces =
    11 ∷ 12 ∷ 13 ∷ 14 ∷ 15 ∷ 21 ∷ 22 ∷ 23 ∷ 31 ∷ 32 ∷ 33 ∷ 34 ∷ 35 ∷ 36 ∷ 37 ∷ 41 ∷ 42 ∷ 43 ∷ 44
    ∷ 45 ∷ 46 ∷ 50 ∷ 51 ∷ 52 ∷ 53 ∷ 54 ∷ 61 ∷ 62 ∷ 63 ∷ 64 ∷ 65 ∷ 71 ∷ 81 ∷ 82 ∷ []

abbrev pub is_one_of : List ℕ → ℕ → Bool
is_one_of [] n = false
is_one_of (x ∷ xs) n = x == n || is_one_of xs n

-- The value of a run of digits, `strconv.Atoi`.
abbrev pub number_from : ℕ → Bytes → ℕ
number_from n [] = n
number_from n (c ∷ cs) = number_from (n * 10 + digit c) cs

abbrev pub all_digits : Bytes → Bool
all_digits [] = true
all_digits (c ∷ cs) = is_digit c && all_digits cs

-- `num[from:to]` as a number
abbrev pub slice_number : ℕ → ℕ → Bytes → ℕ
slice_number from count num = number_from 0 (take count (drop from num))

-- idcard18OK. `is_date` tells whether time.Date gives the year, month and day back; `this_year` is
-- the clock's.
unfoldable pub idcard18_ok : (ℕ → ℕ → ℕ → Bool) → ℕ → Bytes → Bool
unfolding is_digit check_digit_ok
idcard18_ok is_date this_year num =
    let year = slice_number 6 4 num in
    length num == 18
    && all_digits (take 17 num)
    && is_one_of idcard_provinces (slice_number 0 2 num)
    && is_date year (slice_number 10 2 num) (slice_number 12 2 num)
    && (leb 1880 year && leb year this_year)
    && check_digit_ok num
