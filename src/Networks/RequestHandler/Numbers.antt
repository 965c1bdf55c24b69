-- ===== src/Networks/RequestHandler/Numbers.antt =====
-- `std::stoi`, by which Networks/RequestHandler.cpp reads the numbers in its headers.
use minority_viewport.Base.{
  ℕ, ◌-◌, ◌%◌, ◌^◌, Bool, true, false, ◌&&◌, [], ◌∷◌, Bytes, Result, ok, err, invalid_argument,
  out_of_range, leb, ltb, ◌==◌, if◌then◌else◌,
}
use minority_viewport.Base.Decimal.{read_decimal}
use minority_viewport.Networks.RequestHandler.UrlDecode.{is_space}

unfoldable pub skip_blanks : Bytes → Bytes
unfolding is_space
skip_blanks [] = []
skip_blanks (c ∷ cs) = if is_space c then skip_blanks cs else c ∷ cs

-- The digits in front.
unfoldable pub leading_digits : Bytes → Bytes
leading_digits [] = []
leading_digits (c ∷ cs) = if leb b'0' c && leb c b'9' then c ∷ leading_digits cs else []

-- A number of digits in a range, as a pattern of 32 bits.
unfoldable pub read_unsigned : Bool → Bytes → Result ℕ
read_unsigned negative [] = err invalid_argument
read_unsigned negative (c ∷ cs) =
    let n = read_decimal 0 (c ∷ cs) in
    if ltb (if negative then 2 ^ 31 else 2 ^ 31 - 1) n
    then err out_of_range
    else ok (if negative then (2 ^ 32 - n) % 2 ^ 32 else n)

unfoldable pub read_signed : Bytes → Result ℕ
unfolding read_unsigned leading_digits
read_signed [] = err invalid_argument
read_signed (c ∷ cs) =
    if c == b'-'
    then read_unsigned true (leading_digits cs)
    else if c == b'+'
    then read_unsigned false (leading_digits cs)
    else read_unsigned false (leading_digits (c ∷ cs))

-- A number behind blanks; what follows it is ignored.
unfoldable pub stoi : Bytes → Result ℕ
unfolding read_signed skip_blanks
stoi text = read_signed (skip_blanks text)
