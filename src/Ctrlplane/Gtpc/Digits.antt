-- ===== src/Ctrlplane/Gtpc/Digits.antt =====
-- gtpc_digits_set and gtpc_digits_get of ctrlplane/src/pkt/gtpc_item_func.c: a number as pairs of
-- decimal digits with 0xf for none.
-- snprintf with %llu and strtoull are the decimal notation of a number, written out here. A number below 2 ^ 64 has at most 20 digits, so bf is not cut in
-- gtpc_digits_set; gtpc_digits_get cuts bf at more than 31 pairs, which no item has.
pub mod Decimal
use mixi_pgw.Prelude.{
  ℕ, zero, suc, ◌+◌, ◌-◌, ◌*◌, ◌/◌, ◌%◌, ◌^◌, ◌<◌, ◌≤◌, ◌≡◌, refl, ap, sym, ◌∙◌, arith,
  if◌then◌else◌, Option, none, some, List, [], ◌∷◌, ◌++◌, length, length-append, ltb, leb, ◌==◌,
  ◌&&◌, ◌||◌, Bool, true, false,
}

pub record Numberdigit : Type 0 where
  pub low : ℕ
  pub high : ℕ

-- The digits of `%llu`, first digit first; `fuel` bounds their number.
unfoldable pub print_digits : ℕ → ℕ → List ℕ
print_digits zero n = []
print_digits (suc fuel) n = if ltb n 10 then n ∷ [] else print_digits fuel (n / 10) ++ (n % 10 ∷ [])

-- %llu of a U64
abbrev pub max_digits : ℕ
max_digits = 20

unfoldable pub print_llu : ℕ → List ℕ
print_llu n = print_digits max_digits n

-- strtoull in base 10 of what was read before and the digits that follow
unfoldable pub strtoull : ℕ → List ℕ → ℕ
strtoull before [] = before
strtoull before (d ∷ rest) = strtoull (before * 10 + d) rest

-- memset to 0xff
unfoldable pub blank_digits : ℕ → List Numberdigit
blank_digits zero = []
blank_digits (suc len) = record { low = 0xf; high = 0xf } ∷ blank_digits len

-- The loop of gtpc_digits_set over bf, two digits in a round, into an array of len pairs.
unfoldable pub set_pairs : ℕ → List ℕ → List Numberdigit
set_pairs len [] = blank_digits len
set_pairs zero (d ∷ rest) = []
set_pairs (suc len) (d ∷ []) = record { low = d; high = 0xf } ∷ blank_digits len
set_pairs (suc len) (d ∷ e ∷ rest) = record { low = d; high = e } ∷ set_pairs len rest

unfoldable pub digits_set : ℕ → ℕ → Option (List Numberdigit)
digits_set len digit =
    if leb (length (print_llu digit)) (len * 2)
    then some (set_pairs len (print_llu digit))
    else none

-- %d of four bits
unfoldable pub print_nibble : ℕ → List ℕ
print_nibble n = if ltb n 10 then n ∷ [] else 1 ∷ (n - 10) ∷ []

-- What one pair adds to bf.
unfoldable pub pair_digits : Numberdigit → List ℕ
pair_digits d =
    if d.high == 0xf && d.low == 0xf
    then []
    else if d.high == 0xf
    then print_nibble d.low
    else if d.low == 0xf
    then print_nibble d.high
    else print_nibble d.low ++ print_nibble d.high

unfoldable pub read_digits : List Numberdigit → List ℕ
read_digits [] = []
read_digits (d ∷ rest) = pair_digits d ++ read_digits rest

-- Before and behind the call: whether errno is ERANGE. Only an overflow sets it, and nothing clears it.
unfoldable pub digits_get : Bool → List Numberdigit → ℕ × Bool
digits_get is_erange digits =
    let ret = strtoull 0 (read_digits digits) in
    let erange = is_erange || leb (2 ^ 64) ret in (if erange then 2 ^ 64 - 1 else ret, erange)
