-- ===== src/Text.antt =====
-- src/base/base_strings.c: a String8 is its list of bytes. Characters, slices, comparison, decimal
-- numbers.
pub mod Match
use Prim.Native.Char.{code}
use Prim.Native.String.{String}
use compute_ql.Shared.{
  ℕ, zero, suc, ◌+◌, ◌-◌, ◌*◌, ◌%◌, ◌^◌, Bool, true, false, ◌&&◌, ◌||◌, not, List, [], ◌∷◌, ltb,
  leb, ◌==◌, if◌then◌else◌, take, drop, length,
}

abbrev pub Text : Type 0
Text = List ℕ

-- `str8_lit`: the bytes of an ASCII literal.
abbrev pub str8_lit : String → Text
str8_lit String.[] = []
str8_lit (String.◌∷◌ c s) = code c ∷ str8_lit s

unfoldable pub char_is_lower : ℕ → Bool
char_is_lower c = leb b'a' c && leb c b'z'

unfoldable pub char_is_upper : ℕ → Bool
char_is_upper c = leb b'A' c && leb c b'Z'

unfoldable pub char_is_alpha : ℕ → Bool
char_is_alpha c = char_is_upper c || char_is_lower c

unfoldable pub char_is_space : ℕ → Bool
char_is_space c =
    (c == b' ') || (c == 0x0a) || (c == 0x09) || (c == 0x0d) || (c == 0x0c) || (c == 0x0b)

-- `c += ('A' - 'a')` on a U8.
unfoldable pub char_to_upper : ℕ → ℕ
unfolding char_is_lower
char_to_upper c = if char_is_lower c then (c + 256 + b'A' - b'a') % 256 else c

unfoldable pub char_is_slash : ℕ → Bool
char_is_slash c = (c == b'/') || (c == 0x5c)

unfoldable pub char_to_correct_slash : ℕ → ℕ
unfolding char_is_slash
char_to_correct_slash c = if char_is_slash c then b'/' else c

-- StringMatchFlags.
pub record MatchFlags : Type 0 where
  pub case_insensitive : Bool
  pub right_side_sloppy : Bool
  pub slash_insensitive : Bool

abbrev pub match_exact : MatchFlags
match_exact = record {
  case_insensitive = false;
  right_side_sloppy = false;
  slash_insensitive = false;
}

abbrev pub match_any_case : MatchFlags
match_any_case = record match_exact { case_insensitive = true }

-- What the loop of `str8_match` compares for one byte.
unfoldable pub adjust_char : MatchFlags → ℕ → ℕ
unfolding char_to_upper char_to_correct_slash
adjust_char flags c =
    let cased : ℕ = if flags.case_insensitive then char_to_upper c else c in
    if flags.slash_insensitive then char_to_correct_slash cased else cased

-- The loop of `str8_match`: it runs over the shorter of the two texts.
unfoldable pub match_loop : MatchFlags → Text → Text → Bool
match_loop flags [] b = true
match_loop flags (x ∷ a) [] = true
match_loop flags (x ∷ a) (y ∷ b) =
    let rest : Bool = match_loop flags a b in
    if adjust_char flags x == adjust_char flags y then rest else false

unfoldable pub str8_match : Text → Text → MatchFlags → Bool
str8_match a b flags =
    if (length a == length b) || flags.right_side_sloppy then match_loop flags a b else false

unfoldable pub str8_prefix : Text → ℕ → Text
str8_prefix s size = take size s

unfoldable pub str8_skip : Text → ℕ → Text
str8_skip s amount = drop amount s

-- `str8_substr(str, r1u64(first, opl))`.
unfoldable pub str8_substr : Text → ℕ → ℕ → Text
str8_substr s first opl = take (opl - first) (drop first s)

-- `integer_symbol_reverse`, its 128 entries.
unfoldable pub integer_symbol_reverse : ℕ → ℕ
integer_symbol_reverse c =
    if leb b'0' c && leb c b'9'
    then c - b'0'
    else if leb b'A' c && leb c b'F'
    then c - b'A' + 10
    else if leb b'a' c && leb c b'f'
    then c - b'a' + 10
    else 0xff

-- The table has 128 entries and the index is any byte: `past` is what memory holds after the table.
unfoldable pub char_is_digit : (ℕ → ℕ) → ℕ → ℕ → Bool
unfolding integer_symbol_reverse
char_is_digit past c base =
    if ltb 0 base && leb base 16
    then ltb (if ltb c 0x80 then integer_symbol_reverse c else past c) base
    else false

unfoldable pub all_symbols : Text → ℕ → Bool
unfolding integer_symbol_reverse
all_symbols [] radix = true
all_symbols (c ∷ s) radix =
    let rest : Bool = all_symbols s radix in
    if not (ltb c 0x80) || leb radix (integer_symbol_reverse c) then false else rest

unfoldable pub str8_is_integer : Text → ℕ → Bool
unfolding all_symbols
str8_is_integer s radix =
    if ltb 0 (length s)
    then (if ltb 1 radix && leb radix 16 then all_symbols s radix else false)
    else false

-- `x *= radix; x += integer_symbol_reverse[c & 0x7F]` on a U64.
unfoldable pub u64_loop : ℕ → ℕ → Text → ℕ
unfolding integer_symbol_reverse
u64_loop radix x [] = x
u64_loop radix x (c ∷ s) =
    u64_loop radix ((x * radix % 2 ^ 64 + integer_symbol_reverse (c % 128)) % 2 ^ 64) s

unfoldable pub u64_from_str8 : Text → ℕ → ℕ
unfolding u64_loop
u64_from_str8 s radix = if ltb 1 radix && leb radix 16 then u64_loop radix 0 s else 0
