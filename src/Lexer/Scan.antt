-- ===== src/Lexer/Scan.antt =====
-- crates/cobol-lexer/src/lexer.rs: how far the loops of the lexer run, over the bytes that are left.
use rust_cobol.Prelude.{
  ℕ, suc, ◌+◌, ◌-◌, ◌*◌, min, Bool, true, false, not, ◌&&◌, ◌||◌, Option, none, some, List, [], ◌∷◌,
  ltb, leb, ◌==◌, if◌then◌else◌, length, take, drop,
}
use rust_cobol.Prelude.Text.{
  Text, text_eq, is_ascii_digit, is_ascii_uppercase, is_ascii_lowercase, is_ascii_alphanumeric,
  is_ascii_whitespace, uppercase,
}
use rust_cobol.Lexer.Kinds.{TokenKind}

abbrev pub is_ascii_alphabetic : ℕ → Bool
is_ascii_alphabetic b = is_ascii_uppercase b || is_ascii_lowercase b

-- How many bytes at the start of a text pass a test.
unfoldable pub count_while : (ℕ → Bool) → List ℕ → ℕ
count_while test [] = 0
count_while test (b ∷ bs) = let rest = count_while test bs in if test b then suc rest else 0

abbrev pub is_word_byte : ℕ → Bool
is_word_byte b = is_ascii_alphanumeric b || b == b'-'

abbrev pub is_blank_byte : ℕ → Bool
is_blank_byte b = b == b' ' || b == 9

-- The length without the hyphens at the end.
unfoldable pub trimmed_length : List ℕ → ℕ
trimmed_length [] = 0
trimmed_length (b ∷ bs) =
    let rest = trimmed_length bs in if rest == 0 && b == b'-' then 0 else suc rest

abbrev pub next_is : (ℕ → Bool) → List ℕ → Bool
next_is test [] = false
next_is test (b ∷ bs) = test b

-- The loop of a literal behind its opening quote: how many bytes belong to it, and whether it is
-- closed before the line ends.
unfoldable pub literal_length : ℕ → List ℕ → ℕ × Bool
literal_length quote [] = (0, false)
literal_length quote (c ∷ []) =
    if c == 10 then (0, false) else if c == quote then (1, true) else (1, false)
literal_length quote (c ∷ d ∷ cs) =
    let doubled = literal_length quote cs in
    let rest = literal_length quote (d ∷ cs) in
    if c == 10
    then (0, false)
    else if c == quote
    then (if d == quote then (2 + doubled.0, doubled.1) else (1, true))
    else (1 + rest.0, rest.1)

-- The loop of a picture: a period belongs to it unless white space or the end follows.
unfoldable pub picture_length : List ℕ → ℕ
picture_length [] = 0
picture_length (c ∷ cs) =
    let rest = picture_length cs in
    if is_ascii_whitespace c
    then 0
    else if c == b'.' && (length cs == 0 || next_is is_ascii_whitespace cs)
    then 0
    else suc rest

-- The digits of a number from its sign on, without the fraction.
abbrev pub integer_length : Bool → List ℕ → ℕ
integer_length has_sign text =
    if has_sign
    then suc (count_while is_ascii_digit (drop 1 text))
    else count_while is_ascii_digit text

-- Whether what follows the digits makes them a word.
abbrev pub continues_word : List ℕ → Bool
continues_word [] = false
continues_word (b ∷ bs) = is_ascii_alphabetic b || (b == b'-' && next_is is_ascii_alphanumeric bs)

-- The period and the digits of a fraction.
abbrev pub fraction_length : List ℕ → ℕ
fraction_length [] = 0
fraction_length (b ∷ bs) =
    if b == b'.' && next_is is_ascii_digit bs then suc (count_while is_ascii_digit bs) else 0

-- `parse::<u32>` of one or two digits, and the level numbers.
abbrev decimal_value : ℕ → List ℕ → ℕ
decimal_value v [] = v
decimal_value v (b ∷ bs) = decimal_value (v * 10 + (b - b'0')) bs

unfoldable pub is_level : List ℕ → Bool
is_level digits =
    let n = decimal_value 0 digits in (leb 1 n && leb n 49) || n == 66 || n == 77 || n == 88

-- The level number at the start of a text, by its length.
unfoldable pub level_length : List ℕ → Option ℕ
level_length text =
    let n = min 3 (count_while is_ascii_digit text) in
    let after = drop n text in
    if ltb 2 n || n == 0
    then none
    else if not (length after == 0) && not (next_is (λ b. b == b' ' || b == 9 || b == b'.') after)
    then none
    else if is_level (take n text)
    then some n
    else none

-- `remaining_starts_with_ignore_case`
unfoldable pub starts_with_ignore_case : Text → List ℕ → Bool
starts_with_ignore_case target text =
    not (ltb (length text) (length target))
    && text_eq (uppercase (take (length target) text)) (uppercase target)

-- `should_treat_as_sign`, over the bytes before the position, the last one first.
abbrev opens_number : ℕ → Bool
opens_number b =
    b == b'='
    || b == b'+'
    || b == b'-'
    || b == b'*'
    || b == b'/'
    || b == b'('
    || b == b','
    || b == b';'

unfoldable pub sign_after : List ℕ → Bool
sign_after [] = true
sign_after (b ∷ bs) = let rest = sign_after bs in if is_blank_byte b then rest else opens_number b

unfoldable pub should_treat_as_sign : List ℕ → Bool
should_treat_as_sign before = next_is is_blank_byte before || sign_after before

-- `try_lex_operator`, but for the period: the kind of token and its length.
unfoldable pub operator : ℕ → List ℕ → Option (TokenKind × ℕ)
operator ch next =
    if ch == b'('
    then some (TokenKind.left_paren, 1)
    else if ch == b')'
    then some (TokenKind.right_paren, 1)
    else if ch == b'+'
    then some (TokenKind.plus, 1)
    else if ch == b'-'
    then some (TokenKind.minus, 1)
    else if ch == b'*'
    then (if next_is (λ b. b == b'*') next
        then some (TokenKind.double_star, 2)
        else some (TokenKind.star, 1))
    else if ch == b'/'
    then some (TokenKind.slash, 1)
    else if ch == b'='
    then (if next_is (λ b. b == b'>') next
        then some (TokenKind.equal_greater, 2)
        else some (TokenKind.equals, 1))
    else if ch == b'>'
    then (if next_is (λ b. b == b'=') next
        then some (TokenKind.greater_equal, 2)
        else some (TokenKind.greater_than, 1))
    else if ch == b'<'
    then (if next_is (λ b. b == b'=') next
        then some (TokenKind.less_equal, 2)
        else if next_is (λ b. b == b'>') next
        then some (TokenKind.not_equal, 2)
        else some (TokenKind.less_than, 1))
    else if ch == b','
    then some (TokenKind.comma, 1)
    else if ch == b';'
    then some (TokenKind.semicolon, 1)
    else if ch == b':'
    then (if next_is (λ b. b == b':') next
        then some (TokenKind.double_colon, 2)
        else some (TokenKind.colon, 1))
    else none
