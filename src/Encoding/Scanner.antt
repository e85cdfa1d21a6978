-- ===== src/Encoding/Scanner.antt =====
-- `json.Valid`: the scanner of encoding/json, one state and a stack of open objects and arrays.
use postie.Prelude.{
  ℕ, zero, suc, Bool, true, false, ◌&&◌, ◌||◌, Option, none, some, List, [], ◌∷◌, if◌then◌else◌,
  ltb, leb, eqb, Bytes, length,
}

pub data Mode : Type 0 where
  begin_value begin_value_or_end begin_string begin_string_or_end end_value : Mode
  in_string in_escape : Mode
  in_hex : ℕ → Mode
  minus zero_digit digits point point_digits exponent exponent_sign exponent_digits : Mode
  word : Bytes → Mode

pub data Frame : Type 0 where
  object_key object_value array_value : Frame

abbrev max_nesting_depth : ℕ
max_nesting_depth = 10000

abbrev State : Type 0
State = Mode × List Frame

is_space : ℕ → Bool
is_space c = eqb c b' ' || eqb c 9 || eqb c 13 || eqb c 10

is_digit : ℕ → Bool
is_digit c = leb b'0' c && leb c b'9'

is_exponent : ℕ → Bool
is_exponent c = eqb c b'e' || eqb c b'E'

is_hex : ℕ → Bool
unfolding is_digit
is_hex c = is_digit c || (leb b'a' c && leb c b'f') || (leb b'A' c && leb c b'F')

push : Frame → Mode → List Frame → Option State
push frame mode stack =
    if leb (length (frame ∷ stack)) max_nesting_depth then some (mode, frame ∷ stack) else none

start_value : List Frame → ℕ → Option State
unfolding push
start_value stack c =
    if eqb c b'{'
    then push object_key begin_string_or_end stack
    else if eqb c b'['
    then push array_value begin_value_or_end stack
    else if eqb c b'"'
    then some (in_string, stack)
    else if eqb c b'-'
    then some (minus, stack)
    else if eqb c b'0'
    then some (zero_digit, stack)
    else if leb b'1' c && leb c b'9'
    then some (digits, stack)
    else if eqb c b't'
    then some (word (b'r' ∷ b'u' ∷ b'e' ∷ []), stack)
    else if eqb c b'f'
    then some (word (b'a' ∷ b'l' ∷ b's' ∷ b'e' ∷ []), stack)
    else if eqb c b'n'
    then some (word (b'u' ∷ b'l' ∷ b'l' ∷ []), stack)
    else none

end_step : List Frame → ℕ → Option State
end_step [] c = none
end_step (object_key ∷ stack) c =
    if eqb c b':' then some (begin_value, object_value ∷ stack) else none
end_step (object_value ∷ stack) c =
    if eqb c b','
    then some (begin_string, object_key ∷ stack)
    else if eqb c b'}'
    then some (end_value, stack)
    else none
end_step (array_value ∷ stack) c =
    if eqb c b','
    then some (begin_value, array_value ∷ stack)
    else if eqb c b']'
    then some (end_value, stack)
    else none

-- Behind a value, spaces are passed over.
ended : List Frame → ℕ → Option State
unfolding end_step is_space
ended stack c = if is_space c then some (end_value, stack) else end_step stack c

pop : List Frame → List Frame
pop [] = []
pop (frame ∷ stack) = stack

escapes : ℕ → Bool
escapes c =
    eqb c b'b'
    || eqb c b'f'
    || eqb c b'n'
    || eqb c b'r'
    || eqb c b't'
    || eqb c b'\\'
    || eqb c b'/'
    || eqb c b'"'

next_word : Bytes → List Frame → ℕ → Option State
next_word [] stack c = none
next_word (x ∷ []) stack c = if eqb c x then some (end_value, stack) else none
next_word (x ∷ y ∷ more) stack c = if eqb c x then some (word (y ∷ more), stack) else none

step : Mode → List Frame → ℕ → Option State
unfolding start_value ended is_space is_digit is_exponent is_hex pop escapes next_word
step begin_value stack c = if is_space c then some (begin_value, stack) else start_value stack c
step begin_value_or_end stack c =
    if is_space c
    then some (begin_value_or_end, stack)
    else if eqb c b']'
    then some (end_value, pop stack)
    else start_value stack c
step begin_string stack c =
    if is_space c
    then some (begin_string, stack)
    else if eqb c b'"'
    then some (in_string, stack)
    else none
step begin_string_or_end stack c =
    if is_space c
    then some (begin_string_or_end, stack)
    else if eqb c b'}'
    then some (end_value, pop stack)
    else if eqb c b'"'
    then some (in_string, stack)
    else none
step end_value stack c = ended stack c
step in_string stack c =
    if eqb c b'"'
    then some (end_value, stack)
    else if eqb c b'\\'
    then some (in_escape, stack)
    else if ltb c 32
    then none
    else some (in_string, stack)
step in_escape stack c =
    if escapes c
    then some (in_string, stack)
    else if eqb c b'u'
    then some (in_hex 3, stack)
    else none
step (in_hex zero) stack c = if is_hex c then some (in_string, stack) else none
step (in_hex (suc left)) stack c = if is_hex c then some (in_hex left, stack) else none
step minus stack c =
    if eqb c b'0'
    then some (zero_digit, stack)
    else if is_digit c
    then some (digits, stack)
    else none
step zero_digit stack c =
    if eqb c b'.'
    then some (point, stack)
    else if is_exponent c
    then some (exponent, stack)
    else ended stack c
step digits stack c =
    if is_digit c
    then some (digits, stack)
    else if eqb c b'.'
    then some (point, stack)
    else if is_exponent c
    then some (exponent, stack)
    else ended stack c
step point stack c = if is_digit c then some (point_digits, stack) else none
step point_digits stack c =
    if is_digit c
    then some (point_digits, stack)
    else if is_exponent c
    then some (exponent, stack)
    else ended stack c
step exponent stack c =
    if eqb c b'+' || eqb c b'-'
    then some (exponent_sign, stack)
    else if is_digit c
    then some (exponent_digits, stack)
    else none
step exponent_sign stack c = if is_digit c then some (exponent_digits, stack) else none
step exponent_digits stack c = if is_digit c then some (exponent_digits, stack) else ended stack c
step (word more) stack c = next_word more stack c

-- The end of the text, which counts as a space.
is_end : Mode → List Frame → Bool
is_end end_value [] = true
is_end zero_digit [] = true
is_end digits [] = true
is_end point_digits [] = true
is_end exponent_digits [] = true
is_end _ _ = false

scan : Mode → List Frame → Bytes → Bool
unfolding step is_end
scan mode stack [] = is_end mode stack
scan mode stack (c ∷ s) = elim (step mode stack c) [
  | none ↦ false
  | some next ↦ scan next.0 next.1 s
]

unfoldable pub valid_json : Bytes → Bool
unfolding scan
valid_json s = scan begin_value [] s
