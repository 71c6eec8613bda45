-- ===== src/Common/Text.antt =====
-- What the code uses of Go's `strings`, `unicode` and `regexp`.
use Prim.Native.Char.{Char, code}
use Prim.Native.String.{String, count, ◌++◌}
use mathlib.Core.Bool.{Bool, true, false, ◌&&◌, ◌||◌}
use mathlib.Core.List.{List, [], ◌∷◌}
use Prim.Native.Nat.{ℕ, ◌+◌}
use pda_backend.Common.Tests.{leb, eqb, if◌then◌else◌}

-- `unicode.IsSpace`: the code points with the property White_Space.
unfoldable pub is_space : ℕ → Bool
is_space c =
    (leb 9 c && leb c 13)
    || eqb c 32
    || eqb c 0x85
    || eqb c 0xa0
    || eqb c 0x1680
    || (leb 0x2000 c && leb c 0x200a)
    || eqb c 0x2028
    || eqb c 0x2029
    || eqb c 0x202f
    || eqb c 0x205f
    || eqb c 0x3000

abbrev pub is_empty : String → Bool
is_empty String.[] = true
is_empty (String.◌∷◌ c s) = false

trim_left : String → String
unfolding is_space
trim_left String.[] = String.[]
trim_left (String.◌∷◌ c s) = if is_space (code c) then trim_left s else String.◌∷◌ c s

trim_right : String → String
unfolding is_space
trim_right String.[] = String.[]
trim_right (String.◌∷◌ c s) =
    let rest = trim_right s in
    if is_space (code c) && is_empty rest then String.[] else String.◌∷◌ c rest

-- `strings.TrimSpace`
unfoldable pub trim_space : String → String
unfolding trim_left trim_right
trim_space s = trim_right (trim_left s)

-- Simple folding of the ASCII letters and of the two letters outside ASCII that fold to one of
-- them (U+017F and U+212A). Other letters are taken to fold to themselves only.
fold_code : ℕ → ℕ
fold_code c =
    if leb b'A' c && leb c b'Z'
    then c + 32
    else if eqb c 0x17f
    then b's'
    else if eqb c 0x212a
    then b'k'
    else c

-- `strings.EqualFold`
unfoldable pub equal_fold : String → String → Bool
unfolding fold_code
equal_fold String.[] String.[] = true
equal_fold String.[] (String.◌∷◌ d t) = false
equal_fold (String.◌∷◌ c s) String.[] = false
equal_fold (String.◌∷◌ c s) (String.◌∷◌ d t) =
    eqb (fold_code (code c)) (fold_code (code d)) && equal_fold s t

-- The lower-case letters whose upper case is an ASCII letter, U+0131 and U+017F among them.
abbrev upper_table : List (ℕ × Char)
upper_table =
    (b'a', "A")
    ∷ (b'b', "B")
    ∷ (b'c', "C")
    ∷ (b'd', "D")
    ∷ (b'e', "E")
    ∷ (b'f', "F")
    ∷ (b'g', "G")
    ∷ (b'h', "H")
    ∷ (b'i', "I")
    ∷ (b'j', "J")
    ∷ (b'k', "K")
    ∷ (b'l', "L")
    ∷ (b'm', "M")
    ∷ (b'n', "N")
    ∷ (b'o', "O")
    ∷ (b'p', "P")
    ∷ (b'q', "Q")
    ∷ (b'r', "R")
    ∷ (b's', "S")
    ∷ (b't', "T")
    ∷ (b'u', "U")
    ∷ (b'v', "V")
    ∷ (b'w', "W")
    ∷ (b'x', "X")
    ∷ (b'y', "Y")
    ∷ (b'z', "Z")
    ∷ (0x131, "I")
    ∷ (0x17f, "S")
    ∷ []

upper_char : Char → List (ℕ × Char) → Char
upper_char c [] = c
upper_char c ((n, u) ∷ rest) = if eqb (code c) n then u else upper_char c rest

-- `strings.ToUpper`, where the upper case is an ASCII letter; other characters stay.
unfoldable pub to_upper : String → String
unfolding upper_char
to_upper String.[] = String.[]
to_upper (String.◌∷◌ c s) = String.◌∷◌ (upper_char c upper_table) (to_upper s)

-- `strings.ToLower`, as code points, where the lower case is an ASCII letter (U+0130 and U+212A
-- have one); other characters stay.
lower_code : ℕ → ℕ
lower_code c =
    if leb b'A' c && leb c b'Z'
    then c + 32
    else if eqb c 0x130
    then b'i'
    else if eqb c 0x212a
    then b'k'
    else c

unfoldable pub to_lower : String → List ℕ
unfolding lower_code
to_lower String.[] = []
to_lower (String.◌∷◌ c s) = lower_code (code c) ∷ to_lower s

begins_with : List ℕ → List ℕ → Bool
begins_with [] s = true
begins_with (p ∷ ps) [] = false
begins_with (p ∷ ps) (c ∷ s) = eqb p c && begins_with ps s

-- `strings.Contains`
unfoldable pub contains : List ℕ → List ℕ → Bool
unfolding begins_with
contains [] p = begins_with p []
contains (c ∷ s) p = begins_with p (c ∷ s) || contains s p

is_tracking_char : ℕ → Bool
is_tracking_char c =
    (leb b'A' c && leb c b'Z')
    || (leb b'a' c && leb c b'z')
    || (leb b'0' c && leb c b'9')
    || eqb c b'-'

all_tracking_chars : String → Bool
unfolding is_tracking_char
all_tracking_chars String.[] = true
all_tracking_chars (String.◌∷◌ c s) = is_tracking_char (code c) && all_tracking_chars s

-- `regexp.MatchString("^[A-Za-z0-9-]{6,40}$", s)`
unfoldable pub matches_tracking : String → Bool
unfolding all_tracking_chars
matches_tracking s = all_tracking_chars s && leb 6 (count s) && leb (count s) 40

-- `a + "|" + b`
abbrev pub bar_joined : String → String → String
bar_joined a b = a ++ ("|" ++ b)
