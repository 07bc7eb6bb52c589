-- ===== src/Prelude/Text.antt =====
-- The methods of texts that the program calls.
use Prim.Native.Nat.{◌-◌}
use Prim.Native.Char.{Char, code}
use Prim.Native.String.{String, char_at}
use mathlib.Core.Bool.{Bool, true, false, not, ◌&&◌, ◌||◌}
use mathlib.Core.List.{List, [], ◌∷◌}
use text.Mathlib.Text.{◌==◌}
use cortx_ha.Prelude.Tests.{leb, eqb, if◌then◌else◌}

lower_char : Char → Char
lower_char c =
    if leb b'A' (code c) && leb (code c) b'Z'
    then char_at "abcdefghijklmnopqrstuvwxyz" (code c - b'A')
    else c

-- `s.lower()`, on ASCII letters; every text that the program lowers and compares is ASCII
unfoldable pub lower : String → String
unfolding lower_char
lower String.[] = String.[]
lower (String.◌∷◌ c s) = String.◌∷◌ (lower_char c) (lower s)

abbrev pub add_char : Char → List String → List String
add_char c [] = String.◌∷◌ c String.[] ∷ []
add_char c (part ∷ parts) = String.◌∷◌ c part ∷ parts

-- The white space of ASCII.
unfoldable pub is_space : Char → Bool
is_space c = eqb (code c) b' ' || leb 9 (code c) && leb (code c) 13

-- `s.lstrip()`
unfoldable pub lstrip : String → String
lstrip String.[] = String.[]
lstrip (String.◌∷◌ c s) = if is_space c then lstrip s else String.◌∷◌ c s

-- `s.rstrip()`
unfoldable pub rstrip : String → String
rstrip String.[] = String.[]
rstrip (String.◌∷◌ c s) =
    let rest = rstrip s in if is_space c && rest == "" then "" else String.◌∷◌ c rest

-- `s.strip()`
unfoldable pub strip : String → String
unfolding lstrip rstrip is_space
strip s = rstrip (lstrip s)

unfoldable pub starts_word : String → Bool
starts_word String.[] = false
starts_word (String.◌∷◌ c s) = not (is_space c)

-- `s.split()`
unfoldable pub words : String → List String
words String.[] = []
words (String.◌∷◌ c s) =
    let rest = words s in
    if is_space c
    then rest
    else if starts_word s
    then add_char c rest
    else String.◌∷◌ c String.[] ∷ rest

-- one text behind the other, by the first's characters
abbrev pub append : String → String → String
append String.[] t = t
append (String.◌∷◌ c s) t = String.◌∷◌ c (append s t)

-- `p` begins `s`
unfoldable pub is_start : String → String → Bool
is_start String.[] s = true
is_start (String.◌∷◌ c p) String.[] = false
is_start (String.◌∷◌ c p) (String.◌∷◌ d s) = eqb (code c) (code d) && is_start p s

-- `p in s`
unfoldable pub occurs_in : String → String → Bool
occurs_in p String.[] = is_start p ""
occurs_in p (String.◌∷◌ c s) = is_start p (String.◌∷◌ c s) || occurs_in p s
