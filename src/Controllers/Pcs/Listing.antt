-- ===== src/Controllers/Pcs/Listing.antt =====
-- `_get_node_list` reads what `pcs status nodes` prints: lines of a title, a colon and names.
use Prim.Native.Char.{Char, code}
use Prim.Native.String.{String}
use mathlib.Core.List.{◌++◌ as ◌+++◌}
use cortx_ha.Prelude.{
  ℕ, ◌≡◌, refl, ap, ◌∙◌, Bool, true, false, not, ◌&&◌, List, [], ◌∷◌, All, eqb, arith, words,
  is_space, starts_word, append,
}
use cortx_ha.Prelude.{ok}
use cortx_ha.Store.Key.{split_on}
use cortx_ha.Controllers.Shell.{Shell, run_cmd, checked}
use cortx_ha.Controllers.Pcs.{
  lines, names_of, names_in, listed, nodes_or_fail, get_node_list, pcs_status_nodes,
}

abbrev space : Char
space = " "

abbrev colon : Char
colon = ":"

abbrev newline : Char
newline = "\n"

-- each name after a space
print_names : List String → String
print_names [] = ""
print_names (x ∷ xs) = String.◌∷◌ space (append x (print_names xs))

print_line : String × List String → String
unfolding print_names
print_line (title, names) = append title (String.◌∷◌ colon (print_names names))

pub print_lines : List (String × List String) → String
unfolding print_line
print_lines [] = ""
print_lines (l ∷ ls) = append (print_line l) (String.◌∷◌ newline (print_lines ls))

pub all_names : List (String × List String) → List String
all_names [] = []
all_names ((title, names) ∷ ls) = names +++ all_names ls

-- no character of the text has the code
unfoldable pub lacks : ℕ → String → Bool
lacks sep String.[] = true
lacks sep (String.◌∷◌ c s) = not (eqb (code c) sep) && lacks sep s

unfoldable pub no_space : String → Bool
no_space String.[] = true
no_space (String.◌∷◌ c s) = not (is_space c) && no_space s

abbrev pub IsName : String → Type 0
IsName s =
    (starts_word s ≡ true) × (no_space s ≡ true) × (lacks b':' s ≡ true) × (lacks b'\n' s ≡ true)

abbrev pub IsLine : String × List String → Type 0
IsLine (title, names) = (lacks b':' title ≡ true) × (lacks b'\n' title ≡ true) × All IsName names

lacks-append : (sep : ℕ) (s t : String) → lacks sep (append s t) ≡ (lacks sep s && lacks sep t)
unfolding lacks
lacks-append sep String.[] t = refl
lacks-append sep (String.◌∷◌ c s) t = ground (arith, lacks-append sep s t)

split_on-append :
    (sep : ℕ) (s t : String) (c : Char)
    → lacks sep s ≡ true
    → code c ≡ sep
    → split_on sep (append s (String.◌∷◌ c t)) ≡ s ∷ split_on sep t
unfolding split_on lacks
split_on-append sep String.[] t c h e = ground arith
split_on-append sep (String.◌∷◌ d s) t c h e =
    ground (arith, split_on-append sep s t c (ground arith) e)

split_on-lacks : (sep : ℕ) (s : String) → lacks sep s ≡ true → split_on sep s ≡ s ∷ []
unfolding split_on lacks
split_on-lacks sep String.[] h = refl
split_on-lacks sep (String.◌∷◌ d s) h = ground (arith, split_on-lacks sep s (ground arith))

words-append :
    (s t : String)
    → starts_word s ≡ true
    → no_space s ≡ true
    → starts_word t ≡ false
    → words (append s t) ≡ s ∷ words t
unfolding words no_space starts_word
words-append String.[] t w h e = cc
words-append (String.◌∷◌ c String.[]) t w h e = ground arith
words-append (String.◌∷◌ c (String.◌∷◌ d s)) t w h e =
    ground (arith, words-append (String.◌∷◌ d s) t (ground arith) (ground arith) e)

lacks-print_names :
    (sep : ℕ) (names : List String)
    → eqb (code space) sep ≡ false
    → All (λ s. lacks sep s ≡ true) names
    → lacks sep (print_names names) ≡ true
unfolding lacks print_names
lacks-print_names sep [] e h = refl
lacks-print_names sep (x ∷ xs) e h =
    ground (arith, lacks-append sep x (print_names xs), lacks-print_names sep xs e h.1)

print_names-starts : (names : List String) → starts_word (print_names names) ≡ false
unfolding print_names starts_word is_space
print_names-starts [] = refl
print_names-starts (x ∷ xs) = refl

words-print_names : (names : List String) → All IsName names → words (print_names names) ≡ names
unfolding print_names words is_space
words-print_names [] h = refl
words-print_names (x ∷ xs) ((w, n, _, _), hs) =
    words-append x (print_names xs) w n (print_names-starts xs)
    ∙ ap (λ l. x ∷ l) (words-print_names xs hs)

no_colon : (names : List String) → All IsName names → All (λ s. lacks b':' s ≡ true) names
no_colon [] h = _
no_colon (x ∷ xs) ((_, _, c, _), hs) = (c, no_colon xs hs)

no_newline : (names : List String) → All IsName names → All (λ s. lacks b'\n' s ≡ true) names
no_newline [] h = _
no_newline (x ∷ xs) ((_, _, _, c), hs) = (c, no_newline xs hs)

names_in-print_line :
    (title : String) (names : List String)
    → IsLine (title, names)
    → names_in (names_of (split_on b':' (print_line (title, names)))) ≡ names
unfolding print_line
names_in-print_line title names (c, n, hs) =
    let body = lacks-print_names b':' names refl (no_colon names hs) in
    let parts : split_on b':' (print_line (title, names)) ≡ title ∷ print_names names ∷ [] =
      split_on-append b':' title (print_names names) colon c refl
      ∙ ap (λ l. title ∷ l) (split_on-lacks b':' (print_names names) body) in
    ap (λ l. names_in (names_of l)) parts ∙ words-print_names names hs

line-lacks : (l : String × List String) → IsLine l → lacks b'\n' (print_line l) ≡ true
unfolding print_line lacks
line-lacks (title, names) (c, n, hs) = ground (
  arith,
  lacks-append b'\n' title (String.◌∷◌ colon (print_names names)),
  lacks-print_names b'\n' names refl (no_newline names hs),
)

listed-print_lines :
    (ls : List (String × List String))
    → All IsLine ls
    → listed (lines (print_lines ls)) ≡ all_names ls
unfolding listed print_lines all_names
listed-print_lines [] h = refl
listed-print_lines (l ∷ ls) (h, hs) =
    let cut = split_on-append b'\n' (print_line l) (print_lines ls) newline (line-lacks l h) refl in
    let (title, names) = l in
    ap listed cut
    ∙ ap (λ k. k +++ listed (lines (print_lines ls))) (names_in-print_line title names h)
    ∙ ap (λ k. names +++ k) (listed-print_lines ls hs)

-- Where `pcs status nodes` prints lines, each with a title, a colon and names after spaces, the node
-- list is all the names in their order; for titles and names without colons and newlines, and names
-- that are not empty and have no spaces.
pub get_node_list-print_lines :
    {W : Type 0} (shell : Shell W) (w w' : W) (err : String) (ls : List (String × List String))
    → shell.process pcs_status_nodes w
      ≡ (w', ok (record { out = print_lines ls; err = err; rc = 0 }))
    → All IsLine ls
    → get_node_list shell w ≡ (w', ok (all_names ls))
unfolding get_node_list run_cmd checked nodes_or_fail
get_node_list-print_lines shell w w' err ls ran h =
    rw ran (ap (λ l. (w', ok l)) (listed-print_lines ls h))
