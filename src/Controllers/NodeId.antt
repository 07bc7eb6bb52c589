-- ===== src/Controllers/NodeId.antt =====
-- `PcsController.is_valid_node_id` (ha/core/controllers/pcs/pcs_controller.py). The resolution of a
-- name is a parameter.
use Prim.Native.Char.{code}
use Prim.Native.String.{String}
use cortx_ha.Prelude.{
  ℕ, ◌+◌, ◌*◌, ◌-◌, ◌==◌, Bool, true, false, not, ◌&&◌, List, [], ◌∷◌, length, eqb, leb,
  if◌then◌else◌,
}
use cortx_ha.Prelude.{Result, ok, raise, cluster_cli}
use cortx_ha.Store.Key.{split_on}

-- `re.search('^[0-9]*$', s)`
unfoldable pub all_digits : String → Bool
all_digits String.[] = true
all_digits (String.◌∷◌ c s) = leb b'0' (code c) && leb (code c) b'9' && all_digits s

unfoldable pub number_from : ℕ → String → ℕ
number_from n String.[] = n
number_from n (String.◌∷◌ c s) = number_from (n * 10 + (code c - b'0')) s

abbrev leads_with_zero : String → Bool
leads_with_zero String.[] = false
leads_with_zero (String.◌∷◌ c String.[]) = false
leads_with_zero (String.◌∷◌ c (String.◌∷◌ d s)) = eqb (code c) b'0'

-- one number of an address: `25[0-5]|2[0-4][0-9]|1[0-9][0-9]|[1-9]?[0-9]`
unfoldable pub is_octet : String → Bool
unfolding all_digits number_from
is_octet s = all_digits s && not (s == "") && not (leads_with_zero s) && leb (number_from 0 s) 255

unfoldable pub all_octets : List String → Bool
unfolding is_octet
all_octets [] = true
all_octets (x ∷ xs) = is_octet x && all_octets xs

-- `ip_validator_regex`
unfoldable pub is_address : String → Bool
unfolding all_octets split_on
is_address s = let parts = split_on b'.' s in eqb (length parts) 4 && all_octets parts

-- `node_id.replace('.', '')`
unfoldable pub without_dots : String → String
without_dots String.[] = String.[]
without_dots (String.◌∷◌ c s) =
    let rest = without_dots s in if eqb (code c) b'.' then rest else String.◌∷◌ c rest

-- `resolves` says whether `gethostbyname` finds the name
unfoldable pub is_valid_node_id : (String → Bool) → String → Result Bool
unfolding all_digits without_dots is_address
is_valid_node_id resolves node_id =
    if all_digits (without_dots node_id)
    then if is_address node_id then ok true else raise cluster_cli
    else if resolves node_id
    then ok true
    else raise cluster_cli
