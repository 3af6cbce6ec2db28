-- ===== src/Server/Address.antt =====
-- internal/server: `normalizeEmail`, `validEmail` (handlers.go) and `plainAddress`
-- (admin_group_lists.go). The bare address that net/mail reads is a parameter.
use vps_scaffold_auth.Common.{
  ℕ, ◌+◌, Bool, false, not, ◌&&◌, ◌||◌, Option, none, some, ltb, leb, nat_beq, if◌then◌else◌, ◌==◌,
  Bytes, nat_eq, bytes_eq, pair_eq, length, is_nil, drop, any, all, contains,
}
use vps_scaffold_auth.Common.Text.{to_lower, trim_space, last_index}
use vps_scaffold_auth.Authz.Roles.{at_sign}

abbrev pub AddressParser : Type 0
AddressParser = Bytes → Option Bytes

unfoldable pub normalize_email : Bytes → Bytes
normalize_email s = to_lower (trim_space s)

unfoldable pub valid_email : AddressParser → Bytes → Bool
valid_email parse s =
    if is_nil s || ltb 254 (length s)
    then false
    else elim (parse s) [ none ↦ false | some a ↦ to_lower a == to_lower s && contains s at_sign ]

-- what follows the last `@`, or the whole text
unfoldable pub after_at : Bytes → Bytes
after_at s = elim (last_index at_sign s) [ none ↦ s | some i ↦ drop (i + 1) s ]

abbrev pub literal_sign : ℕ → Bool
literal_sign c = nat_beq c b'[' || (nat_beq c b']' || nat_beq c b':')

unfoldable pub plain_address : AddressParser → Bytes → Bool
plain_address parse e =
    if not (valid_email parse e)
    then false
    else if not (all (λ c. leb 33 c && leb c 126) e)
    then false
    else contains (after_at e) b'.' && not (any literal_sign (after_at e))
