-- ===== src/Tests/Codes.antt =====
-- The stored codes and the attempts at them, on a concrete table.
use vps_scaffold_auth.Common.{
  ◌-◌, ◌≤◌, ◌≡◌, refl, ◌↔◌, true, [], ◌∷◌, arith, ◌==◌, Bytes, bytes_beq, nat_eq, bytes_eq, pair_eq,
}
use vps_scaffold_auth.Common.Text.{codes}
use vps_scaffold_auth.Common.Table.{lookup}
use vps_scaffold_auth.Store.Codes.{
  compare_code, Code, Codes, consume_ok, consume_no_code, attempts_of, consume_code,
}
use vps_scaffold_auth.Store.Codes.Outcome.{IsLive, consume_ok_iff, consume_once}
use vps_scaffold_auth.Store.Codes.Budget.{Guess, compared_count, compared_bound}

abbrev ann : Bytes
ann = codes "ann@x.org"

abbrev bob : Bytes
bob = codes "bob@x.org"

abbrev home : Bytes
home = codes "10.0.0.1"

abbrev away : Bytes
away = codes "10.0.0.2"

abbrev right : Bytes
right = codes "h1"

abbrev row : Code
row = record { code_hash = right; expires_at = 600; attempts = 0 }

abbrev table : Codes
table = record { codes = (ann, row) ∷ []; code_attempts = [] }

consume_ok_iff_example :
    ((consume_code table ann home right 5 20 100).1 ≡ consume_ok)
    ↔ ((c : Code) × IsLive table ann home 5 20 100 c × (c.code_hash ≡ right))
consume_ok_iff_example = consume_ok_iff table ann home right 5 20 100

consume_once_example :
    (consume_code (consume_code table ann home right 5 20 100).0 ann away right 5 20 101).1
    ≡ consume_no_code
unfolding consume_code lookup bytes_beq attempts_of compare_code
consume_once_example = consume_once table ann home right 5 20 100 away right 5 20 101 refl

abbrev try_right : Guess
try_right = record { client_ip = home; candidate = right; at = 100 }

compared_bound_example :
    (compared_count ann 5 20 (λ _. true) table (try_right ∷ try_right ∷ []) ≤ 20 - row.attempts)
    × (compared_count ann 5 20 (λ j. j == home) table (try_right ∷ try_right ∷ [])
        ≤ 5 - attempts_of table ann home)
unfolding lookup bytes_beq
compared_bound_example =
    compared_bound ann 5 20 table (try_right ∷ try_right ∷ []) home row (omega arith) refl
