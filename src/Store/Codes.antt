-- ===== src/Store/Codes.antt =====
-- internal/store/sqlite.go: the tables `codes` and `code_attempts`, and their methods.
pub mod Outcome
pub mod Budget
use vps_scaffold_auth.Common.{
  ℕ, zero, suc, ◌+◌, ◌-◌, ◌*◌, ◌/◌, ◌%◌, ◌≤◌, ◌<◌, max, String, ◌≡◌, refl, sym, ap, ◌∙◌, ◌≢◌, ◌↔◌,
  ◌⊎◌, inl, inr, Bool, true, false, not, ◌&&◌, ◌||◌, Option, none, some, List, [], ◌∷◌, ◌++◌, map,
  arith, ltb, leb, nat_beq, if◌then◌else◌, nat_beq_iff, ltb→lt, leb→le, Bool-cases, Option-cases,
  is_some, Eq, ◌==◌, Bytes, bytes_beq, bytes_beq_iff, pair_beq, nat_eq, bytes_eq, pair_eq, beq_refl,
  length, is_nil, drop, any, all, keep, count_if, contains, any-append, all-append, length-append,
  contains-append, contains-keep, all-contains,
}
use vps_scaffold_auth.Common.Text.{
  codes, is_space, lower, to_lower, trim_left, trim_right, trim_space, last_index, cons_head,
  split_by, split, fields_func, join, cut, has_prefix, has_suffix, trim_prefix,
}
use vps_scaffold_auth.Common.Table.{
  Table, lookup, delete, insert, lookup-delete, lookup-insert, length-delete-le, length-insert-le,
  keep_value, filter_values, IsKeyed, lookup-filter_values, filter_values-IsKeyed, insert-IsKeyed,
  delete-IsKeyed, length-insert_present, length-insert_absent, filter_keys, lookup-filter_keys,
}

-- a row of `codes`, without its key
pub record Code : Type 0 where
  pub code_hash : Bytes
  pub expires_at : ℕ
  pub attempts : ℕ

-- `code_attempts` is keyed by the address and the client's IP.
pub record Codes : Type 0 where
  pub codes : Table Bytes Code
  pub code_attempts : Table (Bytes × Bytes) ℕ

pub data ConsumeResult : Type 0 where
  consume_ok consume_no_code consume_expired consume_mismatch : ConsumeResult
  consume_too_many_attempts consume_burned : ConsumeResult

-- DELETE FROM code_attempts WHERE email = ?
abbrev pub drop_attempts : Bytes → Table (Bytes × Bytes) ℕ → Table (Bytes × Bytes) ℕ
drop_attempts email = filter_keys (λ k. not (k.0 == email))

unfoldable pub save_code : Codes → Bytes → Bytes → ℕ → Codes
save_code s email code_hash expires_at = record {
  codes =
      insert email (record { code_hash = code_hash; expires_at = expires_at; attempts = 0 })
        s.codes;
  code_attempts = drop_attempts email s.code_attempts;
}

unfoldable pub ensure_code : Codes → Bytes → Bytes → ℕ → Codes
ensure_code s email code_hash expires_at = if is_some (lookup email s.codes) then s else record s {
  codes =
      insert email (record { code_hash = code_hash; expires_at = expires_at; attempts = 0 })
        s.codes;
}

unfoldable pub has_recent_code : Codes → Bytes → ℕ → Bool
has_recent_code s email min_expiry = elim (lookup email s.codes) [
  | none ↦ false
  | some c ↦ ltb min_expiry c.expires_at
]

unfoldable pub delete_expired_codes : Codes → ℕ → Codes
delete_expired_codes s now =
    let codes = filter_values (λ c. not (ltb c.expires_at now)) s.codes in
    record {
      codes = codes;
      code_attempts = filter_keys (λ k. is_some (lookup k.0 codes)) s.code_attempts;
    }

-- the closure `clear` of `ConsumeCode`
unfoldable pub clear_code : Codes → Bytes → Codes
clear_code s email = record {
  codes = delete email s.codes;
  code_attempts = drop_attempts email s.code_attempts;
}

-- the attempts of one source, 0 where there is no row
unfoldable pub attempts_of : Codes → Bytes → Bytes → ℕ
attempts_of s email client_ip = elim (lookup (email, client_ip) s.code_attempts) [
  | none ↦ 0
  | some n ↦ n
]

abbrev pub spent_total : ℕ → ℕ → Bool
spent_total max_total total = ltb 0 max_total && leb max_total total

-- both counters after a wrong guess
unfoldable pub count_guess : Codes → Bytes → Bytes → Code → Codes
count_guess s email client_ip c = record {
  codes = insert email (record c { attempts = c.attempts + 1 }) s.codes;
  code_attempts = insert (email, client_ip) (attempts_of s email client_ip + 1) s.code_attempts;
}

-- `ConsumeCode` from the comparison of the hashes on
unfoldable pub compare_code : Codes → Bytes → Bytes → Bytes → ℕ → ℕ → Code → Codes × ConsumeResult
compare_code s email client_ip candidate max_attempts max_total c =
    let counted = count_guess s email client_ip c in
    if c.code_hash == candidate
    then (clear_code s email, consume_ok)
    else if spent_total max_total (c.attempts + 1)
    then (clear_code counted email, consume_burned)
    else if leb max_attempts (attempts_of s email client_ip + 1)
    then (counted, consume_too_many_attempts)
    else (counted, consume_mismatch)

unfoldable pub consume_code : Codes → Bytes → Bytes → Bytes → ℕ → ℕ → ℕ → Codes × ConsumeResult
consume_code s email client_ip candidate max_attempts max_total now = elim (lookup email s.codes) [
  | none ↦ (s, consume_no_code)
  | some c ↦
      if ltb c.expires_at now
      then (clear_code s email, consume_expired)
      else if spent_total max_total c.attempts
      then (clear_code s email, consume_burned)
      else if leb max_attempts (attempts_of s email client_ip)
      then (s, consume_too_many_attempts)
      else compare_code s email client_ip candidate max_attempts max_total c
]
