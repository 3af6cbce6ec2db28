-- ===== src/Server/Audit.antt =====
-- internal/server/access_audit.go: `accessAudit`, which records each person's first visit to a site in
-- an hour, and internal/store/sqlite.go: `RecordAppAccess`. `record` is three steps, between which other
-- requests go on: the mark under the lock, the write outside it, and the un-mark of a lost write under
-- the lock again. net.SplitHostPort is a parameter. Times are Unix seconds. The pruning of old rows is
-- left out.
pub mod Visits
pub mod Sources
use vps_scaffold_auth.Common.{
  ℕ, zero, suc, ◌+◌, ◌-◌, ◌*◌, ◌/◌, ◌%◌, ◌≤◌, ◌<◌, max, String, ◌≡◌, refl, sym, ap, ◌∙◌, ◌≢◌, ◌↔◌,
  ◌⊎◌, inl, inr, Bool, true, false, not, ◌&&◌, ◌||◌, Option, none, some, List, [], ◌∷◌, ◌++◌, map,
  arith, ltb, leb, nat_beq, if◌then◌else◌, nat_beq_iff, ltb→lt, leb→le, Bool-cases, Option-cases,
  is_some, Eq, ◌==◌, Bytes, bytes_beq, bytes_beq_iff, pair_beq, nat_eq, bytes_eq, pair_eq, beq_refl,
  length, is_nil, drop, any, all, keep, count_if, contains, any-append, all-append, length-append,
  contains-append, contains-keep, all-contains,
}
use vps_scaffold_auth.Common.Text.{
  codes, is_space, lower, to_lower, trim_left, trim_right, trim_space, last_index, cons_head,
  split_by, split, fields_func, join, cut, has_prefix, has_suffix, trim_prefix,
}
use vps_scaffold_auth.Common.Table.{
  Table, lookup, delete, insert, lookup-delete, lookup-insert, length-delete-le, length-insert-le,
  keep_value, filter_values, IsKeyed, lookup-filter_values, filter_values-IsKeyed, insert-IsKeyed,
  delete-IsKeyed, length-insert_present, length-insert_absent, filter_keys, lookup-filter_keys,
}
use vps_scaffold_auth.Server.Verify.{Visit}

-- the host before a port
abbrev pub HostSplitter : Type 0
HostSplitter = Bytes → Option Bytes

-- strings.TrimSuffix of a full stop
unfoldable pub trim_dot : Bytes → Bytes
trim_dot [] = []
trim_dot (c ∷ []) = if nat_beq c b'.' then [] else c ∷ []
trim_dot (c ∷ d ∷ s) = c ∷ trim_dot (d ∷ s)

unfoldable pub site_of : HostSplitter → Bytes → Bytes
site_of split_port host = to_lower (trim_dot (elim (split_port host) [ none ↦ host | some h ↦ h ]))

abbrev pub site_char : ℕ → Bool
site_char c =
    (leb b'a' c && leb c b'z') || ((leb b'0' c && leb c b'9') || (nat_beq c b'-' || nat_beq c b'.'))

unfoldable pub is_site : Bytes → Bool
is_site host = not (is_nil host) && all site_char host

-- a row of `app_access`, by its unique columns: the address and the host, the kind and the hour
abbrev pub Access : Type 0
Access = (Bytes × Bytes) × (Bytes × ℕ)

unfoldable pub record_app_access : List Access → Access → List Access
record_app_access rows a = if contains rows a then rows else a ∷ rows

-- The writes are those under way; the lost ones have failed and are not yet un-marked.
pub record AccessAudit : Type 0 where
  pub hour : ℕ
  pub seen : List Bytes
  pub app_access : List Access
  pub writing : List Access
  pub lost : List Access

abbrev pub seen_key : Bytes → Bytes → Bytes → Bytes
seen_key email kind host = email ++ 0 ∷ (kind ++ 0 ∷ host)

-- the reset at a new hour
unfoldable pub at_hour : AccessAudit → ℕ → AccessAudit
at_hour a bucket = if nat_beq bucket a.hour then a else record a { hour = bucket; seen = [] }

abbrev pub access_of : HostSplitter → Visit → ℕ → Access
access_of split_port v now = ((v.email, site_of split_port v.host), (v.kind, now / 3600))

-- up to the unlocking: a first sighting is marked, and its write begins
unfoldable pub mark_visit : HostSplitter → AccessAudit → Visit → ℕ → AccessAudit
mark_visit split_port a v now =
    let host = site_of split_port v.host in
    let b = at_hour a (now / 3600) in
    let key = seen_key v.email v.kind host in
    if not (is_site host)
    then a
    else if contains b.seen key
    then b
    else record b { seen = key ∷ b.seen; writing = access_of split_port v now ∷ b.writing }

unfoldable pub drop_one : Access → List Access → List Access
drop_one r [] = []
drop_one r (x ∷ xs) = let rest = drop_one r xs in if x == r then xs else x ∷ rest

-- the database takes the row of a write
unfoldable pub write_row : AccessAudit → Access → AccessAudit
write_row a r =
    if contains a.writing r
    then record a { app_access = record_app_access a.app_access r; writing = drop_one r a.writing }
    else a

-- the database refuses it
unfoldable pub lose_row : AccessAudit → Access → AccessAudit
lose_row a r =
    if contains a.writing r
    then record a { writing = drop_one r a.writing; lost = r ∷ a.lost }
    else a

-- under the lock again, after a lost write
unfoldable pub unmark_visit : AccessAudit → Access → AccessAudit
unmark_visit a ((email, host), (kind, bucket)) =
    let key = seen_key email kind host in
    if contains a.lost ((email, host), (kind, bucket))
    then record a {
      lost = drop_one ((email, host), (kind, bucket)) a.lost;
      seen = if nat_beq a.hour bucket then keep (λ k. not (k == key)) a.seen else a.seen;
    }
    else a
