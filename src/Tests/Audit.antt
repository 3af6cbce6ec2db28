-- ===== src/Tests/Audit.antt =====
-- Visits to a site, and the access log.
use vps_scaffold_auth.Common.{
  ◌≡◌, refl, true, ◌||◌, Option, none, List, [], ◌∷◌, Bytes, bytes_beq, nat_eq, bytes_eq, pair_eq,
  any, contains,
}
use vps_scaffold_auth.Common.Text.{codes, to_lower}
use vps_scaffold_auth.Server.Audit.Sources.{sights, logged-visited}
use vps_scaffold_auth.Server.Verify.{Visit}
use vps_scaffold_auth.Server.Audit.{
  record_app_access, lose_row, unmark_visit, at_hour, write_row, trim_dot, site_of, is_site, Access,
  access_of, mark_visit,
}
use vps_scaffold_auth.Server.Audit.Visits.{
  Event, visited, wrote, failed, unmarked, after_all, covered, started_audit, visit_covered,
}

abbrev no_port : Bytes → Option Bytes
no_port s = none

abbrev visit : Visit
visit = record { email = codes "ann@x.org"; host = codes "App.x.org."; kind = [] }

abbrev row : Access
row = ((codes "ann@x.org", codes "app.x.org"), ([], 2))

-- A second request comes after the first one's write is lost, and before its mark is taken back.
abbrev events : List Event
events = visited visit 7200 ∷ failed row ∷ visited visit 7300 ∷ unmarked row ∷ []

visit_covered_example :
    covered
      (mark_visit no_port (after_all no_port (started_audit []) events) visit 7400)
      (access_of no_port visit 7400)
    ≡ true
unfolding is_site site_of to_lower trim_dot
visit_covered_example = visit_covered no_port [] events visit 7400 refl refl refl

-- A third request finds no mark, and its row is written.
abbrev written : List Event
written =
    visited visit 7200
    ∷ failed row
    ∷ visited visit 7300
    ∷ unmarked row
    ∷ visited visit 7400
    ∷ wrote row
    ∷ []

in_log : contains (after_all no_port (started_audit []) written).app_access row ≡ true
unfolding after_all write_row mark_visit is_site site_of to_lower trim_dot at_hour unmark_visit
    lose_row bytes_beq record_app_access
in_log = refl

logged-visited_example : (contains [] row || any (sights no_port row) written) ≡ true
logged-visited_example = logged-visited no_port [] written row in_log
