-- ===== src/Tests/Report.antt =====
-- A table with an entry of a registered network and one of none, and its report.
use dockerwall.Base.{true, some, none, [], ◌∷◌}
use dockerwall.Text.{codes}
use dockerwall.Net.{v4}
use dockerwall.Stats.{Networks, Stats, StatEntry}

abbrev web_networks : Networks
web_networks = record {
  subnet_to_id = (codes "172.30.1.0/28", 0) ∷ [];
  registry = (0, record { name = codes "web"; subnet = codes "172.30.1.0/28" }) ∷ [];
  next_network_id = 1;
}

abbrev web_entry : StatEntry
web_entry = record { count = 3; last_seen = 0; network_id = some 0; accepted = some true }

abbrev lost_entry : StatEntry
lost_entry = record { count = 1; last_seen = 0; network_id = none; accepted = none }

abbrev two_entries : Stats
two_entries =
    ((codes "example.org", v4 9), lost_entry)
    ∷ ((codes "www.example.com", v4 2886598658), web_entry)
    ∷ []
