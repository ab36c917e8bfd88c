-- ===== src/Stats/Report/Client.antt =====
-- The part of the report for one client: its address, and the rows behind it.
use mathlib.Core.List.{Memᴰ}
use dockerwall.Base.{
  ℕ, ◌-◌, ap, Bool, true, false, [], ◌++◌, append_assoc, if◌then◌else◌, list_eq, nat_eq, pair_eq,
  option_eq, length,
}
use dockerwall.Text.{Text, codes}
use dockerwall.Net.{IpAddr, ip_eq}
use dockerwall.Net.Display.{display_ip}
use dockerwall.Stats.{StatEntry}
use dockerwall.Stats.Report.{
  Entries, pad_right, blanks, status_of, concat_map, entry_line, ip_heading,
}
use dockerwall.Stats.Report.Row.{row}
use dockerwall.Stats.Report.Shows.{
  Shows, Shows-whole, Shows-equal, Shows-trans, Shows-behind, concat_map-Shows,
}

-- What stands in front of the address of a client: in a row of its own, or in the row of the only
-- client of a network.
pub data IsLead : Text → Type 0 where
  heading : IsLead (codes "  IP: ")
  only_client : IsLead (codes "  ")

-- A part of the report for a client: its address, and a row behind it.
pub record IsOfClient (whole : Text) (origin : IpAddr) (text : Text) : Type 0 where
  pub lead : Text
  pub tail : Text
  pub leads : IsLead lead
  pub addressed : Shows whole (lead ++ (display_ip origin ++ tail))
  pub shown : Shows tail text

pub IsOfClient-part :
    {s t text : Text} {origin : IpAddr}
    → Shows s t
    → IsOfClient t origin text
    → IsOfClient s origin text
IsOfClient-part h c = record {
  lead = c.lead;
  tail = c.tail;
  leads = c.leads;
  addressed = Shows-trans h c.addressed;
  shown = c.shown;
}

pub heading-IsOfClient :
    (origin : IpAddr) (lines : Text) {text : Text}
    → Shows lines text
    → IsOfClient (ip_heading origin ++ lines) origin text
unfolding ip_heading
heading-IsOfClient origin lines h = record {
  lead = codes "  IP: ";
  tail = codes "\n" ++ lines;
  leads = heading;
  addressed = Shows-equal (simp append_assoc);
  shown = Shows-behind (codes "\n") h;
}

-- The lines of a client of a network.
pub client_lines-IsOfClient :
    (now : ℕ) (single_ip : Bool) (origin : IpAddr) (domain : Text) (entry : StatEntry)
    (es : Entries)
    → Memᴰ (domain, entry) es
    → IsOfClient
        ((if single_ip then [] else ip_heading origin)
          ++ concat_map (entry_line now single_ip origin) es)
        origin
        (row now domain (status_of entry) entry)
unfolding entry_line pad_right
client_lines-IsOfClient now true origin domain entry es m =
    let gap = blanks (15 - length (display_ip origin)) in
    record {
      lead = codes "  ";
      tail = gap ++ (codes " " ++ row now domain (status_of entry) entry);
      leads = only_client;
      addressed =
          concat_map-Shows (entry_line now true origin) m
            (Shows-equal (ap (λ s. codes "  " ++ s) (append_assoc (display_ip origin) gap _)));
      shown = Shows-behind gap (Shows-behind (codes " ") (Shows-whole _));
    }
client_lines-IsOfClient now false origin domain entry es m =
    heading-IsOfClient origin (concat_map (entry_line now false origin) es) (
      concat_map-Shows (entry_line now false origin) m
        (Shows-behind (codes "    ") (Shows-whole (row now domain (status_of entry) entry))))
