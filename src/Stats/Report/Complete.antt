-- ===== src/Stats/Report/Complete.antt =====
-- Every entry of the table has its row in the report, under its network or under the unknown ones.
use dockerwall.Base.{ℕ, ◌≡◌, none, some, ◌++◌, list_eq, nat_eq, pair_eq, option_eq}
use dockerwall.Base.Assoc.{Dict, lookup}
use dockerwall.Text.{Text, codes}
use dockerwall.Text.Decimal.{to_decimal}
use dockerwall.Net.{IpAddr, ip_eq}
use dockerwall.Stats.{Stats, StatEntry, NetworkInfo}
use dockerwall.Stats.Report.Client.{IsOfClient}
use dockerwall.Stats.Report.Row.{IsRow, IsVerdict}
use dockerwall.Stats.Report.Shows.{Shows}

-- The title of a network.
pub title : NetworkInfo → Text
title info = codes "Network: " ++ (info.name ++ (codes " (" ++ (info.subnet ++ codes ")\n")))

-- An entry's row is where it belongs: behind the title of its network, or with the unknown ones.
pub data IsReported (now : ℕ) (report : Text) (registry : Dict ℕ NetworkInfo) (origin : IpAddr)
    (domain : Text) (entry : StatEntry) : Type 0 where
  of_network :
      (id : ℕ) (info : NetworkInfo) (rest status text : Text)
      → entry.network_id ≡ some id
      → lookup id registry ≡ some info
      → Shows report (title info ++ rest)
      → IsVerdict entry status
      → IsRow now domain status entry text
      → IsOfClient rest origin text
      → IsReported now report registry origin domain entry
  of_unknown :
      (text : Text)
      → entry.network_id ≡ none
      → IsRow now domain (to_decimal entry.count ++ codes " resolves") entry text
      → IsOfClient report origin text
      → IsReported now report registry origin domain entry
