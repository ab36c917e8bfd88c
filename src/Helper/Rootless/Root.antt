-- ===== src/Helper/Rootless/Root.antt =====
-- `ensure_host_root`: is the process the root of the host?
use dockerwall.Base.{
  Option, none, some, List, [], ◌∷◌, get_elem?, if◌then◌else◌, ◌==◌, list_eq, nat_eq,
}
use dockerwall.Text.{Text, codes, starts_with, split_whitespace, lines}
use dockerwall.Host.{Host}
use dockerwall.Result.{Prog, pure, fail, or_fail, ◌>>=◌, ◌>>◌}

-- `lines().find(|line| line.starts_with("Uid:"))`
unfoldable pub uid_line : List Text → Option Text
uid_line [] = none
uid_line (line ∷ rest) =
    let later = uid_line rest in if starts_with line (codes "Uid:") then some line else later

-- `lines().next().and_then(|line| line.split_whitespace().nth(1))`
unfoldable pub mapped_uid : List Text → Option Text
mapped_uid [] = none
mapped_uid (line ∷ rest) = get_elem? (split_whitespace line) 1

module _ (H : Host) where
  -- `read_to_string(…)?`; the message of an I/O error is left out.
  abbrev read_to_string : Text → Prog H.World Text
  read_to_string path w = or_fail [] (H.read_file path w) w

  abbrev require_zero : Text → Text → Prog H.World (Unit {0})
  require_zero uid message = if uid == codes "0" then pure tt else fail message

  unfoldable pub ensure_host_root : Prog H.World (Unit {0})
  ensure_host_root = do
    status ← read_to_string (codes "/proc/self/status")
    line ← or_fail (codes "could not determine effective UID") (uid_line (lines status))
    effective_uid ←
        or_fail (codes "could not determine effective UID") (get_elem? (split_whitespace line) 2)
    require_zero effective_uid (codes "rootless Podman preparation must run as host root")
    uid_map ← read_to_string (codes "/proc/self/uid_map")
    host_uid ← or_fail (codes "could not determine host UID mapping") (mapped_uid (lines uid_map))
    require_zero host_uid
        (codes "rootless Podman preparation must run as host root, not a user namespace root")
