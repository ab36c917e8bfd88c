-- ===== src/Manage.antt =====
-- src/manage.rs: the requests that the other commands send to the daemon.
use dockerwall.Base.{ℕ, List, [], ◌∷◌, ◌++◌, Option, none, some}
use dockerwall.Text.{Text, codes, join}
use dockerwall.Host.{Host}
use dockerwall.Result.{Prog, ◌>>=◌}
use dockerwall.Control.{read_response, read_dns_port}

abbrev pub or_empty : Option Text → Text
or_empty none = []
or_empty (some s) = s

-- The payload of `send_create`.
unfoldable pub create_payload : Text → Option Text → List Text → Text
create_payload name subnet allowed_domains =
    codes "CREATE\t"
    ++ (name
        ++ (b'\t'
            ∷ (or_empty subnet ++ (b'\t' ∷ (join (b',' ∷ []) allowed_domains ++ (b'\n' ∷ []))))))

-- The payload of `send_remove`.
unfoldable pub remove_payload : Text → Text
remove_payload name = codes "REMOVE\t" ++ (name ++ (b'\n' ∷ []))

module _ (H : Host) where
  -- `send_control_command`
  unfoldable pub send_control_command : Text → Prog H.World (Unit {0})
  send_control_command payload = do response ← H.request payload; λ w. (read_response response, w)

  unfoldable pub send_create : Text → Option Text → List Text → Prog H.World (Unit {0})
  send_create name subnet allowed_domains =
      send_control_command (create_payload name subnet allowed_domains)

  unfoldable pub send_remove : Text → Prog H.World (Unit {0})
  send_remove name = send_control_command (remove_payload name)

  -- `get_dns_port` of src/control.rs
  unfoldable pub get_dns_port : Prog H.World ℕ
  get_dns_port = do response ← H.request (codes "INFO\n"); λ w. (read_dns_port response, w)
