-- ===== src/Ipset/Restored.antt =====
-- `update_ipset` on a host whose `ipset restore` carries out the commands that it is given.
use dockerwall.Base.{◌≡◌, ap, ◌∙◌, inl, inr, true, Option, none, some, List, [], ◌∷◌, Bool-cases}
use dockerwall.Text.{Text, codes}
use dockerwall.Net.{IpAddr}
use dockerwall.Host.{Host, Output}
use dockerwall.Result.{ok, or_fail, >>=-eq-ok}
use dockerwall.Ipset.{
  Command, update_commands, render_all, resolve_ipset_binary, check_restore, update_ipset,
}
use dockerwall.Ipset.Members.{exec_all}

-- The documented behaviour of `ipset restore` on the input of an update: when it ends with success,
-- all the commands of the input were carried out, in their order.
abbrev pub IsRestoring :
    {K : Type 0} (H : Host) → (Command → K → Option K) → (H.World → K) → Text → List IpAddr → Type 0
IsRestoring {K} H exec kernel name ips =
    (binary : Text) (w w' : H.World) (output : Output)
    → H.run binary (codes "restore" ∷ []) (render_all (update_commands name ips)) w
      ≡ (ok output, w')
    → output.success ≡ true
    → exec_all exec (update_commands name ips) (kernel w) ≡ some (kernel w')

or_fail_same :
    {W A : Type 0} (message : Text) (o : Option A) (w w' : W) (a : A)
    → or_fail message o w ≡ (ok a, w')
    → w ≡ w'
or_fail_same message none w w' a h = absurd (cc)
or_fail_same message (some b) w w' a h = ap (λ r. r.1) h

module _ (H : Host) where
  resolve_ipset_binary-same :
      (w w' : H.World) (binary : Text) → resolve_ipset_binary H w ≡ (ok binary, w') → w ≡ w'
  unfolding resolve_ipset_binary
  resolve_ipset_binary-same w w' binary h = or_fail_same _ _ w w' binary h

  check_restore-ok :
      (output : Output) (w w' : H.World)
      → check_restore H output w ≡ (ok tt, w')
      → (output.success ≡ true) × (w ≡ w')
  unfolding check_restore
  check_restore-ok output w w' h = elim (Bool-cases output.success) [
    | inl fine ↦ (fine, ap (λ r. r.1) (rw fine at h))
    | inr failed ↦ absurd (cc (rw (failed, check_restore) at h))
  ]

  module _ {K : Type 0} (exec : Command → K → Option K) (kernel : H.World → K) where
    -- A push that succeeds carries out the commands of the update.
    pub update_ipset-exec_all :
        (name : Text) (ips : List IpAddr) (w w' : H.World)
        → IsRestoring H exec kernel name ips
        → update_ipset H name ips w ≡ (ok tt, w')
        → exec_all exec (update_commands name ips) (kernel w) ≡ some (kernel w')
    unfolding update_ipset
    update_ipset-exec_all name ips w w' restoring h =
        let (binary, u, resolved, rest) = >>=-eq-ok (resolve_ipset_binary H) _ w h in
        let (output, v, ran, checked) =
          >>=-eq-ok (H.run binary (codes "restore" ∷ []) (render_all (update_commands name ips)))
            (check_restore H) u rest in
        let (fine, last) = check_restore-ok output v w' checked in
        let first = resolve_ipset_binary-same w u binary resolved in
        ap (λ x. exec_all exec (update_commands name ips) (kernel x)) first
        ∙ restoring binary u v output ran fine
        ∙ ap (λ x. some (kernel x)) last
