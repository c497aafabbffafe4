-- ===== src/Core/Role.antt =====
-- crates/misaka-core/src/identity.rs: Role::allows.
use misaka.Prelude.{Bool, true, false}
use misaka.Core.Types.{
  Role, owner, admin, operator, Permission, network_invite, network_revoke, sister_inspect,
  job_submit, job_cancel, file_send, tunnel_open, shell_open,
}

unfoldable pub allows : Role → Permission → Bool
allows owner permission = true
allows admin network_invite = true
allows admin network_revoke = true
allows admin sister_inspect = true
allows admin _ = false
allows operator sister_inspect = true
allows operator job_submit = true
allows operator job_cancel = true
allows operator file_send = true
allows operator tunnel_open = true
allows operator shell_open = true
allows operator _ = false
