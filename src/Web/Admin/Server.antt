-- ===== src/Web/Admin/Server.antt =====
-- The server's side of the requests of the admin's page: the routes of
-- backend/src/admin/admin.controller.ts that frontend/src/app/admin/AdminPageContent.tsx calls, behind the
-- ValidationPipe of backend/src/main.ts.
use parking_gate_remote.Common.{String, List, [], ◌∷◌, if◌then◌else◌}
use parking_gate_remote.Common.Http.{Thrown, Result, ok, err}
use parking_gate_remote.Mongo.{Mongo}
use parking_gate_remote.Users.{Db}
use parking_gate_remote.Users.Schema.{User}
use parking_gate_remote.Auth.{on_ok}
use parking_gate_remote.Auth.Tokens.{Crypto}
use parking_gate_remote.Admin.{
  AdminCall, admin_update_user, update_user_role, admin_reset_password, delete_user,
  reset_user_device, send_approval_email,
}
use parking_gate_remote.Admin.Validators.{ClassValidator, update_passes, password_passes, not_valid}
use parking_gate_remote.Admin.Steps.{approve_all_pending_users}
use parking_gate_remote.Web.Trim.{trim}
use parking_gate_remote.Web.Admin.Forms.{
  AdminRequest, patch_user, patch_role, patch_password, remove_user, reset_device, send_email,
  approve_all,
}

-- What is left of an answer that is not looked at.
abbrev done : Result User × Db → Result (Unit {0}) × Db
done (ok u, db) = (ok tt, db)
done (err e, db) = (err e, db)

module _ (mongo : Mongo) (crypto : Crypto) (validator : ClassValidator) (acting : String)
    (failure : Thrown) (c : AdminCall) where
  -- The server's answer to a request of the admin with the id `acting`.
  unfoldable pub serve : AdminRequest → Db → Result (Unit {0}) × Db
  serve (patch_user id dto) db =
      if update_passes validator dto
      then done (admin_update_user mongo trim id dto c db)
      else (err (not_valid validator), db)
  serve (patch_role id role) db = done (update_user_role mongo id role db)
  serve (patch_password id dto) db =
      if password_passes validator dto
      then done (admin_reset_password mongo crypto id dto c db)
      else (err (not_valid validator), db)
  serve (remove_user id) db = done (delete_user mongo id acting db)
  serve (reset_device id device) db = done (reset_user_device mongo id device db)
  serve (send_email id) db = send_approval_email mongo id c failure db
  serve approve_all db = (ok tt, (approve_all_pending_users mongo c.now (λ _. c.email_sent) db).1)

  -- One request after the other, as far as they succeed.
  unfoldable pub submit : List AdminRequest → Db → Result (Unit {0}) × Db
  submit [] db = (ok tt, db)
  submit (r ∷ rs) db = let (answer, db') = serve r db in on_ok db' answer λ _. submit rs db'
