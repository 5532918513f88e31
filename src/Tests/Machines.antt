-- ===== src/Tests/Machines.antt =====
-- Enrollment and deletion in crates/devsite-server/src/db.rs at concrete inputs.
use devsite.Prelude.{◌≡◌, ◌⊎◌, refl, true, false, some, none, [], ◌∷◌, text, any, list_eq}
use devsite.Server.Policy.{shared}
use devsite.Server.Db.Rows.{Db, Resource, service, MachineRow, empty_db}
use devsite.Server.Db.Resources.{is_at, delete_resource}
use devsite.Server.Db.Resources.Authorized.{DistinctIds}
use devsite.Server.Db.Resources.Owned.{IsGone, delete_resource_lem}
use devsite.Server.Db.Tickets.{request_is}
use devsite.Server.Db.Machines.{is_ticket, bind_ticket, clashes, enroll_machine, machine_enrollment}
use devsite.Server.Db.Machines.Laws.{DistinctTokens, Enrolled, enroll_machine-once}

abbrev web : Resource
web = record {
  id = 7;
  owner_id = 3;
  name = text "web";
  kind = service;
  visibility = shared;
  url = none;
  folder = none;
  created_at = 1;
}

-- A bound credential, and one whose enrollment ticket is not used yet.
abbrev bound : MachineRow
bound = record {
  id = text "m1";
  account_id = 3;
  name = text "desk";
  token_hash = 1;
  created_at = 1;
  last_used_at = none;
  endpoint_id = some (text "ab");
  enrolled_at = some 2;
  scopes = [];
}

abbrev ticket : MachineRow
ticket = record bound { id = text "m2"; token_hash = 2; endpoint_id = none; enrolled_at = none }

abbrev db : Db
db = record empty_db {
  accounts = record { id = 3; external_sub = text "sub"; handle = none; created_at = 1 } ∷ [];
  resources = web ∷ [];
  shares = record { resource_id = 7; viewer_id = 4 } ∷ [];
  connection_tickets =
      record { token_hash = 9; viewer_id = 4; resource_id = 7; expires_at = 100 } ∷ [];
  machine_credentials = bound ∷ ticket ∷ [];
}

web-DistinctIds : DistinctIds db.resources
unfolding DistinctIds
web-DistinctIds = (refl, refl)

delete_resource_lem_example :
    ((any (is_at 7 3) db.resources ≡ true)
      × ((delete_resource 3 7 db).1 ≡ true)
      × IsGone (delete_resource 3 7 db).0 7)
    ⊎ ((any (is_at 7 3) db.resources ≡ false) × (delete_resource 3 7 db ≡ (db, false)))
delete_resource_lem_example = delete_resource_lem 3 7 db web-DistinctIds

rows-DistinctTokens : DistinctTokens db.machine_credentials
unfolding DistinctTokens
rows-DistinctTokens = (refl, (refl, refl))

abbrev after : Db
after = record db {
  machine_credentials =
      bound
      ∷ record ticket {
        token_hash = 5;
        endpoint_id = some (text "cd");
        enrolled_at = some 20;
        last_used_at = some 20;
      }
      ∷ [];
}

enrolled : enroll_machine (text "m2") 3 2 5 (text "cd") 20 db ≡ some (after, true)
unfolding enroll_machine clashes bind_ticket is_ticket request_is list_eq
enrolled = refl

enroll_machine-once_example :
    (machine_enrollment 2 after ≡ none)
    × Enrolled (text "m2") 3 5 (text "cd") after.machine_credentials
enroll_machine-once_example =
    enroll_machine-once (text "m2") 3 2 5 (text "cd") 20 db after rows-DistinctTokens enrolled
