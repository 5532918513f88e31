-- ===== src/Server/Api/Profile/Laws.antt =====
-- Who sees what on a profile: crates/devsite-server/src/api.rs.
use devsite.Prelude.{◌≡◌, true, Option, List, All}
use devsite.Proto.Capability.{AccountId}
use devsite.Server.Env.{Env}
use devsite.Server.Db.Rows.{Db}
use devsite.Server.Api.Profile.{ProfileEntry, shows}

-- Every entry may be seen.
abbrev pub AllShown : Option AccountId → Db → List ProfileEntry → Type 0
AllShown viewer db entries = All (λ e. shows viewer db e.resource ≡ true) entries

-- Every entry is a resource of the account.
abbrev pub AllOf : AccountId → List ProfileEntry → Type 0
AllOf owner entries = All (λ e. e.resource.owner_id ≡ owner) entries
