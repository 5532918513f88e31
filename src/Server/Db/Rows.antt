-- ===== src/Server/Db/Rows.antt =====
-- crates/devsite-server/src/db.rs: the rows and the schema's references.
use devsite.Prelude.{ℕ, Bool, Option, List, [], Text, any, ◌==◌, find}
use devsite.Proto.Capability.{AccountId, ResourceId}
use devsite.Server.Policy.{Visibility}

pub data ResourceKind : Type 0 where
  link service : ResourceKind

pub data ShareStatus : Type 0 where
  pending accepted declined : ShareStatus

pub record AccountRow : Type 0 where
  pub id : AccountId
  pub external_sub : Text
  pub handle : Option Text
  pub created_at : ℕ

pub record Resource : Type 0 where
  pub id : ResourceId
  pub owner_id : AccountId
  pub name : Text
  pub kind : ResourceKind
  pub visibility : Visibility
  pub url : Option Text
  pub folder : Option Text
  pub created_at : ℕ

pub record ShareRow : Type 0 where
  pub resource_id : ResourceId
  pub viewer_id : AccountId

-- `status` is `pending` or `declined` here, by the table's CHECK.
pub record InvitationRow : Type 0 where
  pub resource_id : ResourceId
  pub viewer_id : AccountId
  pub status : ShareStatus

pub record MachineRow : Type 0 where
  pub id : Text
  pub account_id : AccountId
  pub name : Text
  pub token_hash : ℕ
  pub created_at : ℕ
  pub last_used_at : Option ℕ
  pub endpoint_id : Option Text
  pub enrolled_at : Option ℕ
  pub scopes : List Text

pub record TicketRow : Type 0 where
  pub token_hash : ℕ
  pub viewer_id : AccountId
  pub resource_id : ResourceId
  pub expires_at : ℕ

pub record TunnelRow : Type 0 where
  pub token_hash : ℕ
  pub viewer_id : AccountId
  pub resource_id : ResourceId
  pub client_endpoint_id : Text
  pub expires_at : ℕ
  pub issuer_credential_id : Option Text
  pub grant_request_id : Option Text

pub record SessionRow : Type 0 where
  pub token_hash : ℕ
  pub account_id : AccountId
  pub expires_at : ℕ

pub record DaemonRow : Type 0 where
  pub account_id : AccountId
  pub endpoint_id : Text

pub record IdentityRow : Type 0 where
  pub namespace : Text
  pub subject : Text
  pub account_id : AccountId

pub record ProfileRow : Type 0 where
  pub account_id : AccountId
  pub custom_css : Option Text
  pub private_only : Bool

pub record Db : Type 0 where
  pub accounts : List AccountRow
  pub identities : List IdentityRow
  pub profiles : List ProfileRow
  pub sessions : List SessionRow
  pub machine_credentials : List MachineRow
  pub resources : List Resource
  pub shares : List ShareRow
  pub invitations : List InvitationRow
  pub connection_tickets : List TicketRow
  pub tunnel_sessions : List TunnelRow
  pub daemons : List DaemonRow

abbrev pub empty_db : Db
empty_db = record {
  accounts = [];
  identities = [];
  profiles = [];
  sessions = [];
  machine_credentials = [];
  resources = [];
  shares = [];
  invitations = [];
  connection_tickets = [];
  tunnel_sessions = [];
  daemons = [];
}

-- `REFERENCES accounts(id)` and `REFERENCES resources(id)`.
unfoldable pub has_account : AccountId → List AccountRow → Bool
has_account id rows = any (λ r. r.id == id) rows

unfoldable pub has_resource : ResourceId → List Resource → Bool
has_resource id rows = any (λ r. r.id == id) rows

-- `SELECT … FROM resources WHERE id = ?1`.
unfoldable pub resource : Db → ResourceId → Option Resource
resource db id = find (λ r. r.id == id) db.resources

-- `SELECT … FROM accounts WHERE id = ?1`.
unfoldable pub account_by_id : Db → AccountId → Option AccountRow
account_by_id db id = find (λ r. r.id == id) db.accounts
