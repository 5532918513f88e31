-- ===== src/Server/Api/Plan.antt =====
-- crates/devsite-server/src/api.rs: what a change of a resource would do, as the client is shown it.
-- A JSON value of a field is a text or null; names of fields, operations and codes are data types.
pub mod Laws
use devsite.Prelude.{
  ℕ, Bool, true, false, not, ◌&&◌, ◌||◌, Option, some, none, List, [], ◌∷◌, ◌++◌, map, ◌==◌, Text,
  text, any, list_eq, if◌then◌else◌,
}
use devsite.Server.Policy.{Visibility, as_str}
use devsite.Server.Env.{Env, resource_id_text}
use devsite.Server.Db.Rows.{
  Db, Resource, ResourceKind, link, service, ShareStatus, pending, accepted, declined,
}
use devsite.Server.Db.Resources.{is_service, url_eq}
use devsite.Server.Db.Listings.{ShareRecipient, share_recipients, lower}

pub data PlanField : Type 0 where
  visibility_field url_field folder_field : PlanField

pub data PlanOperation : Type 0 where
  create noop update : PlanOperation

pub data PlanReason : Type 0 where
  recipient_removed destination_changed recipient_added : PlanReason

pub data EffectCode : Type 0 where
  recipient_reapproval_required accepted_access_revoked pending_invitations_withdrawn
        recipients_invited :
      EffectCode

pub record ResourcePlanChange : Type 0 where
  pub field : PlanField
  pub from : Option Text
  pub to : Option Text

pub record RecipientPlanChange : Type 0 where
  pub handle : Text
  pub from : Option ShareStatus
  pub to : Option ShareStatus
  pub reason : PlanReason

pub record ResourcePlanEffect : Type 0 where
  pub code : EffectCode
  pub handles : List Text

pub record ResourcePlanTarget : Type 0 where
  pub resource_id : Option Text
  pub kind : ResourceKind
  pub name : Text

pub record ResourcePlan : Type 0 where
  pub operation : PlanOperation
  pub target : ResourcePlanTarget
  pub changes : List ResourcePlanChange
  pub recipient_changes : List RecipientPlanChange
  pub effects : List ResourcePlanEffect

-- One field of the first loop.
unfoldable pub change_of : PlanField → Option Text → Option Text → List ResourcePlanChange
unfolding list_eq
change_of field from to =
    if url_eq from to then [] else record { field = field; from = from; to = to } ∷ []

-- Membership in a set of lower-case handles.
unfoldable pub names : List Text → Text → Bool
unfolding list_eq
names handles handle = any (λ h. list_eq (lower h) (lower handle)) handles

abbrev pub removal : ShareRecipient → RecipientPlanChange
removal r = record {
  handle = r.handle;
  from = some r.status;
  to = none;
  reason = recipient_removed;
}

abbrev pub reset : ShareRecipient → RecipientPlanChange
reset r = record {
  handle = r.handle;
  from = some accepted;
  to = some pending;
  reason = destination_changed;
}

abbrev pub is_accepted : ShareStatus → Bool
is_accepted accepted = true
is_accepted _ = false

abbrev pub is_waiting : ShareStatus → Bool
is_waiting pending = true
is_waiting _ = false

-- The loop over the existing recipients.
unfoldable pub existing_changes : List Text → Bool → List ShareRecipient → List RecipientPlanChange
unfolding names
existing_changes desired changed [] = []
existing_changes desired changed (r ∷ rs) =
    let rest = existing_changes desired changed rs in
    if not (names desired r.handle)
    then removal r ∷ rest
    else if changed && is_accepted r.status
    then reset r ∷ rest
    else rest

-- The handles of those recipients that pass a test: `reapproval`, `access_revoked` and
-- `invitations_withdrawn`.
unfoldable pub handles_where : (ShareRecipient → Bool) → List ShareRecipient → List Text
handles_where p [] = []
handles_where p (r ∷ rs) = let rest = handles_where p rs in if p r then r.handle ∷ rest else rest

unfoldable pub invited : List ShareRecipient → List Text → List Text
unfolding names
invited existing [] = []
invited existing (h ∷ hs) =
    let rest = invited existing hs in
    if names (map (λ r. r.handle) existing) h then rest else h ∷ rest

abbrev pub addition : Text → RecipientPlanChange
addition handle = record {
  handle = handle;
  from = none;
  to = some pending;
  reason = recipient_added;
}

-- An effect with no handles is left out.
unfoldable pub effect_of : EffectCode → List Text → List ResourcePlanEffect
effect_of code [] = []
effect_of code (h ∷ hs) = record { code = code; handles = h ∷ hs } ∷ []

abbrev pub existing_visibility : Option Resource → Option Text
existing_visibility none = none
existing_visibility (some r) = some (as_str r.visibility)

abbrev pub existing_url : Option Resource → Option Text
existing_url none = none
existing_url (some r) = r.url

abbrev pub existing_folder : Option Resource → Option Text
existing_folder none = none
existing_folder (some r) = r.folder

unfoldable pub existing_recipients : Db → Option Resource → List ShareRecipient
existing_recipients db none = []
existing_recipients db (some r) = share_recipients r.id db

abbrev pub is_existing : Option Resource → Bool
is_existing none = false
is_existing (some _) = true

unfoldable pub operation_of :
    Option Resource → List ResourcePlanChange → List RecipientPlanChange → PlanOperation
operation_of none changes recipient_changes = create
operation_of (some r) [] [] = noop
operation_of (some r) (c ∷ cs) recipient_changes = update
operation_of (some r) [] (c ∷ cs) = update

module _ (env : Env) where
  abbrev pub existing_id : Option Resource → Option Text
  existing_id none = none
  existing_id (some r) = some (resource_id_text env r.id)

  unfoldable pub build_resource_plan :
      Db
      → Option Resource
      → Text
      → ResourceKind
      → Visibility
      → Option Text
      → Option Text
      → List Text
      → ResourcePlan
  unfolding change_of existing_changes handles_where invited effect_of existing_recipients
      operation_of names
  build_resource_plan db existing name kind visibility url folder desired =
      let changes =
        change_of visibility_field (existing_visibility existing) (some (as_str visibility))
        ++ (change_of url_field (existing_url existing) url
            ++ change_of folder_field (existing_folder existing) folder) in
      let there = existing_recipients db existing in
      let changed =
        not (is_service kind) && is_existing existing && not (url_eq (existing_url existing) url) in
      let new = invited there desired in
      let recipient_changes = existing_changes desired changed there ++ map addition new in
      record {
        operation = operation_of existing changes recipient_changes;
        target = record { resource_id = existing_id existing; kind = kind; name = name };
        changes = changes;
        recipient_changes = recipient_changes;
        effects =
            effect_of recipient_reapproval_required (
              handles_where (λ r. names desired r.handle && (changed && is_accepted r.status))
                there)
            ++ (effect_of accepted_access_revoked
                  (handles_where (λ r. not (names desired r.handle) && is_accepted r.status) there)
                ++ (effect_of pending_invitations_withdrawn (
                      handles_where (λ r. not (names desired r.handle) && is_waiting r.status)
                        there)
                    ++ effect_of recipients_invited new));
      }
