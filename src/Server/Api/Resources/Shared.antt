-- ===== src/Server/Api/Resources/Shared.antt =====
-- Who has access after a resource was made or its share list was set: crates/devsite-server/src/api.rs.
use mathlib.Core.Path.{subst}
use devsite.Prelude.{
  ℕ, ◌≡◌, ◌⊎◌, refl, sym, ◌∙◌, ap, true, false, not, Bool, Option, some, none, List, [], ◌∷◌, ok,
  arith, Text, contains, inl, inr, Bool-cases, ok-injective, if◌then◌else◌,
}
use devsite.Proto.Capability.{AccountId, ResourceId}
use devsite.Server.Env.{Env, resource_id_text}
use devsite.Server.RateLimits.{mutation}
use devsite.Server.Db.Rows.{Db, ShareStatus, accepted, has_account, has_resource}
use devsite.Server.Db.Shares.{set_shares, shared_with}
use devsite.Server.Db.Shares.Rows.{or_pending, Distinct, share_at, invitation_at}
use devsite.Server.Db.Shares.Status.{status, IsConsistent}
use devsite.Server.Db.Shares.Answer.{AllKnown}
use devsite.Server.Db.Resources as Table
use devsite.Server.Db.Resources.{is_shared, resource_named, resource_count}
use devsite.Server.Db.Resources.Stored.{shared_now, NoStray, create_resource-Stored}
use devsite.Server.Db.Resources.Recipients.{set_shares-NoStray}
use devsite.Server.Api.{
  AppState, Headers, Clock, ◌>>=◌, ◌>>◌, query, notify, notify_profiles, return, with_unit,
  require_account,
}
use devsite.Server.Api.Steps.{
  >>=-eq-ok, query-eq-ok, statement-eq-ok, check_rate-eq-ok, counted, outcome-injective,
  notify-eq-ok,
}
use devsite.Server.Api.Identity.{SameTables, require_account-SameTables}
use devsite.Server.Api.Checks.{resolve_share_accounts, resolve_each}
use devsite.Server.Api.Checks.Laws.{AreRecipients, resolve_share_accounts-AreRecipients}
use devsite.Server.Api.Resources.{
  CreateResourceRequest, CreateResourceResponse, PreparedResource, is_nonempty, prepare_resource,
  store_resource, create_resource, with_id,
}
use devsite.Server.Api.Resources.Prepared.{Prepares, prepare_resource-Prepares}

-- A recipient of the resource, in whatever standing.
abbrev pub is_recipient : Option ShareStatus → Bool
is_recipient none = false
is_recipient (some _) = true

pub AreRecipients-AllKnown :
    (id : ResourceId) (owner : AccountId) (vs : List AccountId) (db mid : Db)
    → AreRecipients db owner vs
    → mid.accounts ≡ db.accounts
    → has_resource id mid.resources ≡ true
    → AllKnown id vs mid
AreRecipients-AllKnown id owner [] db mid h same there = tt
AreRecipients-AllKnown id owner (v ∷ vs) db mid h same there = (
  (let known : has_account v mid.accounts ≡ true = ap (has_account v) same ∙ h.1 in
      rw (there, known) refl),
  AreRecipients-AllKnown id owner vs db mid h.3 same there,
)

pub recipient_named :
    (named : Bool) (o : Option ShareStatus)
    → is_recipient (if named then or_pending o else none) ≡ named
recipient_named true none = refl
recipient_named true (some x) = refl
recipient_named false o = refl

pub with_unit_db : {a b : Db} {u : Unit {0}} → with_unit (some a) ≡ some (b, u) → a ≡ b
with_unit_db e = cc

pub notify_profiles_db :
    (accounts : List AccountId) (s : AppState) → (notify_profiles accounts s).db ≡ s.db
unfolding notify_profiles
notify_profiles_db accounts s = ground arith

module _ (env : Env) where
  -- Tables in which standings are consistent, and resources that are not shared have none.
  pub record IsTidy (db : Db) : Type 0 where
    pub consistent : IsConsistent db
    pub stray : NoStray db

  pub IsTidy-SameTables : (a b : Db) → SameTables a b → IsTidy a → IsTidy b
  unfolding NoStray status
  IsTidy-SameTables a b same h = record {
    consistent = record {
      distinct = subst Distinct same.invitations h.consistent.distinct;
      disjoint = λ r v e.
          ap (invitation_at r v) (sym same.invitations)
          ∙ h.consistent.disjoint r v (ap (share_at r v) same.shares ∙ e);
      open_only = λ r v e. h.consistent.open_only r v (ap (invitation_at r v) same.invitations ∙ e);
    };
    stray = λ q w f.
        sym (λ i.
          if share_at q w (same.shares i)
          then some accepted
          else invitation_at q w (same.invitations i))
        ∙ h.stray q w (ap (shared_now q) same.resources ∙ f);
  }

  pub resolved_nobody :
      (db : Db) (owner : AccountId) (handles : List Text) {vs : List AccountId}
      → not (is_nonempty handles) ≡ true
      → resolve_share_accounts env db owner handles ≡ ok vs
      → vs ≡ []
  unfolding resolve_share_accounts resolve_each
  resolved_nobody db owner [] h e = sym (ok-injective e)
  resolved_nobody db owner (t ∷ ts) h e = cc

  no_viewers :
      (owner : AccountId) (handles : List Text) (db : Db) (p : PreparedResource)
      → Prepares env owner handles db p
      → (is_shared p.fields.visibility ≡ true) ⊎ (p.viewers ≡ [])
  no_viewers owner handles db p h = elim (Bool-cases (is_shared p.fields.visibility)) [
    | inl seen ↦ inl seen
    | inr hidden ↦ inr (resolved_nobody db owner handles (rw hidden at h.allowed) h.resolved)
  ]

  store_resource-IsTidy :
      (id : ResourceId) (owner : AccountId) (now : ℕ) (handles : List Text) (p : PreparedResource)
      (s : AppState) {t : AppState} (stored : ResourceId)
      → Prepares env owner handles s.db p
      → IsTidy s.db
      → store_resource id owner now p s ≡ (t, ok stored)
      → IsTidy t.db × ((w : AccountId) → is_recipient (status t.db stored w) ≡ contains p.viewers w)
  unfolding store_resource
  store_resource-IsTidy id owner now handles p s {t} stored h tidy e =
      let f = p.fields in
      let (id', mid, made, e1) =
        statement-eq-ok
          (Table.create_resource id owner f.name f.kind f.visibility f.url f.folder now) _ s e in
      let (_, last, set, e2) =
        statement-eq-ok (λ db. with_unit (set_shares id' p.viewers db)) _ (record s { db = mid })
          e1 in
      let st =
        create_resource-Stored id owner f.name f.kind f.visibility f.url f.folder now s.db mid id'
          tidy.consistent tidy.stray made in
      let (recipients, _) =
        resolve_share_accounts-AreRecipients env s.db owner handles p.viewers h.resolved in
      let (db', done, consistent, stray, exact) =
        set_shares-NoStray id' f.visibility p.viewers s.db mid st
          (AreRecipients-AllKnown id' owner p.viewers s.db mid recipients st.accounts st.there)
          (no_viewers owner handles s.db p h) in
      let (state, same_id) = outcome-injective e2 in
      let same_db : db' ≡ t.db =
        with_unit_db (sym (ap with_unit done) ∙ set) ∙ ap (λ x. x.db) state in
      (
        subst IsTidy same_db (record { consistent = consistent; stray = stray }),
        λ w.
            ap (λ d. is_recipient (status d stored w)) (sym same_db)
            ∙ ap (λ x. is_recipient (status db' x w)) (sym same_id)
            ∙ ap is_recipient (exact w)
            ∙ recipient_named (contains p.viewers w) (status mid id' w),
      )

  -- Telling the profiles and answering change no table.
  announced :
      (owner : AccountId) (stored : ResourceId) (p : PreparedResource) (x : AppState) {t : AppState}
      {response : CreateResourceResponse}
      → (query (shared_with stored) >>= (λ viewers.
            notify (owner ∷ viewers)
            >> return (record {
              resource_id = resource_id_text env stored;
              plan = with_id (resource_id_text env stored) p.plan;
            })))
          x
        ≡ (t, ok response)
      → (x.db ≡ t.db) × (response.resource_id ≡ resource_id_text env stored)
  announced owner stored p x e =
      let (last, answered) = outcome-injective (
        notify-eq-ok (owner ∷ shared_with stored x.db) _ x
          (query-eq-ok (shared_with stored) _ x e)) in
      (
        sym (notify_profiles_db (owner ∷ shared_with stored x.db) x) ∙ ap (λ a. a.db) last,
        ap (λ a. a.resource_id) (sym answered),
      )

  -- The recipients of a resource are the accounts that the handles named.
  pub record Names (handles : List Text) (before after : Db) (stored : ResourceId) : Type 0 where
    pub owner : AccountId
    pub viewers : List AccountId
    pub known : Db
    pub same : SameTables before known
    pub resolved : resolve_share_accounts env known owner handles ≡ ok viewers
    pub exact : (w : AccountId) → is_recipient (status after stored w) ≡ contains viewers w

  -- In consistent tables where no resource that is not shared has a recipient, a request that makes
  -- or changes a resource leaves as its recipients exactly the accounts that it names, leaves the
  -- tables consistent, and still leaves no resource that is not shared with a recipient.
  pub create_resource-IsTidy :
      (clock : Clock) (headers : Headers) (body : CreateResourceRequest) (id : ResourceId)
      (s t : AppState) (response : CreateResourceResponse)
      → create_resource env clock headers body id s ≡ (t, ok response)
      → IsTidy s.db
      → IsTidy t.db
        × ((stored : ResourceId) × (response.resource_id ≡ resource_id_text env stored)
            × Names body.share_with s.db t.db stored)
  unfolding create_resource
  create_resource-IsTidy clock headers body id s t response e tidy =
      let (owner, u, identified, e1) = >>=-eq-ok (require_account env clock headers) _ s e in
      let same = require_account-SameTables env clock headers s identified in
      let (_, e2) = check_rate-eq-ok clock owner mutation _ u e1 in
      let v = counted clock owner mutation u in
      let (p, w, prepared, e3) = >>=-eq-ok (prepare_resource env owner body) _ v e2 in
      let (same_w, prepares) = prepare_resource-Prepares env owner body v p prepared in
      let (stored, x, storing, e4) = >>=-eq-ok (store_resource id owner clock.now p) _ w e3 in
      let (after, exact) =
        store_resource-IsTidy id owner clock.now body.share_with p w stored
          (subst (λ a. Prepares env owner body.share_with a.db p) (sym same_w) prepares)
          (subst (λ a. IsTidy a.db) (sym same_w) (IsTidy-SameTables s.db u.db same tidy)) storing in
      let (same_t, answered) = announced owner stored p x e4 in
      (
        subst IsTidy same_t after,
        (
          stored,
          answered,
          record {
            owner = owner;
            viewers = p.viewers;
            known = u.db;
            same = same;
            resolved = prepares.resolved;
            exact = λ a. ap (λ d. is_recipient (status d stored a)) (sym same_t) ∙ exact a;
          },
        ),
      )
