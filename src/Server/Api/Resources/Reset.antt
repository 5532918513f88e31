-- ===== src/Server/Api/Resources/Reset.antt =====
-- Who has access after the share list of a resource was set: crates/devsite-server/src/api.rs.
use mathlib.Core.Path.{subst}
use devsite.Prelude.{
  ◌≡◌, ◌⊎◌, refl, sym, ◌∙◌, ap, true, false, not, Bool, ◌||◌, Option, some, none, List, [], ◌∷◌,
  ◌++◌, Result, ok, err, arith, Text, contains, ◌==◌, inl, inr, find,
}
use devsite.Proto.Capability.{AccountId, ResourceId}
use devsite.Server.Env.{Env, parse_resource_id}
use devsite.Server.RateLimits.{mutation}
use devsite.Server.Db.Rows.{Db, Resource, has_resource, resource}
use devsite.Server.Db.Shares.{set_shares, shared_with}
use devsite.Server.Db.Shares.Status.{status}
use devsite.Server.Db.Resources.{is_shared}
use devsite.Server.Db.Resources.Stored.{NoStray, shared_now, Stored}
use devsite.Server.Db.Resources.Recipients.{set_shares-NoStray}
use devsite.Server.Api.{
  AppState, ApiError, Headers, Clock, ◌>>=◌, query, notify, not_found, invalid_request, with_unit,
  require_account,
}
use devsite.Server.Api.Steps.{
  >>=-eq-ok, query-eq-ok, lift-eq-ok, or_fail-eq-ok, require-eq-ok, statement-eq-ok,
  check_rate-eq-ok, counted, outcome-injective,
}
use devsite.Server.Api.Outcomes.{
  >>=-either, or_fail-either, query-either, lift-either, require-either, check_rate-either,
  statement-either,
}
use devsite.Server.Api.Identity.{
  SameTables, Refuses, Refuses_of_err, require_account-SameTables, require_account-Refuses,
}
use devsite.Server.Api.Checks.{resolve_share_accounts}
use devsite.Server.Api.Checks.Laws.{resolve_share_accounts-AreRecipients}
use devsite.Server.Api.Resources.{is_nonempty, owned, set_resource_shares}
use devsite.Server.Api.Resources.Shared.{
  IsTidy, IsTidy-SameTables, Names, AreRecipients-AllKnown, recipient_named, with_unit_db,
  notify_profiles_db, resolved_nobody, is_recipient,
}

owned-some :
    (owner : AccountId) (o : Option Resource) {r : Resource}
    → owned owner o ≡ some r
    → (o ≡ some r) × (r.owner_id ≡ owner)
unfolding owned
owned-some owner none e = cc
owned-some owner (some q) e = ground arith

stored_rows :
    (id : ResourceId) (rows : List Resource) {r : Resource}
    → find (λ q. q.id == id) rows ≡ some r
    → (shared_now id rows ≡ is_shared r.visibility) × (has_resource id rows ≡ true)
unfolding shared_now has_resource
stored_rows id [] e = cc
stored_rows id (q ∷ rows) {r = r} e = ground (arith, stored_rows id rows {r = r})

-- Telling the profiles changes no table.
announced :
    (owner : AccountId) (id : ResourceId) (old : List AccountId) (x : AppState) {t : AppState}
    {u : Unit {0}}
    → (query (shared_with id) >>= (λ new. notify (owner ∷ (old ++ new)))) x ≡ (t, ok u)
    → x.db ≡ t.db
announced owner id old x e =
    let (last, _) = outcome-injective (query-eq-ok (shared_with id) _ x e) in
    sym (notify_profiles_db (owner ∷ (old ++ shared_with id x.db)) x) ∙ ap (λ y. y.db) last

module _ (env : Env) where
  allowed_viewers :
      (owner : AccountId) (handles : List Text) (db : Db) (visible : Bool)
      (viewers : List AccountId)
      → resolve_share_accounts env db owner handles ≡ ok viewers
      → (visible || not (is_nonempty handles)) ≡ true
      → (visible ≡ true) ⊎ (viewers ≡ [])
  allowed_viewers owner handles db true viewers resolved allowed = inl refl
  allowed_viewers owner handles db false viewers resolved allowed =
      inr (resolved_nobody env db owner handles allowed resolved)

  -- Setting a share list that was resolved and allowed.
  set_shares-IsTidy :
      (owner : AccountId) (handles : List Text) (id : ResourceId) (r : Resource)
      (viewers : List AccountId) (db after : Db) {u : Unit {0}}
      → IsTidy env db
      → resource db id ≡ some r
      → resolve_share_accounts env db owner handles ≡ ok viewers
      → (is_shared r.visibility || not (is_nonempty handles)) ≡ true
      → with_unit (set_shares id viewers db) ≡ some (after, u)
      → IsTidy env after × ((w : AccountId) → is_recipient (status after id w) ≡ contains viewers w)
  unfolding resource NoStray
  set_shares-IsTidy owner handles id r viewers db after tidy found resolved allowed set =
      let (visible, there) = stored_rows id db.resources found in
      let st : Stored id r.visibility db db = record {
        consistent = tidy.consistent;
        others = λ q w e f. tidy.stray q w f;
        visible = visible;
        there = there;
        accounts = refl;
      } in
      let (recipients, _) =
        resolve_share_accounts-AreRecipients env db owner handles viewers resolved in
      let (db', done, consistent, stray, exact) =
        set_shares-NoStray id r.visibility viewers db db st
          (AreRecipients-AllKnown id owner viewers db db recipients refl there)
          (allowed_viewers owner handles db (is_shared r.visibility) viewers resolved allowed) in
      let same : db' ≡ after = with_unit_db (sym (ap with_unit done) ∙ set) in
      (
        subst (IsTidy env) same (record { consistent = consistent; stray = stray }),
        λ w.
            ap (λ d. is_recipient (status d id w)) (sym same)
            ∙ ap is_recipient (exact w)
            ∙ recipient_named (contains viewers w) (status db id w),
      )

  -- The recipients of tidy tables.
  abbrev Serves : ResourceId → List AccountId → Db → Type 0
  Serves id viewers db =
      IsTidy env db × ((w : AccountId) → is_recipient (status db id w) ≡ contains viewers w)

  set_shares-Serves :
      (owner : AccountId) (id : ResourceId) (old viewers : List AccountId) (x : AppState)
      {t : AppState} {u : Unit {0}}
      → Serves id viewers x.db
      → (query (shared_with id) >>= (λ new. notify (owner ∷ (old ++ new)))) x ≡ (t, ok u)
      → Serves id viewers t.db
  set_shares-Serves owner id old viewers x h e =
      subst (Serves id viewers) (announced owner id old x e) h

  -- The recipients are those that the caller names, for a resource of the caller's own.
  abbrev pub SetBy : Clock → Headers → Text → List Text → AppState → AppState → Type 0
  SetBy clock headers name share_with s t =
      (id : ResourceId) × (r : Resource) × (n : Names env share_with s.db t.db id)
      × (parse_resource_id env name ≡ some id)
      × (resource n.known id ≡ some r)
      × (r.owner_id ≡ n.owner)
      × (u : AppState) × (require_account env clock headers s ≡ (u, ok n.owner))
      × (n.known ≡ u.db)

  set_resource_shares-eq-ok :
      (clock : Clock) (headers : Headers) (name : Text) (share_with : List Text) (s t : AppState)
      (u : Unit {0})
      → set_resource_shares env clock headers name share_with s ≡ (t, ok u)
      → IsTidy env s.db
      → IsTidy env t.db × SetBy clock headers name share_with s t
  unfolding set_resource_shares
  set_resource_shares-eq-ok clock headers name share_with s t u e tidy =
      let (owner, a, identified, e1) = >>=-eq-ok (require_account env clock headers) _ s e in
      let same = require_account-SameTables env clock headers s identified in
      let (_, e2) = check_rate-eq-ok clock owner mutation _ a e1 in
      let b = counted clock owner mutation a in
      let (id, parsed, e3) = or_fail-eq-ok (parse_resource_id env name) not_found _ b e2 in
      let (r, found, e4) =
        or_fail-eq-ok (owned owner (resource b.db id)) not_found _ b
          (query-eq-ok (λ db. owned owner (resource db id)) _ b e3) in
      let (there, mine) = owned-some owner (resource b.db id) found in
      let (allowed, e5) =
        require-eq-ok (is_shared r.visibility || not (is_nonempty share_with)) invalid_request _ b
          e4 in
      let (viewers, resolved, e6) =
        lift-eq-ok (resolve_share_accounts env b.db owner share_with) _ b (
          query-eq-ok (λ db. resolve_share_accounts env db owner share_with) _ b
            (query-eq-ok (shared_with id) _ b e5)) in
      let (_, after, set, e7) =
        statement-eq-ok (λ db. with_unit (set_shares id viewers db)) _ b e6 in
      let (tidied, exact) =
        set_shares-Serves owner id (shared_with id b.db) viewers (record b { db = after })
          (set_shares-IsTidy owner share_with id r viewers b.db after
            (IsTidy-SameTables env s.db a.db same tidy) there resolved allowed set)
          e7 in
      (
        tidied,
        (
          id,
          r,
          record {
            owner = owner;
            viewers = viewers;
            known = a.db;
            same = same;
            resolved = resolved;
            exact = exact;
          },
          parsed,
          there,
          mine,
          a,
          identified,
          refl,
        ),
      )

  set_resource_shares-Refuses :
      (clock : Clock) (headers : Headers) (name : Text) (share_with : List Text) (s : AppState)
      → Refuses s.db (set_resource_shares env clock headers name share_with s)
  unfolding set_resource_shares
  set_resource_shares-Refuses clock headers name share_with s =
      let Q = Refuses s.db in
      >>=-either Q (require_account env clock headers) _ s
        (λ a e f. Refuses_of_err s.db _ a e (require_account-Refuses env clock headers s) f)
        (λ a owner f.
          let same = require_account-SameTables env clock headers s f in
          let b = counted clock owner mutation a in
          check_rate-either Q clock owner mutation _ a same (
            or_fail-either Q (parse_resource_id env name) not_found _ b same (λ id _.
              query-either Q (λ db. owned owner (resource db id)) _ b
                (or_fail-either Q (owned owner (resource b.db id)) not_found _ b same (λ r _.
                  require-either Q (is_shared r.visibility || not (is_nonempty share_with))
                    invalid_request _ b same
                    (λ _. query-either Q (shared_with id) _ b (
                      query-either Q (λ db. resolve_share_accounts env db owner share_with) _ b
                        (lift-either Q (resolve_share_accounts env b.db owner share_with) _ b
                          (λ _. same)
                          (λ viewers _.
                            statement-either Q (λ db. with_unit (set_shares id viewers db)) _ b same
                              (λ _ db _.
                                query-either Q (shared_with id) _ (record b { db = db })
                                  tt))))))))))

  -- What an answer says of the share lists.
  abbrev pub Sets :
      Clock → Headers → Text → List Text → AppState → AppState × Result ApiError (Unit {0}) → Type 0
  Sets clock headers name share_with s (t, ok u) = SetBy clock headers name share_with s t
  Sets clock headers name share_with s (t, err e) = SameTables s.db t.db

  -- In consistent tables where no resource that is not shared has a recipient, a request to set the
  -- share list of a resource changes no account, resource, share or invitation when it is refused.
  -- Otherwise the account that makes the request is the owner of the resource, and the recipients
  -- are exactly the accounts that the list names. In either case the tables are consistent, and
  -- still no resource that is not shared has a recipient.
  pub set_resource_shares-IsTidy :
      (clock : Clock) (headers : Headers) (name : Text) (share_with : List Text) (s t : AppState)
      (answer : Result ApiError (Unit {0}))
      → set_resource_shares env clock headers name share_with s ≡ (t, answer)
      → IsTidy env s.db
      → IsTidy env t.db × Sets clock headers name share_with s (t, answer)
  set_resource_shares-IsTidy clock headers name share_with s t (ok u) e tidy =
      set_resource_shares-eq-ok clock headers name share_with s t u e tidy
  set_resource_shares-IsTidy clock headers name share_with s t (err x) e tidy =
      let same =
        Refuses_of_err s.db _ t x (set_resource_shares-Refuses clock headers name share_with s) e in
      (IsTidy-SameTables env s.db t.db same tidy, same)
