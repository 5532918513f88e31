-- ===== src/Server/Db/Resources/Recipients.antt =====
-- Resources and their recipients: what `create_resource`, and then `set_shares`, leave of
-- crates/devsite-server/src/db.rs. A resource that is not shared has no recipients.
use devsite.Prelude.{
  ◌≡◌, ◌⊎◌, refl, sym, ◌∙◌, ap, true, false, Option, some, none, List, [], ◌∷◌, ◌==◌, contains,
  arith, ==_refl, Bool-cases, Option-cases, inl, inr, if◌then◌else◌,
}
use devsite.Proto.Capability.{AccountId, ResourceId}
use devsite.Server.Policy.{Visibility}
use devsite.Server.Db.Rows.{Db, ShareStatus}
use devsite.Server.Db.Shares.{set_shares, invite, invite_each, remove_unwanted, recipients}
use devsite.Server.Db.Shares.Rows.{or_pending}
use devsite.Server.Db.Shares.Status.{status, IsConsistent, remove_unwanted-SameReferences}
use devsite.Server.Db.Shares.Answer.{AllKnown, set_to, set_shares-Becomes}
use devsite.Server.Db.Resources.{is_shared}
use devsite.Server.Db.Resources.Stored.{shared_now, NoStray, Stored}

invite-resources :
    (r : ResourceId) (v : AccountId) (db : Db) {db' : Db}
    → invite r v db ≡ some db'
    → db'.resources ≡ db.resources
unfolding invite
invite-resources r v db e = ground arith

invite_each-resources :
    (r : ResourceId) (vs : List AccountId) (db : Db) {db' : Db}
    → invite_each r vs db ≡ some db'
    → db'.resources ≡ db.resources
unfolding invite_each
invite_each-resources r [] db e = ground arith
invite_each-resources r (v ∷ vs) db {db'} e = elim (Option-cases (invite r v db)) [
  | inl failed ↦ (let f : ◌≡◌ {A = Option Db} none (some db') = rw (failed, invite_each) at e in cc)
  | inr (mid, made) ↦
      let f : invite_each r vs mid ≡ some db' = rw (made, invite_each) at e in
      invite_each-resources r vs mid f ∙ invite-resources r v db made
]

set_shares-resources :
    (r : ResourceId) (vs : List AccountId) (db : Db) {db' : Db}
    → set_shares r vs db ≡ some db'
    → db'.resources ≡ db.resources
unfolding set_shares
set_shares-resources r vs db e =
    invite_each-resources r vs (remove_unwanted r vs (recipients r db) db) e
    ∙ (remove_unwanted-SameReferences r vs (recipients r db) db).resources

set_to_other :
    (id : ResourceId) (viewers : List AccountId) (q : ResourceId) (w : AccountId)
    (o : Option ShareStatus)
    → (id == q) ≡ false
    → set_to id viewers q w o ≡ o
set_to_other id viewers q w o e = rw e refl

set_to_nobody :
    (id : ResourceId) (viewers : List AccountId) (w : AccountId) (o : Option ShareStatus)
    → viewers ≡ []
    → set_to id viewers id w o ≡ none
unfolding contains
set_to_nobody id viewers w o e = rw e (ground arith)

set_to_self :
    (id : ResourceId) (viewers : List AccountId) (w : AccountId) (o : Option ShareStatus)
    → set_to id viewers id w o ≡ (if contains viewers w then or_pending o else none)
set_to_self id viewers w o = rw (==_refl id) refl

-- A resource that is not shared has no viewers to set.
nobody :
    (v : Visibility) (viewers : List AccountId)
    → (is_shared v ≡ true) ⊎ (viewers ≡ [])
    → is_shared v ≡ false
    → viewers ≡ []
nobody v viewers (inl visible) hidden = cc
nobody v viewers (inr empty) hidden = empty

-- The share list of a stored resource, which is empty unless the resource is shared, is set
-- without fail, and then nothing is left over.
pub set_shares-NoStray :
    (id : ResourceId) (v : Visibility) (viewers : List AccountId) (db mid : Db)
    → Stored id v db mid
    → AllKnown id viewers mid
    → (is_shared v ≡ true) ⊎ (viewers ≡ [])
    → (db' : Db) × (set_shares id viewers mid ≡ some db')
      × IsConsistent db'
      × NoStray db'
      × ((w : AccountId)
          → status db' id w ≡ (if contains viewers w then or_pending (status mid id w) else none))
unfolding NoStray contains
set_shares-NoStray id v viewers db mid st known allowed =
    let (db', made, b) = set_shares-Becomes id viewers mid known st.consistent in
    let rows = set_shares-resources id viewers mid made in
    (
      db',
      made,
      b.consistent,
      λ q w f. elim (Bool-cases (id == q)) [
        | inr other ↦
            b.at q w
            ∙ set_to_other id viewers q w (status mid q w) other
            ∙ st.others q w other (ap (shared_now q) (sym rows) ∙ f)
        | inl this ↦
            let same : q ≡ id = ground arith in
            let hidden : is_shared v ≡ false =
              sym st.visible
              ∙ ap (shared_now id) (sym rows)
              ∙ ap (λ x. shared_now x db'.resources) (sym same)
              ∙ f in
            ap (λ x. status db' x w) same
            ∙ b.at id w
            ∙ set_to_nobody id viewers w (status mid id w) (nobody v viewers allowed hidden)
      ],
      λ w. b.at id w ∙ set_to_self id viewers w (status mid id w),
    )
