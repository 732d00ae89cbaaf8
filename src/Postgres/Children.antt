-- ===== src/Postgres/Children.antt =====
-- crates/crawlrs-metadata/src/store.rs: the outbox rows of the links of a page.
use crawlrs.Prelude.{ℕ, ◌≡◌, refl, sym, ap, ◌∙◌, subst, true, List, [], ◌∷◌, All, list_eq, nat_eq}
use crawlrs.Core.Error.{Text}
use crawlrs.Core.Types.{UrlApi, UrlEntry}
use crawlrs.Postgres.Tables.{Database, OutboxRow, has_child, insert_outbox_row}
use crawlrs.Postgres.Transactions.{execute}
use crawlrs.Postgres.Answered.{insert_outbox_row-Settles}
use crawlrs.Postgres.Store
use crawlrs.Postgres.Store.{mark_succeeded, succeeded_body, insert_children}
use crawlrs.Postgres.Constraints.{
  history_of, outbox_of, and_then_done, Has, insert_outbox_row-Has, insert_outbox_row-keeps,
  insert_outbox_row-rest,
}

module _ {Url : Type 0} (api : UrlApi Url) where
  pub child_step :
      (id : ℕ) (attempt : Text) (child : UrlEntry Url) (children : List (UrlEntry Url))
      (db : Database)
      → insert_children api id attempt (child ∷ children) [] db
        ≡ insert_children api id attempt children []
            (insert_outbox_row id attempt
              (api.as_str child.url)
              (Store.as_i32 child.depth)
              (Store.parent_text api child.discovered_from)
              db).1
  unfolding insert_children execute
  child_step id attempt child children db =
      let (e, none_left, _) =
        (insert_outbox_row-Settles id attempt (api.as_str child.url) (Store.as_i32 child.depth)
            (Store.parent_text api child.discovered_from)).settled
          db in
      and_then_done _ _ tt e none_left

  -- The outbox has a row of every child, and had it before.
  abbrev pub HasAll : ℕ → Text → List (UrlEntry Url) → List OutboxRow → Type 0
  HasAll id attempt children rows =
      All (λ child. has_child id attempt (api.as_str child.url) rows ≡ true) children

  pub insert_children-keeps :
      (id : ℕ) (attempt other : Text) (children : List (UrlEntry Url)) (db : Database)
      → Has id attempt other db
      → Has id attempt other (insert_children api id attempt children [] db).2
  unfolding insert_children
  insert_children-keeps id attempt other [] db h = h
  insert_children-keeps id attempt other (child ∷ children) db h =
      rw (child_step id attempt child children db) (
        insert_children-keeps id attempt other children _
          (insert_outbox_row-keeps id attempt _ other _ _ db h))

  pub insert_children-HasAll :
      (id : ℕ) (attempt : Text) (children : List (UrlEntry Url)) (db : Database)
      → HasAll id attempt children (outbox_of (insert_children api id attempt children [] db).2)
  unfolding insert_children
  insert_children-HasAll id attempt [] db = tt
  insert_children-HasAll id attempt (child ∷ children) db =
      subst (λ o. HasAll id attempt (child ∷ children) (outbox_of o.2))
        (sym (child_step id attempt child children db))
        (
          insert_children-keeps id attempt (api.as_str child.url) children _ (
              insert_outbox_row-Has id attempt (api.as_str child.url) (Store.as_i32 child.depth)
                (Store.parent_text api child.discovered_from) db),
          insert_children-HasAll id attempt children
              (insert_outbox_row id attempt (api.as_str child.url) (Store.as_i32 child.depth)
                (Store.parent_text api child.discovered_from) db).1,
        )

  pub insert_children-history :
      (id : ℕ) (attempt : Text) (children : List (UrlEntry Url)) (db : Database)
      → history_of (insert_children api id attempt children [] db).2 ≡ history_of db
  unfolding insert_children
  insert_children-history id attempt [] db = refl
  insert_children-history id attempt (child ∷ children) db =
      ap (λ o. history_of o.2) (child_step id attempt child children db)
      ∙ insert_children-history id attempt children _
      ∙ (insert_outbox_row-rest id attempt _ _ _ db).0

  pub insert_children-known :
      (id : ℕ) (attempt : Text) (children : List (UrlEntry Url)) (db : Database)
      → HasAll id attempt children (outbox_of db)
      → outbox_of (insert_children api id attempt children [] db).2 ≡ outbox_of db
  unfolding insert_children
  insert_children-known id attempt [] db h = refl
  insert_children-known id attempt (child ∷ children) db h =
      let same = (insert_outbox_row-rest id attempt _ _ _ db).1 h.0 in
      ap (λ o. outbox_of o.2) (child_step id attempt child children db)
      ∙ insert_children-known id attempt children _
          (subst (HasAll id attempt children) (sym same) h.1)
      ∙ same
