-- ===== src/Ledger/Post/Stored.antt =====
-- Post and then EntryOf: the entry that is read is the one that was posted.
use pacioli.Prelude.{ℕ, ◌≡◌, ◌∙◌, ap, subst, some, List, ◌++◌, String}
use pacioli.Failure.{DriverError, ok}
use pacioli.Schema.Server.{Server, Uuid}
use pacioli.Schema.Tables.{Database, transaction_by_id}
use pacioli.Session.{Session, usable, query, exec}
use pacioli.Ledger.Entry.{Entry}
use pacioli.Ledger.Post.{post_entry, stored_time}
use pacioli.Ledger.Post.Effect.{IsEffect, transaction_row, posting_rows, post_entry-Wrote}
use pacioli.Ledger.Post.Lookups.{
  legs_of-append, legs_of-none, legs_of-posting_rows, transaction_by_id-new,
}
use pacioli.Ledger.Read.{entry_of, find_transaction, legs_of}
use pacioli.Ledger.Trial.Zero.{IsLinked}
use pacioli.Ledger.Trial.Linked.{unnamed_transaction}

module _ (pg : Server) (e : Entry) (before : Database) (l : IsLinked before) (t : Uuid) (now : ℕ)
    (d : Database) (w : IsEffect pg e before t now e.legs d) where
  pub stored_row : transaction_by_id t d.transactions ≡ some (transaction_row pg e before t now)
  stored_row =
      ap (transaction_by_id t) w.transactions
      ∙ transaction_by_id-new (transaction_row pg e before t now) before.transactions w.fresh

  pub stored_legs : legs_of t d.accounts d.postings ≡ e.legs
  stored_legs =
      ap (λ as'. legs_of t as' d.postings) w.accounts
      ∙ ap (legs_of t before.accounts) w.postings
      ∙ legs_of-append t before.accounts before.postings (posting_rows t before.accounts e.legs)
      ∙ ap (λ ls. ls ++ legs_of t before.accounts (posting_rows t before.accounts e.legs))
          (legs_of-none t before.accounts before.transactions before.postings
            (unnamed_transaction t before.transactions w.fresh) l.transactions)
      ∙ legs_of-posting_rows t before.accounts e.legs l.account_keys w.named

-- Where the keys of the tables hold and Post succeeds, EntryOf of the id that it answers with reads
-- back the entry: its currency, its description, its legs in order, and its time as a
-- timestamptz column keeps it, or a time where it gave none.
pub entry_of-post_entry :
    (pg : Server) (e : Entry) (s : Session) (id : String) (stack : List (String × Database)) (n : ℕ)
    (fault : DriverError) (clock : ℕ)
    → IsLinked s.live
    → (post_entry pg e s).0 ≡ ok id
    → (now : ℕ) × ((entry_of pg id (usable (post_entry pg e s).1.live stack n fault clock)).0
        ≡ ok (id, record e { occurred_at = some (stored_time pg e.occurred_at now) }))
unfolding entry_of find_transaction query exec
entry_of-post_entry pg e s id stack n fault clock l said =
    let d = (post_entry pg e s).1.live in
    let (t, now, text, w) = post_entry-Wrote pg e s id said in
    let row = stored_row pg e s.live l t now d w in
    let legs = stored_legs pg e s.live l t now d w in
    (
      now,
      subst
          (λ x.
            (entry_of pg x (usable d stack n fault clock)).0
            ≡ ok (x, record e { occurred_at = some (stored_time pg e.occurred_at now) }))
          text
          (rw (pg.uuid_of-uuid_text t, row)
            (ap
              (λ ls. ok (
                pg.uuid_text t,
                record e { legs = ls; occurred_at = some (stored_time pg e.occurred_at now) },
              ))
              legs)),
    )
