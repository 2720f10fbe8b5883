-- ===== src/Ledger/Once/Working.antt =====
-- The work under a key that is held: the entry is posted, and the key then names its transaction.
use pacioli.Prelude.{◌≡◌, refl, sym, ◌∙◌, ap, Option, none, some, String, some-eq}
use pacioli.Schema.Server.{Server, Uuid}
use pacioli.Schema.Tables.{Database, Answer, refused, raised}
use pacioli.Schema.Statements.{settle_key}
use pacioli.Schema.Balance.Firing.{Yields, Yields-refused}
use pacioli.Session.Ensures.{Ensures}
use pacioli.Ledger.Entry.{Entry}
use pacioli.Ledger.Post.{post_entry}
use pacioli.Ledger.Once.{Claim, record_result}
use pacioli.Ledger.Once.Reserved.{
  IsReserved, NamesTransaction, insert_transaction-IsReserved, insert_leg-IsReserved,
  set_constraints-IsReserved, settle_key-NamesTransaction,
}
use pacioli.Ledger.Post.Ensured.{IsPosting, Ensures-Yields, post_entry-Ensures}

module _ (pg : Server) (c : Claim) where
  -- The id that a post answers with is a uuid's text.
  abbrev pub Posted : String → Database → Type 0
  Posted id d = IsReserved pg c d × ((u : Uuid) × (id ≡ pg.uuid_text u))

  -- A fact about a value stands beside what is so of the tables.
  Yields-beside :
      {P : Database → Type 0} {X : Type 0} (m : Answer Database)
      → X
      → Yields P m
      → Yields (λ d. P d × X) m
  Yields-beside m x y = record { at = λ d h. (y.at d h, x) }

  Posted-IsPosting : (e : Entry) → IsPosting pg e (IsReserved pg c) (λ id legs d. Posted id d)
  Posted-IsPosting e = record {
    before = λ cs b d p. set_constraints-IsReserved pg c cs b d p;
    opens = λ u now d p.
        Yields-beside _ (u, refl)
          (insert_transaction-IsReserved pg c u e.currency e.description _ d p);
    leg = λ id legs l u d p. Yields-beside _ p.1 (insert_leg-IsReserved pg c id l u d p.0);
    after = λ id legs cs b d p. Yields-beside _ p.1 (set_constraints-IsReserved pg c cs b d p.0);
  }

  pub post_entry-Posted : (e : Entry) → Ensures (IsReserved pg c) (post_entry pg e) Posted
  post_entry-Posted e = post_entry-Ensures pg e _ _ (Posted-IsPosting e)

  recorded :
      (id : String) (d : Database)
      → Posted id d
      → (o : Option Uuid) → pg.uuid_of id ≡ o
      → Yields (NamesTransaction pg c id) (elim o as (λ x. Answer Database) [
        | none ↦ refused (raised "22P02")
        | some t ↦ settle_key c.key t d
      ])
  recorded id d p none e = Yields-refused _
  recorded id d (p, (u, text)) (some t) e =
      let same : u ≡ t = some-eq (sym (pg.uuid_of-uuid_text u) ∙ ap pg.uuid_of (sym text) ∙ e) in
      record {
        at = λ d' h. settle_key-NamesTransaction pg c id t d d' (text ∙ ap pg.uuid_text same) p h;
      }

  pub record_result-Ensures :
      (id : String)
      → Ensures (Posted id) (record_result pg c id) (λ u d. NamesTransaction pg c id d)
  unfolding record_result
  record_result-Ensures id = Ensures-Yields _ _ _ λ u d p. recorded id d p (pg.uuid_of id) refl
