-- ===== src/Http/Serve/Books.antt =====
-- The book behind any run of calls, and what the trial balance says of it.
use pacioli.Http.Serve.Carried.{Carries, write-Carries, write_entry-Keeps, serve_all-Carries}
use pacioli.Prelude.{List}
use pacioli.Prelude.Int.{ℤ}
use pacioli.Schema.Server.{Server}
use pacioli.Schema.Tables.{Database, Answer}
use pacioli.Schema.Balance.Firing.{Yields}
use pacioli.Schema.Balance.Covered.{IsCovered, IsQuiet, commit-IsQuiet}
use pacioli.Schema.Balance.Writes.{
  insert_account-IsCovered, insert_transaction-IsCovered, insert_key-IsCovered,
  insert_posting-IsCovered, settle_key-IsCovered, set_constraints-IsCovered,
}
use pacioli.Ledger.Stable.{IsKept}
use pacioli.Ledger.Trial.Zero.{IsLinked}
use pacioli.Ledger.Trial.Linked.{
  insert_account-IsLinked, insert_transaction-IsLinked, insert_key-IsLinked,
  insert_posting-IsLinked, settle_key-IsLinked, set_constraints-IsLinked, commit-IsLinked,
}
use pacioli.Ledger.Once.{Claim}
use pacioli.Ledger.Entry.{Entry}
use pacioli.Http.Pool.{Store, Fate, write}
use pacioli.Http.Writes.{Request, Fingerprint}
use pacioli.Http.Writes
use pacioli.Http.Serve.{Call, Wiring, serve_all}

-- The tables between calls: every entry balances, nothing is queued, and the keys hold.
pub record IsBook (d : Database) : Type 0 where
  pub quiet : IsQuiet d
  pub linked : IsLinked d

-- The tables inside a transaction.
pub record IsSound (d : Database) : Type 0 where
  pub covered : IsCovered d
  pub linked : IsLinked d

Yields-IsSound : {a : Answer Database} → Yields IsCovered a → Yields IsLinked a → Yields IsSound a
Yields-IsSound c l = record { at = λ d h. record { covered = c.at d h; linked = l.at d h } }

IsSound-IsKept : (pg : Server) → IsKept pg IsSound
IsSound-IsKept pg = record {
  accounts = λ u code name kind currency d s.
      Yields-IsSound (insert_account-IsCovered d s.covered pg u code name kind currency)
        (insert_account-IsLinked d s.linked pg u code name kind currency);
  transactions = λ u currency description at d s.
      Yields-IsSound (insert_transaction-IsCovered d s.covered pg u currency description at)
        (insert_transaction-IsLinked d s.linked pg u currency description at);
  postings = λ t a c amount d s.
      Yields-IsSound (insert_posting-IsCovered d s.covered t a c amount)
        (insert_posting-IsLinked d s.linked t a c amount);
  keys = λ k hash d s.
      Yields-IsSound (insert_key-IsCovered d s.covered pg k hash)
        (insert_key-IsLinked d s.linked pg k hash);
  results = λ k t d s.
      Yields-IsSound (settle_key-IsCovered d s.covered k t) (settle_key-IsLinked d s.linked k t);
  modes = λ cs b d s.
      Yields-IsSound (set_constraints-IsCovered d s.covered cs b)
        (set_constraints-IsLinked d s.linked cs b);
}

IsBook-Carries : (pg : Server) → Carries pg IsBook IsSound
IsBook-Carries pg = record {
  begins = λ d b. record { covered = b.quiet.covered; linked = b.linked };
  kept = IsSound-IsKept pg;
  commits = λ d s. record {
    at = λ d' h. record {
      quiet = (commit-IsQuiet d s.covered).at d' h;
      linked = (commit-IsLinked d s.linked).at d' h;
    };
  };
}

pub write_entry-IsBook :
    (pg : Server) (acquire : ℤ) (w : Fate) (c : Claim) (e : Entry) (st : Store)
    → IsBook st.book
    → IsBook (write acquire w (Writes.write_entry pg c e) st).1.book
write_entry-IsBook pg acquire w c e st b =
    let k = IsBook-Carries pg in
    write-Carries pg IsBook IsSound k acquire w _ st (write_entry-Keeps pg IsBook IsSound k c e) b

-- Whatever calls arrive, whatever bodies they carry and wherever their connections are lost, the
-- book behind them is one in which every entry balances, the keys of the schema hold and nothing is
-- queued.
pub serve_all-IsBook :
    (wire : Wiring) (calls : List (Call × Fate)) (st : Store)
    → IsBook st.book
    → IsBook (serve_all wire calls st).book
serve_all-IsBook wire calls st b =
    serve_all-Carries wire IsBook IsSound (IsBook-Carries wire.server) calls st b
