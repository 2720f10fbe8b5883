-- ===== src/Http/Serve/Carried.antt =====
-- What a run of calls carries along: a property of the book that every statement keeps inside a
-- transaction, and that COMMIT gives back.
use pacioli.Prelude.{
  subst⁻¹, inl, inr, Bool, true, false, Option, none, some, List, [], ◌∷◌, String, if◌then◌else◌,
  ltb, str_eq, length,
}
use pacioli.Prelude.Int.{ℤ}
use pacioli.Schema.Server.{Server}
use pacioli.Schema.Tables.{Database}
use pacioli.Schema.Balance.Firing.{Yields}
use pacioli.Schema.Triggers.{commit}
use pacioli.Session.{Tx}
use pacioli.Session.Keeps.{Keeps, Throughout, Keeps-bind, Keeps-pure}
use pacioli.Session.Script.{begin}
use pacioli.Ledger.Stable.{
  IsKept, post_entry-Keeps, once-Keeps, open_account-Keeps, balance_of-Keeps, entry_of-Keeps,
}
use pacioli.Ledger.Once.{Claim, Record}
use pacioli.Ledger.Entry.{Entry}
use pacioli.Ledger.Open.{Account}
use pacioli.Http.Pool.{Store, Fate, write}
use pacioli.Http.Pool.Outcome.{write_all_or_nothing}
use pacioli.Http.Wire.{Reply}
use pacioli.Http.Decode.{Decoded, decode}
use pacioli.Http.Json.{Vals, transaction_struct, account_struct}
use pacioli.Http.Refusals.{TransactionRequest}
use pacioli.Http.Writes.{Request, Fingerprint}
use pacioli.Http.Writes
use pacioli.Http.Serve.{Call, Wiring, handle, serve_all}

-- What holds of the tables between calls, and inside the transaction of one.
pub record Carries (pg : Server) (P Q : Database → Type 0) : Type 0 where
  pub begins : (d : Database) → P d → Q d
  pub kept : IsKept pg Q
  pub commits : (d : Database) → Q d → Yields P (commit d)

module _ (pg : Server) (P Q : Database → Type 0) (k : Carries pg P Q) where
  -- One call of Pool.Write.
  pub write-Carries :
      {A : Type 0} (acquire : ℤ) (w : Fate) (f : Tx A) (st : Store)
      → Keeps (Throughout Q) f
      → P st.book
      → P (write acquire w f st).1.book
  write-Carries acquire w f st q p =
      let start = begin st.book st.drawn w.cut w.fault w.now in
      let live = (q.at start (record { live = k.begins _ p; saved = tt })).live in
      elim (write_all_or_nothing acquire w f st) [
        | inl (x, same) ↦ subst⁻¹ P same p
        | inr (a, x, y, c, z) ↦ (k.commits _ live).at _ c
      ]

  read_back-Keeps : (rec : Record) (b : Bool) → Keeps (Throughout Q) (Writes.read_back pg rec b)
  read_back-Keeps rec false = Keeps-pure _
  read_back-Keeps rec true =
      Keeps-bind _ _ (entry_of-Keeps pg Q k.kept rec.transaction) λ f. Keeps-pure _

  pub write_entry-Keeps : (c : Claim) (e : Entry) → Keeps (Throughout Q) (Writes.write_entry pg c e)
  unfolding Writes.write_entry
  write_entry-Keeps c e =
      Keeps-bind _ _ (once-Keeps pg Q k.kept _ (post_entry-Keeps pg Q k.kept e) c)
        λ rec. read_back-Keeps rec rec.replayed

  write_account-Keeps : (a : Account) → Keeps (Throughout Q) (Writes.write_account pg a)
  unfolding Writes.write_account
  write_account-Keeps a =
      Keeps-bind _ _ (open_account-Keeps pg Q k.kept a) λ u. balance_of-Keeps pg Q k.kept a.code

module _ (wire : Wiring) (P Q : Database → Type 0) (k : Carries wire.server P Q) (w : Fate)
    (st : Store) (b : P st.book) where
  open wire use {server, library, decoder, fingerprint, acquire}

  if-Carries :
      (t : Bool) (p q : Reply × Store) → P p.1.book → P q.1.book → P (if t then p else q).1.book
  if-Carries true p q hp hq = hp
  if-Carries false p q hp hq = hq

  claimed-Carries :
      (req : TransactionRequest) (key : String) (o : Option Claim)
      → P (Writes.post_claimed server library decoder fingerprint acquire w st req key o).1.book
  claimed-Carries req key none = b
  claimed-Carries req key (some claim) =
      write-Carries server P Q k acquire w _ st (write_entry-Keeps server P Q k claim _) b

  posted-Carries :
      (key : String) (x : Decoded (Vals transaction_struct))
      → P (Writes.post_decoded server library decoder fingerprint acquire w st key x).1.book
  posted-Carries key (Decoded.answered r) = b
  posted-Carries key (Decoded.filled v) =
      let req = Writes.transaction_request v in
      if-Carries (ltb Writes.max_postings (length req.postings)) _ _ b
        (claimed-Carries req key (Writes.claim_of fingerprint key req))

  opened-Carries :
      (x : Decoded (Vals account_struct))
      → P (Writes.open_decoded server library decoder fingerprint acquire w st x).1.book
  opened-Carries (Decoded.answered r) = b
  opened-Carries (Decoded.filled v) =
      write-Carries server P Q k acquire w _ st
        (write_account-Keeps server P Q k (Writes.account_request v)) b

  handle-Carries : (c : Call) → P (handle wire c w st).1.book
  unfolding handle Writes.post_transaction Writes.open_account_handler
  handle-Carries (Call.list_accounts raw) = b
  handle-Carries (Call.open_account r) =
      if-Carries (Writes.declared_json fingerprint r) _ _
        (opened-Carries (decode library decoder account_struct Writes.max_account_body r.body)) b
  handle-Carries (Call.read_balance code) = b
  handle-Carries Call.read_trial = b
  handle-Carries (Call.post_transaction r) =
      if-Carries (Writes.declared_json fingerprint r) _ _
        (if-Carries (str_eq r.idempotency_key "") _ _ b (
          posted-Carries r.idempotency_key
            (decode library decoder transaction_struct Writes.max_transaction_body r.body)))
        b
  handle-Carries (Call.read_transaction id) = b

pub serve_all-Carries :
    (wire : Wiring) (P Q : Database → Type 0) (k : Carries wire.server P Q)
    (calls : List (Call × Fate)) (st : Store)
    → P st.book
    → P (serve_all wire calls st).book
unfolding serve_all
serve_all-Carries wire P Q k [] st b = b
serve_all-Carries wire P Q k ((c, w) ∷ calls) st b =
    serve_all-Carries wire P Q k calls (handle wire c w st).1 (handle-Carries wire P Q k w st b c)
