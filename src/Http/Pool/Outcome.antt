-- ===== src/Http/Pool/Outcome.antt =====
-- What a call of Pool.Write can come to.
use pacioli.Prelude.{
  ◌≡◌, refl, ◌⊎◌, inl, inr, Bool, true, false, Option, none, some, Bool-cases, ap, subst⁻¹,
}
use pacioli.Prelude.Int.{ℤ}
use pacioli.Failure.{Failure, DriverError, Result, ok, err}
use pacioli.Schema.Tables.{Database, Answer, done, refused}
use pacioli.Schema.Triggers.{commit}
use pacioli.Schema.Balance.Covered.{IsCovered, IsQuiet, commit-IsQuiet}
use pacioli.Session.{Session, Tx}
use pacioli.Session.Keeps.{Keeps, Throughout}
use pacioli.Session.Script.{begin}
use pacioli.Http.Pool.{
  Store, Fate, is_cut, answer_of, settled_commit, conn, server_commit, lost_commit, commit_tx,
  finish, after_commit, run_connected, run_write, write,
}

module _ {A : Type 0} where
  -- An error, and the book as it was.
  abbrev pub Unwritten : Store → Result A → Store → Type 0
  Unwritten st r st' = ((e : Failure) × (r ≡ err e)) × (st'.book ≡ st.book)

  -- The body succeeded and its COMMIT was taken: the caller is told so, or the answer was lost.
  abbrev pub Written : Fate → Result A → Session → Result A → Store → Type 0
  Written w r s r' st' =
      (a : A) × (r ≡ ok a)
      × (s.failed ≡ false)
      × (commit s.live ≡ done st'.book)
      × ((r' ≡ ok a)
          ⊎ ((e : DriverError) × (w.commit_lost ≡ some e)
              × (w.committed ≡ true)
              × (r' ≡ err (Failure.wrap "commit the write" (Failure.driver e)))))

  Served : Store → A → Session → Result (Unit {0}) × Database → Type 0
  Served st a s (r, d) =
      (((e : Failure) × (r ≡ err e)) × (d ≡ st.book))
      ⊎ ((r ≡ ok tt) × (s.failed ≡ false) × (commit s.live ≡ done d))

  answered :
      (st : Store) (a : A) (s : Session)
      → s.failed ≡ false
      → (c : Answer Database) → commit s.live ≡ c
      → Served st a s (answer_of st.book c)
  unfolding Served
  answered st a s f (done d) e = inr (refl, f, e)
  answered st a s f (refused p) e = inl ((Failure.server p, refl), refl)

  served : (st : Store) (a : A) (s : Session) → Served st a s (server_commit st.book s)
  unfolding server_commit
  served st a s = elim (Bool-cases s.failed) [
    | inl f ↦ simp f (unfold Served in inl ((_, refl), refl))
    | inr f ↦ simp f (answered st a s f (commit s.live) refl)
  ]

  Ended : Fate → Store → A → Session → Result (Unit {0}) × Database → Type 0
  Ended w st a s (r, d) =
      Unwritten st (after_commit a r) (record { book = d; drawn = s.drawn })
      ⊎ Written w (ok a) s (after_commit a r) (record { book = d; drawn = s.drawn })

  served-Ended :
      (w : Fate) (st : Store) (a : A) (s : Session) (p : Result (Unit {0}) × Database)
      → Served st a s p
      → Ended w st a s p
  unfolding Served Ended
  served-Ended w st a s (r, d) (inl ((e, p), q)) = inl ((_, ap (after_commit a) p), q)
  served-Ended w st a s (r, d) (inr (p, f, c)) = inr (a, refl, f, c, inl (ap (after_commit a) p))

  lost-Ended :
      (w : Fate) (st : Store) (a : A) (s : Session) (e : DriverError)
      (p : Result (Unit {0}) × Database)
      → w.commit_lost ≡ some e
      → Served st a s p
      → (b : Bool) → w.committed ≡ b
      → Ended w st a s (lost_commit b e st.book p.1)
  unfolding Served Ended
  lost-Ended w st a s e (r, d) l h false b = inl ((_, refl), refl)
  lost-Ended w st a s e (r, d) l (inl (x, q)) true b = inl ((_, refl), q)
  lost-Ended w st a s e (r, d) l (inr (p, f, c)) true b = inr (a, refl, f, c, inr (e, l, b, refl))

  committed : (w : Fate) (st : Store) (a : A) (s : Session) → Ended w st a s (commit_tx w st.book s)
  unfolding commit_tx
  committed w st a s = elim (Bool-cases (is_cut s.cut)) [
    | inl gone ↦ simp gone (unfold Ended in inl ((_, refl), refl))
    | inr there ↦ simp there (answer_lost w.commit_lost refl)
  ]
    where
      answer_lost :
          (o : Option DriverError)
          → w.commit_lost ≡ o
          → Ended w st a s (settled_commit w st.book s o)
      answer_lost none e = served-Ended w st a s _ (served st a s)
      answer_lost (some e) l = lost-Ended w st a s e _ l (served st a s) w.committed refl

  finished :
      (w : Fate) (st : Store) (r : Result A) (s : Session)
      → let (r', st') = finish w st r s in Unwritten st r' st' ⊎ Written w r s r' st'
  unfolding finish Ended
  finished w st (err e) s = inl ((_, refl), refl)
  finished w st (ok a) s = committed w st a s

  -- Pool.Write is all or nothing, at whatever point the connection is lost: either the caller has an
  -- error and the book is as it was, or the body succeeded and the book is what COMMIT made of its
  -- tables. In the second case the caller has the body's value, unless COMMIT was taken and its
  -- answer was lost on the way back.
  pub write_all_or_nothing :
      (acquire : ℤ) (w : Fate) (f : Tx A) (st : Store)
      → let (r, s) = f (begin st.book st.drawn w.cut w.fault w.now) in
        let (r', st') = write acquire w f st in Unwritten st r' st' ⊎ Written w r s r' st'
  unfolding write
  write_all_or_nothing acquire w f st = connected (conn acquire w)
    where
      begun :
          (o : Option DriverError)
          → let (r, s) = f (begin st.book st.drawn w.cut w.fault w.now) in
            let (r', st') = run_connected w f st o in Unwritten st r' st' ⊎ Written w r s r' st'
      begun none = let (r, s) = f (begin st.book st.drawn w.cut w.fault w.now) in finished w st r s
      begun (some e) = inl ((_, refl), refl)

      connected :
          (c : Result (Unit {0}))
          → let (r, s) = f (begin st.book st.drawn w.cut w.fault w.now) in
            let (r', st') = run_write w f st c in Unwritten st r' st' ⊎ Written w r s r' st'
      connected (ok u) = begun w.begin_fails
      connected (err e) = inl ((_, refl), refl)

  -- A body that keeps the balance invariant leaves a book in which every entry balances.
  pub write-IsQuiet :
      (acquire : ℤ) (w : Fate) (f : Tx A) (st : Store)
      → Keeps (Throughout IsCovered) f
      → IsQuiet st.book
      → IsQuiet (write acquire w f st).1.book
  write-IsQuiet acquire w f st k q =
      let start = begin st.book st.drawn w.cut w.fault w.now in
      let live = (k.at start (record { live = q.covered; saved = tt })).live in
      elim (write_all_or_nothing acquire w f st) [
        | inl (x, same) ↦ subst⁻¹ IsQuiet same q
        | inr (a, x, y, c, z) ↦ (commit-IsQuiet _ live).at _ c
      ]
