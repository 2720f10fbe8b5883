-- ===== src/Http/Serve/Trials.antt =====
-- What GET /v1/trial-balance answers behind any run of calls.
use pacioli.Prelude.{
  ℕ, ◌≡◌, refl, sym, subst, ◌⊎◌, inl, inr, Bool, true, false, Option, none, some, List, [], ◌∷◌,
  All, map, zero, suc, if◌then◌else◌,
}
use pacioli.Prelude.Int.{ℤ}
use pacioli.Failure.{Failure, DriverError, Sentinel, Result, ok, err, is}
use pacioli.Schema.Server.{Server}
use pacioli.Schema.Tables.{Database}
use pacioli.Schema.Balance.Covered.{quiet-AllBalanced}
use pacioli.Session.{query, exec, sent}
use pacioli.Session.Script.{begin}
use pacioli.Ledger.Trial.{Trial, list_trials, trial_balance}
use pacioli.Ledger.Trial.Zero.{Cancels, trial_balance-Cancels}
use pacioli.Http.Pool.{Store, Fate, read, conn, read_begun, run_read}
use pacioli.Http.Wire.{Library, Reply, reply, Body, TrialBody, ErrorBody, no_body, home}
use pacioli.Http.Refusals.{fail, failed, not_reached, busy, gave_up, cancelled, as_overload}
use pacioli.Http.Reads
use pacioli.Http.Serve.{Call, Wiring, handle, serve_all}
use pacioli.Http.Serve.Books.{IsBook, serve_all-IsBook}

-- A row of the answer whose sides are equal, and which says so.
abbrev pub IsEven : TrialBody → Type 0
IsEven t = (t.debits_minor ≡ t.credits_minor) × (t.balanced ≡ true)

-- A refusal, or rows that are even.
abbrev pub IsEvenReply : Body → Type 0
IsEvenReply (Body.trial_list rows) = All IsEven rows
IsEvenReply (Body.refusal e) = Unit
IsEvenReply _ = ⊥

even-if :
    (t : Bool) (p q : Reply)
    → IsEvenReply p.body
    → IsEvenReply q.body
    → IsEvenReply (if t then p else q).body
even-if true p q hp hq = hp
even-if false p q hp hq = hq

even-wait :
    (lib : Library) (o : Option ℕ) (b : Bool) (r : Reply)
    → IsEvenReply r.body
    → IsEvenReply
        (elim (elim o as (λ x. Option Reply) [
          | some c ↦ some (busy lib c)
          | none ↦ if b then some gave_up else none
        ])
          as (λ x. Reply) [ none ↦ r | some given ↦ given ]).body
unfolding busy
even-wait lib (some c) b r h = tt
even-wait lib none true r h = tt
even-wait lib none false r h = h

fail-IsEvenReply :
    (lib : Library) (e : Failure) (named : ErrorBody) → IsEvenReply (fail lib e named).body
unfolding fail not_reached
fail-IsEvenReply lib e named =
    even-wait lib (as_overload e) (cancelled e) (failed e (record named { see = home })) (
      even-if (is Sentinel.unknown_account e) _ _ tt (
        even-if (is Sentinel.unknown_kind e) _ _ tt (
          even-if (is Sentinel.bad_transaction_id e) _ _ tt
            (even-if (is Sentinel.unknown_transaction e) _ _ tt tt))))

-- The error of a read, or what it read.
abbrev IsRead : {A : Type 0} → A → Result A → Type 0
IsRead a r = ((e : Failure) × (r ≡ err e)) ⊎ (r ≡ ok a)

begun-IsRead :
    (pg : Server) (d : Database) (n : ℕ) (cut : Option ℕ) (fault : DriverError) (now : ℕ)
    → IsRead (list_trials pg d) (trial_balance pg (begin d n cut fault now)).0
unfolding trial_balance query exec sent
begun-IsRead pg d n none fault now = inr refl
begun-IsRead pg d n (some zero) fault now = inl (_, refl)
begun-IsRead pg d n (some (suc k)) fault now = inr refl

read-IsRead :
    (pg : Server) (acquire : ℤ) (w : Fate) (st : Store)
    → IsRead (list_trials pg st.book) (read acquire w (trial_balance pg) st)
unfolding read
read-IsRead pg acquire w st = connected (conn acquire w)
  where
    started :
        (o : Option DriverError)
        → IsRead (list_trials pg st.book) (read_begun w (trial_balance pg) st o)
    started none = begun-IsRead pg st.book st.drawn w.cut w.fault w.now
    started (some e) = inl (_, refl)

    connected :
        (c : Result (Unit {0}))
        → IsRead (list_trials pg st.book) (run_read w (trial_balance pg) st c)
    connected (ok u) = started w.begin_fails
    connected (err e) = inl (_, refl)

ok-injective : {A : Type 0} {a b : A} → ok a ≡ ok b → a ≡ b
ok-injective h = cc

module _ (pg : Server) (lib : Library) (acquire : ℤ) (w : Fate) (st : Store) where
  rows-IsEven :
      (ts : List Trial)
      → All Cancels ts
      → All IsEven (map (Reads.trial_body pg lib acquire w st) ts)
  rows-IsEven [] h = tt
  rows-IsEven (t ∷ ts) (h, hs) = ((h.1, h.0), rows-IsEven ts hs)

  trial-IsEvenReply : IsBook st.book → IsEvenReply (Reads.trial pg lib acquire w st).body
  unfolding Reads.trial
  trial-IsEvenReply b =
      answered (read acquire w (trial_balance pg) st) (read-IsRead pg acquire w st)
    where
      even : All Cancels (list_trials pg st.book)
      even =
          trial_balance-Cancels pg st.book (quiet-AllBalanced _ b.quiet.covered b.quiet.queue)
            b.linked

      answered :
          (r : Result (List Trial))
          → IsRead (list_trials pg st.book) r
          → IsEvenReply
              (elim r as (λ x. Reply) [
                | ok rows ↦
                    reply 200 (Body.trial_list (map (Reads.trial_body pg lib acquire w st) rows))
                | err e ↦ fail lib e no_body
              ]).body
      answered (err e) h = fail-IsEvenReply lib e no_body
      answered (ok rows) (inl (e, h)) = cc
      answered (ok rows) (inr h) =
          rows-IsEven rows (subst (All Cancels) (sym (ok-injective h)) even)

-- After any run of calls on a sound book, GET /v1/trial-balance answers a refusal, or rows whose
-- debits equal their credits and which say that they balance.
pub trial_stays_even :
    (wire : Wiring) (calls : List (Call × Fate)) (st : Store) (w : Fate)
    → IsBook st.book
    → IsEvenReply (handle wire Call.read_trial w (serve_all wire calls st)).0.body
unfolding handle
trial_stays_even wire calls st w b =
    trial-IsEvenReply wire.server wire.library wire.acquire w (serve_all wire calls st)
      (serve_all-IsBook wire calls st b)
