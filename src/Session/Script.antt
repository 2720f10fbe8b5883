-- ===== src/Session/Script.antt =====
-- Any session on the schema: a script of writes, savepoints, releases and rollbacks, as a psql
-- session or a migration may send it, and the COMMIT behind it. A refused statement does not end
-- the script.
use pacioli.Prelude.{
  ℕ, Bool, ◌≡◌, Option, List, [], ◌∷◌, String, All, refl, Bool-cases, inl, inr, if◌then◌else◌,
}
use pacioli.Prelude.Int.{ℤ}
use pacioli.Failure.{DriverError}
use pacioli.Schema.Server.{Server, Uuid}
use pacioli.Schema.Tables.{Database, Constraint, Answer, done, refused}
use pacioli.Schema.Triggers.{commit}
use pacioli.Schema.Statements.{
  insert_account, insert_transaction, insert_key, insert_posting, Mutation, mutate_book, settle_key,
  insert_check, delete_check, update_check, set_constraints,
}
use pacioli.Schema.Balance.Covered.{
  IsCovered, IsQuiet, AllBalanced, quiet-AllBalanced, commit-IsQuiet,
}
use pacioli.Schema.Balance.Writes.{
  insert_account-IsCovered, insert_transaction-IsCovered, insert_key-IsCovered,
  insert_posting-IsCovered, settle_key-IsCovered, mutate_book-IsCovered, insert_check-IsCovered,
  delete_check-IsCovered, set_constraints-IsCovered,
}
use pacioli.Session.{Session, Tx, write, savepoint, rollback_to, release}
use pacioli.Session.Keeps.{
  Throughout, Keeps, Keeps-write, Keeps-savepoint, Keeps-rollback_to, Keeps-release,
}

pub data Command : Type 0 where
  -- INSERT INTO accounts, transactions, postings and idempotency_keys
  open_account : String → String → String → String → Command
  open_entry : String → String → ℕ → Command
  add_leg : Uuid → Option Uuid → Option String → ℤ → Command
  reserve : String → List ℕ → Command
  -- UPDATE idempotency_keys, from no result to one
  record_result : String → Uuid → Command
  -- UPDATE, DELETE and TRUNCATE of what is append-only
  mutate : Mutation → Command
  -- INSERT INTO, DELETE FROM and UPDATE balance_checks
  queue_check : Uuid → Command
  drop_check : Uuid → Command
  move_check : Uuid → Uuid → Command
  -- SET CONSTRAINTS, to DEFERRED if the flag is set
  constraints : List Constraint → Bool → Command
  save : String → Command
  back_to : String → Command
  let_go_of : String → Command

module _ (pg : Server) where
  unfoldable pub run_command : Command → Tx (Unit {0})
  run_command (Command.open_account code name kind currency) =
      write λ u. insert_account pg u code name kind currency
  run_command (Command.open_entry currency description at) =
      write λ u. insert_transaction pg u currency description at
  run_command (Command.add_leg t a c amount) = write λ u. insert_posting t a c amount
  run_command (Command.reserve k hash) = write λ u. insert_key pg k hash
  run_command (Command.record_result k t) = write λ u. settle_key k t
  run_command (Command.mutate m) = write λ u. mutate_book m
  run_command (Command.queue_check t) = write λ u. insert_check t
  run_command (Command.drop_check t) = write λ u. delete_check t
  run_command (Command.move_check t t') = write λ u. update_check t t'
  run_command (Command.constraints cs deferred) = write λ u. set_constraints cs deferred
  run_command (Command.save n) = savepoint n
  run_command (Command.back_to n) = rollback_to n
  run_command (Command.let_go_of n) = release n

  unfoldable pub run_script : List Command → Session → Session
  run_script [] s = s
  run_script (c ∷ cs) s = run_script cs (run_command c s).1

-- COMMIT: a failed transaction is rolled back to the tables it began from, and so is one that a
-- deferred trigger refuses.
unfoldable pub end_session : Database → Session → Database
end_session before s =
    if s.failed then before else elim (commit s.live) [ done d ↦ d | refused e ↦ before ]

-- BEGIN.
abbrev pub begin : Database → ℕ → Option ℕ → DriverError → ℕ → Session
begin d drawn cut fault now = record {
  live = d;
  saved = [];
  failed = Bool.false;
  drawn = drawn;
  cut = cut;
  fault = fault;
  now = now;
}

-- The command does not rewrite a row of balance_checks.
abbrev pub LeavesChecks : Command → Type 0
LeavesChecks (Command.move_check t u) = ⊥
LeavesChecks _ = Unit

module _ (pg : Server) where
  run_command-Keeps :
      (c : Command) → LeavesChecks c → Keeps (Throughout IsCovered) (run_command pg c)
  unfolding run_command
  run_command-Keeps (Command.open_account code name kind currency) h =
      Keeps-write _ _ λ u d c. insert_account-IsCovered d c pg u code name kind currency
  run_command-Keeps (Command.open_entry currency description at) h =
      Keeps-write _ _ λ u d c. insert_transaction-IsCovered d c pg u currency description at
  run_command-Keeps (Command.add_leg t a cur amount) h =
      Keeps-write _ _ λ u d c. insert_posting-IsCovered d c t a cur amount
  run_command-Keeps (Command.reserve k hash) h =
      Keeps-write _ _ λ u d c. insert_key-IsCovered d c pg k hash
  run_command-Keeps (Command.record_result k t) h =
      Keeps-write _ _ λ u d c. settle_key-IsCovered d c k t
  run_command-Keeps (Command.mutate m) h = Keeps-write _ _ λ u d c. mutate_book-IsCovered d c m
  run_command-Keeps (Command.queue_check t) h =
      Keeps-write _ _ λ u d c. insert_check-IsCovered d c t
  run_command-Keeps (Command.drop_check t) h = Keeps-write _ _ λ u d c. delete_check-IsCovered d c t
  run_command-Keeps (Command.move_check t u) h = absurd h
  run_command-Keeps (Command.constraints cs deferred) h =
      Keeps-write _ _ λ u d c. set_constraints-IsCovered d c cs deferred
  run_command-Keeps (Command.save n) h = Keeps-savepoint IsCovered n
  run_command-Keeps (Command.back_to n) h = Keeps-rollback_to IsCovered n
  run_command-Keeps (Command.let_go_of n) h = Keeps-release IsCovered n

  run_script-IsCovered :
      (cs : List Command) (s : Session)
      → All LeavesChecks cs
      → Throughout IsCovered s
      → Throughout IsCovered (run_script pg cs s)
  unfolding run_script
  run_script-IsCovered [] s h t = t
  run_script-IsCovered (c ∷ cs) s (h, hs) t =
      run_script-IsCovered cs (run_command pg c s).1 hs ((run_command-Keeps c h).at s t)

end_session-IsQuiet :
    (before : Database) (s : Session)
    → IsQuiet before
    → IsCovered s.live
    → IsQuiet (end_session before s)
unfolding end_session
end_session-IsQuiet before s q c = elim (Bool-cases s.failed) [
  | inl f ↦ simp f q
  | inr f ↦ simp f (committed (commit s.live) refl)
]
  where
    committed :
        (a : Answer Database)
        → commit s.live ≡ a
        → IsQuiet (elim a [ done d ↦ d | refused e ↦ before ])
    committed (done d) e = (commit-IsQuiet s.live c).at d e
    committed (refused e') e = q

-- From tables in which every entry balances and nothing is queued, no run of the statements that
-- Command lists, in whatever order and with whatever arguments, leaves behind an entry that does not
-- balance, as long as none of them is the UPDATE of balance_checks: single-row INSERTs of the four
-- tables, the UPDATE that records a key's result, the mutations that the append-only triggers answer,
-- INSERTs into balance_checks and DELETEs from it, SET CONSTRAINTS, and savepoints. Wherever the
-- connection is cut, the tables after COMMIT hold only entries that balance, with no check queued.
pub script_balances :
    (pg : Server) (before : Database) (script : List Command) (drawn : ℕ) (cut : Option ℕ)
    (fault : DriverError) (now : ℕ)
    → IsQuiet before
    → All LeavesChecks script
    → let after = end_session before (run_script pg script (begin before drawn cut fault now)) in
      AllBalanced after × (after.queue ≡ [])
script_balances pg before script drawn cut fault now q h =
    let s = begin before drawn cut fault now in
    let t = run_script-IsCovered pg script s h (record { live = q.covered; saved = tt }) in
    let after = end_session-IsQuiet before (run_script pg script s) q t.live in
    (quiet-AllBalanced _ after.covered after.queue, after.queue)
