-- ===== src/Tests/Runs.antt =====
-- Runs of the definitions on concrete inputs.
use pacioli.Prelude.{◌≡◌, refl, none, some, List, [], ◌∷◌, length}
use pacioli.Prelude.Int.{pos, negsuc}
use pacioli.Schema.Tables.{Database, sum_legs}
use pacioli.Failure.{DriverError, ok}
use pacioli.Session.{usable}
use pacioli.Session.Script.{Command, run_script, begin, end_session}
use pacioli.Ledger.Post.{post_entry}
use pacioli.Tests.Sample.{sample, empty, chart, posted, script, deposit, session_open, ledger_open}

script-commits :
    length
      (end_session empty
        (run_script sample script (begin empty 0 none DriverError.other 5))).postings
    ≡ 2
unfolding session_open
script-commits = refl

posts-deposit :
    (post_entry sample deposit (usable chart [] 9 DriverError.other 5)).0 ≡ ok "iiiiiiiiii"
unfolding ledger_open
posts-deposit = refl

-- Two posted entries.
abbrev twice : Database
twice = record posted {
  transactions =
      record { id = 10; currency = "GBP"; description = "Again"; occurred_at = 8 }
      ∷ posted.transactions;
  postings =
      record { transaction_id = 10; account_id = 1; currency = "GBP"; amount_minor = pos 20 }
      ∷ record { transaction_id = 10; account_id = 2; currency = "GBP"; amount_minor = negsuc 19 }
      ∷ posted.postings;
}

-- An UPDATE of balance_checks turns a check away from the entry that is written to.
abbrev turned_away : List Command
turned_away =
    Command.queue_check 9
    ∷ Command.move_check 9 10
    ∷ Command.add_leg 10 (some 1) (some "GBP") (pos 5)
    ∷ []

-- Without the UPDATE the same leg is refused at COMMIT.
abbrev straight : List Command
straight = Command.queue_check 9 ∷ Command.add_leg 10 (some 1) (some "GBP") (pos 5) ∷ []

abbrev after : List Command → Database
after cs = end_session twice (run_script sample cs (begin twice 30 none DriverError.other 5))

commits-unbalanced : sum_legs 10 (after turned_away).postings ≡ pos 5
unfolding session_open
commits-unbalanced = refl

refuses-unbalanced : sum_legs 10 (after straight).postings ≡ pos 0
unfolding session_open
refuses-unbalanced = refl
