-- ===== src/Tests/Calls.antt =====
-- The theorems on requests and bodies, at concrete inputs.
use pacioli.Prelude.{
  arith, false, ◌≡◌, ◌⊎◌, ◌↔◌, refl, true, none, some, List, [], ◌∷◌, str_eq, if◌then◌else◌,
}
use pacioli.Prelude.Int.{pos, negsuc, is_negative}
use pacioli.Ledger.Trial.Zero.{IsLinked}
use pacioli.Schema.Server.{Uuid}
use pacioli.Http.Pool.{Store, Fate}
use pacioli.Http.Json.{Json, Shape, Vals, transaction_struct}
use pacioli.Http.Decode.{Decoder, Decoded, Sent, decode, most_read, leaf, under}
use pacioli.Ledger.Read.{contains}
use pacioli.Http.Decode.Exact.{IsBody, decode-IsBody}
use pacioli.Http.Decode.RoundTrip.{Printer, print, IsReadable, decode-print}
use pacioli.Http.Writes.{Request, Fingerprint}
use pacioli.Http.Serve.{Call, Wiring, handle, serve_all}
use pacioli.Http.Serve.Books.{IsBook, serve_all-IsBook}
use pacioli.Http.Serve.Trials.{IsEvenReply, trial_stays_even}
use pacioli.Tests.Sample.{deposit, ledger_open, sample, empty, hash_a, no_library, lost}
use pacioli.Tests.Witnesses.{shop, first_claim, IsClaim-first, IsQuiet-empty}
use pacioli.Failure.{ok}
use pacioli.Ledger.Entry.{Entry}
use pacioli.Ledger.Once.{once, reserve, reserved, record_result, release_once}
use pacioli.Http.Pool.{write, conn, finish, commit_tx, server_commit}
use pacioli.Http.Writes.{Outcome, write_entry}
use pacioli.Http.Pool.Outcome.{Unwritten}
use pacioli.Ledger.Book.{book_of}
use pacioli.Ledger.Book.Keyed.{Becomes}
use pacioli.Http.Writes.Becomes.{ReadsBack, Answered, write_entry-Becomes}
use pacioli.Http.Serve.Retry.{IsHeld, write-IsHeld, unbroken, replay_of, retry_posts_once}

abbrev printer : Printer
printer = record {
  int_text = λ n. if is_negative n then "-150" else "150";
  time_text = λ t. "0001-01-01T00:00:00Z";
}

-- A deposit of 150 into one account from another, with no time given.
abbrev sent_deposit : Vals transaction_struct
sent_deposit = (
  "GBP",
  (
    "Customer deposit",
    (("assets.cash", (pos 150, tt)) ∷ ("revenue.fees", (negsuc 149, tt)) ∷ [], (none, tt)),
  ),
)

abbrev deposit_json : Json
deposit_json = print printer (Shape.struct transaction_struct) sent_deposit

abbrev reader : Decoder
reader = record {
  split = λ n body. if str_eq body "deposit" then Sent.value deposit_json true else Sent.nothing;
  int64_of = λ lit.
      if str_eq lit "150"
      then some (pos 150)
      else if str_eq lit "-150"
      then some (negsuc 149)
      else none;
  time_of = λ t. if str_eq t "0001-01-01T00:00:00Z" then some none else none;
  quote = λ s. s;
}

IsReadable-deposit :
    IsReadable no_library reader printer (Shape.struct transaction_struct) sent_deposit ""
unfolding most_read leaf under contains
IsReadable-deposit = (
  (refl, (refl, (refl, (refl, tt)))),
  (
    tt,
    (
      tt,
      (
        (
          refl,
          (((refl, (refl, tt)), (tt, (refl, tt))), (((refl, (refl, tt)), (tt, (refl, tt))), tt)),
        ),
        (refl, tt),
      ),
    ),
  ),
)

decode-print_example :
    decode no_library reader transaction_struct 262144 "deposit" ≡ Decoded.filled sent_deposit
decode-print_example =
    decode-print no_library reader printer transaction_struct sent_deposit 262144 "deposit"
      IsReadable-deposit refl

decode-IsBody_example :
    ((v : Vals transaction_struct) × (decode no_library reader transaction_struct 262144 "deposit"
        ≡ Decoded.filled v))
    ↔ IsBody no_library reader transaction_struct 262144 "deposit"
decode-IsBody_example = decode-IsBody no_library reader transaction_struct 262144 "deposit"

abbrev fingerprint : Fingerprint
fingerprint = record {
  media_type = λ s. some s;
  marshal = λ req. some req.description;
  sha256 = λ s. hash_a;
  sha256_size = λ s. refl;
}

abbrev wiring : Wiring
wiring = record {
  server = sample;
  library = no_library;
  decoder = reader;
  fingerprint = fingerprint;
  acquire = pos 2;
}

abbrev deposit_request : Request
deposit_request = record {
  content_type = "application/json";
  idempotency_key = "deposit-2024-0001";
  body = "deposit";
}

abbrev opening : Store
opening = record { book = empty; drawn = 0 }

IsLinked-empty : IsLinked empty
IsLinked-empty = record {
  account_keys = tt;
  transaction_keys = tt;
  accounts = tt;
  transactions = tt;
}

IsBook-opening : IsBook opening.book
IsBook-opening = record { quiet = IsQuiet-empty; linked = IsLinked-empty }

abbrev calls : List (Call × Fate)
calls =
    (Call.open_account deposit_request, lost) ∷ (Call.post_transaction deposit_request, lost) ∷ []

serve_all-IsBook_example : IsBook (serve_all wiring calls opening).book
serve_all-IsBook_example = serve_all-IsBook wiring calls opening IsBook-opening

trial_stays_even_example :
    IsEvenReply (handle wiring Call.read_trial lost (serve_all wiring calls opening)).0.body
trial_stays_even_example = trial_stays_even wiring calls opening lost IsBook-opening

IsBook-shop : IsBook shop.book
unfolding ledger_open
IsBook-shop = record {
  quiet = record {
    covered = record { due = λ t m. absurd m; queued = λ t m. cc };
    queue = refl;
    modes = refl;
  };
  linked = record {
    account_keys = omega arith;
    transaction_keys = tt;
    accounts = tt;
    transactions = tt;
  };
}

abbrev first_outcome : Outcome
first_outcome =
    (record { key = first_claim.key; transaction = sample.uuid_text 12; replayed = false }, none)

first_write :
    (write (pos 2) (unbroken lost) (write_entry sample first_claim deposit) shop).0
    ≡ ok first_outcome
unfolding ledger_open once reserve reserved record_result release_once write conn finish commit_tx
    server_commit write_entry
first_write = refl

retry_posts_once_example :
    let st' =
      serve_all wiring calls
        (write (pos 2) (unbroken lost) (write_entry sample first_claim deposit) shop).1 in
    let (r, st'') = write (pos 2) (unbroken lost) (write_entry sample first_claim deposit) st' in
    ((t : Uuid) × (stored : Entry) × (first_outcome.0.transaction ≡ sample.uuid_text t)
      × ((book_of st'.book).entries t ≡ some stored)
      × (r ≡ ok (replay_of sample first_claim first_outcome.0.transaction, some stored)))
    × (st''.book ≡ st'.book)
retry_posts_once_example =
    retry_posts_once wiring first_claim deposit deposit (unbroken lost) lost shop first_outcome
      calls IsClaim-first IsBook-shop first_write refl

write-IsHeld_example :
    IsHeld sample first_claim first_outcome
      (write (pos 2) (unbroken lost) (write_entry sample first_claim deposit) shop).1.book
write-IsHeld_example =
    write-IsHeld sample first_claim (pos 2) (unbroken lost) deposit shop first_outcome first_write

write_entry-Becomes_example :
    let (r, st') = write (pos 2) (unbroken lost) (write_entry sample first_claim deposit) shop in
    Unwritten shop r st'
    ⊎ ((out : Outcome) × Becomes sample first_claim deposit
          (book_of shop.book)
          out.0
          (book_of st'.book)
        × ReadsBack sample (book_of st'.book) out
        × Answered sample first_claim deposit (unbroken lost) out r)
write_entry-Becomes_example =
    write_entry-Becomes sample (pos 2) (unbroken lost) first_claim deposit shop IsBook-shop.linked
