-- ===== src/Http/Reads.antt =====
-- internal/ledgerhttp: the four handlers that read (accounts, balance, trial, transaction), from a
-- request to the reply. `acquire` is the pool's ceiling in nanoseconds.
use pacioli.Prelude.{
  ℕ, ◌+◌, ◌&&◌, Option, none, some, List, [], ◌∷◌, String, str_eq, ltb, leb, length, take, map, ◌⊎◌,
  inl, inr, if◌then◌else◌,
}
use pacioli.Prelude.Int.{ℤ, pos, pos_part}
use pacioli.Failure.{Result, ok, err}
use pacioli.Schema.Server.{Server}
use pacioli.Ledger.Read.{Balance, AccountFilter, balances, balance_of, entry_of, contains}
use pacioli.Ledger.Trial.{Trial, balanced, trial_balance}
use pacioli.Http.Pool.{Store, Fate, read}
use pacioli.Http.Wire.{
  insert_name, Library, no_body, Body, Reply, reply, refusal_reply, TrialBody, AccountListBody,
  home, shown, glued, entry_body, balance_of_body,
}
use pacioli.Http.Refusals.{fail}

abbrev pub Query : Type 0
Query = List (String × String)

-- url.Values.Get
unfoldable pub get : Query → String → String
get [] name = ""
get ((n, v) ∷ q) name = if str_eq n name then v else get q name

abbrev default_page : ℕ
default_page = 100

abbrev pub max_page : ℕ
max_page = 1000

-- accountsQuery, as queryParameters lists it
abbrev query_parameters : List String
query_parameters = "after" ∷ "currency" ∷ "kind" ∷ "limit" ∷ []

abbrev bad_page : String → Reply
bad_page asked = refusal_reply 400 (record no_body {
  error = "that is not a page size this endpoint answers with";
  parameter = "limit";
  value = shown asked;
  expected = "a whole number from 1 to 1000";
  see = home;
})

-- `page < 1 || page > maxPage` turned round
abbrev is_page : Option ℤ → Option ℕ
is_page none = none
is_page (some n) =
    if leb 1 (pos_part n) && leb (pos_part n) max_page then some (pos_part n) else none

abbrev page_or : Reply → Option ℕ → (Reply ⊎ ℕ)
page_or r none = inl r
page_or r (some n) = inr n

-- pageSize: the page, or the reply that it wrote
unfoldable pub page_size : Library → Query → Reply ⊎ ℕ
page_size lib q =
    let asked = get q "limit" in
    if str_eq asked ""
    then inr default_page
    else page_or (bad_page asked) (is_page (lib.atoi asked))

abbrev set_unless_empty : String → String → Query → Query
set_unless_empty name value q = if str_eq value "" then q else (name, value) ∷ q

-- nextPage
unfoldable pub next_page : Library → AccountFilter → ℕ → String → String
next_page lib f page last = glued "/v1/accounts?" (
    lib.encode (
      set_unless_empty "currency" f.currency
        (set_unless_empty "kind" f.kind (("limit", lib.itoa (pos page)) ∷ ("after", last) ∷ []))))

-- unknown
unfoldable pub unknown : Library → Query → List String
unknown lib [] = []
unknown lib ((n, v) ∷ q) =
    let rest = unknown lib q in if contains query_parameters n then rest else insert_name lib n rest

unfoldable pub last_account : List Balance → String
last_account [] = ""
last_account (b ∷ []) = b.account
last_account (b ∷ c ∷ bs) = last_account (c ∷ bs)

-- The page of the rows that were read, one past it, and where the rest is.
unfoldable pub page_of : Library → AccountFilter → ℕ → List Balance → AccountListBody
page_of lib f page rows =
    if ltb page (length rows)
    then record {
      accounts = map balance_of_body (take page rows);
      next = next_page lib f page (last_account (take page rows));
    }
    else record { accounts = map balance_of_body rows; next = "" }

abbrev filter_of : Query → ℕ → AccountFilter
filter_of q page = record {
  currency = get q "currency";
  kind = get q "kind";
  after = get q "after";
  limit = pos (page + 1);
}

module _ (pg : Server) (lib : Library) (acquire : ℤ) (w : Fate) (st : Store) where
  abbrev pub listed : AccountFilter → ℕ → Result (List Balance) → Reply
  listed f page (ok rows) = reply 200 (Body.account_list (page_of lib f page rows))
  listed f page (err e) = fail lib e (record no_body { parameter = "kind"; value = shown f.kind })

  abbrev accounts_page : Query → Reply ⊎ ℕ → Reply
  accounts_page q (inl r) = r
  accounts_page q (inr page) =
      listed (filter_of q page) page (read acquire w (balances pg (filter_of q page)) st)

  abbrev unknown_parameter : String → Reply
  unknown_parameter name = refusal_reply 400 (record no_body {
    error = "no such query parameter";
    parameter = name;
    valid = query_parameters;
    see = home;
  })

  abbrev known_query : Query → List String → Reply
  known_query q (name ∷ names) = unknown_parameter name
  known_query q [] = accounts_page q (page_size lib q)

  abbrev with_query : String → Option Query → Reply
  with_query raw none = refusal_reply 400 (record no_body {
    error = "the query string could not be read";
    value = shown raw;
    see = home;
  })
  with_query raw (some q) = known_query q (unknown lib q)

  -- GET /v1/accounts, on the raw query
  unfoldable pub accounts : String → Reply
  accounts raw = with_query raw (lib.parse_query raw)

  -- GET /v1/accounts/{code}
  unfoldable pub balance : String → Reply
  balance code = elim (read acquire w (balance_of code) st) [
    | ok b ↦ reply 200 (Body.balance (balance_of_body b))
    | err e ↦ fail lib e (record no_body { code = shown code })
  ]

  abbrev pub trial_body : Trial → TrialBody
  trial_body t = record {
    currency = t.currency;
    debits_minor = t.debits_minor;
    credits_minor = t.credits_minor;
    net_minor = t.net_minor;
    balanced = balanced t;
    accounts = t.accounts;
    postings = t.postings;
  }

  -- GET /v1/trial-balance
  unfoldable pub trial : Reply
  trial = elim (read acquire w (trial_balance pg) st) [
    | ok rows ↦ reply 200 (Body.trial_list (map trial_body rows))
    | err e ↦ fail lib e no_body
  ]

  -- GET /v1/transactions/{id}
  unfoldable pub transaction : String → Reply
  transaction id = elim (read acquire w (entry_of pg id) st) [
    | ok found ↦ reply 200 (Body.entry (entry_body found.0 found.1))
    | err e ↦ fail lib e (record no_body { parameter = "id"; value = shown id })
  ]
