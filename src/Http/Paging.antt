-- ===== src/Http/Paging.antt =====
-- A page of GET /v1/accounts against the list that it is cut from.
use pacioli.Prelude.{
  ℕ, zero, suc, ◌+◌, ◌≡◌, refl, ap, sym, subst, ◌∙◌, Bool, true, false, List, [], ◌∷◌, String, ltb,
  ◌==◌, length, take, map, keep, arith, if◌then◌else◌, str_eq, ◌++◌, ◌⊎◌, inl, inr, Option, none,
  some, Bool-cases,
}
use pacioli.Prelude.Int.{ℤ, pos}
use pacioli.Failure.{Failure, DriverError, Result, ok, err}
use pacioli.Schema.Balance.Firing.{done-injective}
use pacioli.Session.{Tx, pure, raise}
use pacioli.Session.Script.{begin}
use pacioli.Session.Ensures.{
  Ensures, IfOk, Ensures-bind, Ensures-pure, Ensures-raise, Ensures-or_error, Ensures-query,
}
use pacioli.Http.Pool.{Store, Fate, conn, read, read_begun, run_read}
use pacioli.Http.Refusals.{fail}
use pacioli.Schema.Server.{Server}
use pacioli.Schema.Tables.{Database}
use pacioli.Ledger.Read.{
  contains, check_kind, read_kinds, balances, Balance, AccountFilter, list_balances, limited,
  matches, sorted, balance_row,
}
use pacioli.Http.Wire.{
  Library, AccountListBody, balance_of_body, Body, reply, no_body, shown, glued,
}
use pacioli.Http.Reads.{
  Query, get, unknown, page_size, accounts, listed, page_of, next_page, last_account,
}

take-take : {A : Type 0} (n : ℕ) (xs : List A) → take n (take (suc n) xs) ≡ take n xs
take-take zero xs = refl
take-take (suc n) [] = refl
take-take (suc n) (x ∷ xs) = ap (λ ys. x ∷ ys) (take-take n xs)

ltb-suc : (a b : ℕ) → ltb (suc a) (suc b) ≡ ltb a b
ltb-suc a b = ground arith

more_than :
    {A : Type 0} (n : ℕ) (xs : List A) → ltb n (length (take (suc n) xs)) ≡ ltb n (length xs)
more_than zero [] = refl
more_than zero (x ∷ xs) = ground arith
more_than (suc n) [] = refl
more_than (suc n) (x ∷ xs) = ltb-suc n _ ∙ more_than n xs ∙ sym (ltb-suc n _)

take-short : {A : Type 0} (n : ℕ) (xs : List A) → ltb n (length xs) ≡ false → take (suc n) xs ≡ xs
take-short n [] h = refl
take-short zero (x ∷ []) h = refl
take-short zero (x ∷ y ∷ xs) h = ground arith
take-short (suc n) (x ∷ xs) h = ap (λ ys. x ∷ ys) (take-short n xs (sym (ltb-suc n _) ∙ h))

take-all : {A : Type 0} (n : ℕ) (xs : List A) → ltb n (length xs) ≡ false → take n xs ≡ xs
take-all zero [] h = refl
take-all zero (x ∷ xs) h = ground arith
take-all (suc n) [] h = refl
take-all (suc n) (x ∷ xs) h = ap (λ ys. x ∷ ys) (take-all n xs (sym (ltb-suc n _) ∙ h))

same_rows : (bs : List Balance) → map balance_of_body bs ≡ bs
unfolding balance_of_body
same_rows [] = refl
same_rows (b ∷ bs) = ap (λ cs. b ∷ cs) (same_rows bs)

-- The list without a page.
abbrev pub unpaged : AccountFilter → AccountFilter
unpaged f = record f { limit = pos 0 }

abbrev pub asked : AccountFilter → ℕ → AccountFilter
asked f page = record f { limit = pos (page + 1) }

abbrev IsPage : List Balance → ℕ → AccountListBody → String → Type 0
IsPage whole page body next =
    (body.accounts ≡ take page whole) × (body.next ≡ (if ltb page (length whole) then next else ""))

cut-IsPage :
    (lib : Library) (f : AccountFilter) (page : ℕ) (whole : List Balance) (more : Bool)
    → ltb page (length whole) ≡ more
    → IsPage whole page
        (page_of lib f page (take (suc page) whole))
        (next_page lib f page (last_account (take page whole)))
unfolding page_of
cut-IsPage lib f page whole true h =
    rw (more_than page whole, h)
      (rw (same_rows (take page (take (suc page) whole)), take-take page whole) (refl, refl))
cut-IsPage lib f page whole false h =
    rw (more_than page whole, h)
      (
        same_rows (take (suc page) whole) ∙ take-short page whole h ∙ sym (take-all page whole h),
        refl,
      )

suc_not_zero : (n : ℕ) → (suc n == 0) ≡ false
suc_not_zero n = ground arith

limited-suc :
    (pg : Server) (page : ℕ) (rows : List Balance)
    → limited pg (pos (page + 1)) rows ≡ take (suc page) rows
unfolding limited
limited-suc pg page rows =
    subst (λ n. limited pg (pos n) rows ≡ take (suc page) rows) {x = suc page} (omega arith)
      (rw (suc_not_zero page) refl)

page_of-IsPage :
    (pg : Server) (lib : Library) (f : AccountFilter) (page : ℕ) (d : Database)
    → let whole = list_balances pg (unpaged f) d in
      IsPage whole page
        (page_of lib f page (list_balances pg (asked f page) d))
        (next_page lib f page (last_account (take page whole)))
unfolding list_balances limited matches
page_of-IsPage pg lib f page d =
    subst
      (λ rows.
        IsPage (list_balances pg (unpaged f) d) page (page_of lib f page rows)
          (next_page lib f page (last_account (take page (list_balances pg (unpaged f) d)))))
      (sym (limited-suc pg page (keep (matches pg f) (sorted pg (map (balance_row d) d.accounts)))))
      (cut-IsPage lib f page _ _ refl)

module _ (lib : Library) (q : Query) where
  abbrev given : String → List (String × String)
  given name = if str_eq (get q name) "" then [] else (name, get q name) ∷ []

  -- What the page after an account is asked for with: the same filters, the same size, and the account.
  abbrev pub rest_of : ℕ → String → String
  rest_of page last = glued "/v1/accounts?" (
      lib.encode
        (given "currency" ++ given "kind" ++ ("limit", lib.itoa (pos page)) ∷ ("after", last) ∷ []))

  -- What the query asks for, with no page.
  abbrev pub wanted : AccountFilter
  wanted = record {
    currency = get q "currency";
    kind = get q "kind";
    after = get q "after";
    limit = pos 0;
  }

  next_page-rest_of :
      (page : ℕ) (last : String) → next_page lib (asked wanted page) page last ≡ rest_of page last
  unfolding next_page
  next_page-rest_of page last = elim (Bool-cases (str_eq (get q "currency") "")) [
    | inl c ↦ elim (Bool-cases (str_eq (get q "kind") "")) [
      | inl k ↦ rw (c, k) refl
      | inr k ↦ rw (c, k) refl
    ]
    | inr c ↦ elim (Bool-cases (str_eq (get q "kind") "")) [
      | inl k ↦ rw (c, k) refl
      | inr k ↦ rw (c, k) refl
    ]
  ]

  abbrev pub page_body : ℕ → List Balance → AccountListBody
  page_body page whole = record {
    accounts = take page whole;
    next = if ltb page (length whole) then rest_of page (last_account (take page whole)) else "";
  }

  page_of-page_body :
      (pg : Server) (page : ℕ) (d : Database)
      → page_of lib (asked wanted page) page (list_balances pg (asked wanted page) d)
        ≡ page_body page (list_balances pg wanted d)
  page_of-page_body pg page d =
      let whole = list_balances pg wanted d in
      let (rows, next) = page_of-IsPage pg lib (asked wanted page) page d in
      λ i. record {
        accounts = rows i;
        next =
            (next
                ∙ ap (λ u. if ltb page (length whole) then u else "")
                    (next_page-rest_of page (last_account (take page whole))))
              i;
      }

module _ (before : Database) where
  check_kind-Ensures :
      (kind : String) → Ensures (λ d. d ≡ before) (check_kind kind) (λ u d. d ≡ before)
  unfolding check_kind read_kinds
  check_kind-Ensures kind = elim (Bool-cases (str_eq kind "")) [
    | inl e ↦ rw e (Ensures-pure _ λ d p. p)
    | inr e ↦ rw e (
        Ensures-bind (λ ks d. d ≡ before) _ _ (Ensures-or_error _ _ (Ensures-query _ λ d p ks h. p))
          λ ks. known ks (contains ks kind))
  ]
    where
      known :
          (ks : List String) (b : Bool)
          → Ensures
              (λ d. d ≡ before)
              (if b then pure tt else raise (Failure.bad_kind kind ks))
              (λ (u : Unit {0}) d. d ≡ before)
      known ks true = Ensures-pure _ λ d p. p
      known ks false = Ensures-raise _

  balances-listed :
      (pg : Server) (f : AccountFilter)
      → Ensures (λ d. d ≡ before) (balances pg f) (λ rows d. rows ≡ list_balances pg f before)
  unfolding balances
  balances-listed pg f =
      Ensures-bind (λ u d. d ≡ before) _ _ (check_kind-Ensures f.kind)
        λ u.
          Ensures-or_error _ _
            (Ensures-query _ λ d p rows h. sym (done-injective h) ∙ ap (list_balances pg f) p)

-- What a read comes to: an error, or rows that its body has made so.
abbrev ReadAs : {A : Type 0} → (A → Type 0) → Result A → Type 0
ReadAs R (ok a) = R a
ReadAs R (err e) = Unit

read-ReadAs :
    {A : Type 0} (R : A → Type 0) (acquire : ℤ) (w : Fate) (m : Tx A) (st : Store)
    → Ensures (λ d. d ≡ st.book) m (λ a d. R a)
    → ReadAs R (read acquire w m st)
unfolding read
read-ReadAs {A} R acquire w m st k = connected (conn acquire w)
  where
    kept : (r : Result A) (d : Database) → IfOk (λ a d. R a) r d → ReadAs R r
    kept (ok a) d h = h
    kept (err e) d h = tt

    begun : (o : Option DriverError) → ReadAs R (read_begun w m st o)
    begun none =
        let start = begin st.book st.drawn w.cut w.fault w.now in
        kept (m start).0 (m start).1.live (k.at start refl)
    begun (some e) = tt

    connected : (c : Result (Unit {0})) → ReadAs R (run_read w m st c)
    connected (ok u) = begun w.begin_fails
    connected (err e) = tt

-- GET /v1/accounts, with a query that can be read, names no other parameter and asks for a page of a
-- size that is answered, is answered with what fail makes of the read's error, or with the first
-- `page` accounts of the list that the query's filters select, and with an address for the rest
-- exactly where there are more: the same filters and size, after the last of them.
pub accounts-page_body :
    (pg : Server) (lib : Library) (acquire : ℤ) (w : Fate) (st : Store) (raw : String) (q : Query)
    (page : ℕ)
    → lib.parse_query raw ≡ some q
    → unknown lib q ≡ []
    → page_size lib q ≡ inr page
    → ((e : Failure) × (read acquire w (balances pg (asked (wanted lib q) page)) st ≡ err e)
        × (accounts pg lib acquire w st raw
            ≡ fail lib e (record no_body { parameter = "kind"; value = shown (get q "kind") })))
      ⊎ (accounts pg lib acquire w st raw
          ≡ reply 200
              (Body.account_list (page_body lib q page (list_balances pg (wanted lib q) st.book))))
unfolding accounts
accounts-page_body pg lib acquire w st raw q page parsed known size =
    rw (parsed, known, size)
      (told (read acquire w (balances pg (asked (wanted lib q) page)) st) refl (
        read-ReadAs _ acquire w (balances pg (asked (wanted lib q) page)) st
          (balances-listed st.book pg (asked (wanted lib q) page))))
  where
    told :
        (r : Result (List Balance))
        → read acquire w (balances pg (asked (wanted lib q) page)) st ≡ r
        → ReadAs (λ rows. rows ≡ list_balances pg (asked (wanted lib q) page) st.book) r
        → ((e : Failure) × (read acquire w (balances pg (asked (wanted lib q) page)) st ≡ err e)
            × (listed pg lib acquire w st (asked (wanted lib q) page) page r
                ≡ fail lib e (record no_body { parameter = "kind"; value = shown (get q "kind") })))
          ⊎ (listed pg lib acquire w st (asked (wanted lib q) page) page r
              ≡ reply 200 (
                  Body.account_list
                    (page_body lib q page (list_balances pg (wanted lib q) st.book))))
    told (ok rows) h k = inr (
        ap
          (λ rows.
            reply 200 (Body.account_list (page_of lib (asked (wanted lib q) page) page rows)))
          k
        ∙ ap (λ b. reply 200 (Body.account_list b)) (page_of-page_body lib q pg page st.book))
    told (err e) h k = inl (e, h, refl)
