-- ===== src/Ledger/Trial/Grouping.antt =====
-- Postings summed by the rows that they name, through a key that is unique among the rows, come to
-- the postings summed by themselves. Both a chart's and a book's sums are of this kind.
use pacioli.Prelude.{
  ◌≡◌, refl, ap, sym, ◌∙◌, subst, inl, inr, Bool, true, false, List, [], ◌∷◌, String, str_eq, ◌==◌,
  ==_iff, Has, All, if◌then◌else◌, Bool-cases,
}
use pacioli.Prelude.Int.{ℤ, pos, ◌+ℤ◌, int_laws, +ℤ_zero}
use pacioli.Schema.Server.{Uuid}
use pacioli.Schema.Tables.{PostingRow}

abbrev pub Distinct : List Uuid → Type 0
Distinct [] = Unit
Distinct (u ∷ us) = ¬ Has u us × Distinct us

-- What one posting adds to a currency's total, by the posting's own currency.
abbrev pub share : String → PostingRow → ℤ
share c p = if str_eq p.currency c then p.amount_minor else pos 0

abbrev pub shares : String → List PostingRow → ℤ
shares c [] = pos 0
shares c (p ∷ ps) = share c p +ℤ shares c ps

head_sum :
    (b : Bool) (a n g : ℤ)
    → (if b then a +ℤ n +ℤ g else g) ≡ (if b then a else pos 0) +ℤ (if b then n +ℤ g else g)
head_sum true a n g = omega int_laws
head_sum false a n g = omega int_laws

tail_sum :
    (b : Bool) (n s g : ℤ) → (if b then n +ℤ (s +ℤ g) else s +ℤ g) ≡ s +ℤ (if b then n +ℤ g else g)
tail_sum true n s g = omega int_laws
tail_sum false n s g = omega int_laws

pub zero_sum : (b : Bool) (n g : ℤ) → n ≡ pos 0 → g ≡ pos 0 → (if b then n +ℤ g else g) ≡ pos 0
zero_sum true n g p q = rw (p, q) (+ℤ_zero (pos 0))
zero_sum false n g p q = q

-- The sum of the postings whose key is the row's.
abbrev pub named_by : (PostingRow → Uuid) → Uuid → List PostingRow → ℤ
named_by key u [] = pos 0
named_by key u (p ∷ ps) =
    if key p == u then p.amount_minor +ℤ named_by key u ps else named_by key u ps

abbrev pub row_ids : {R : Type 0} → (R → Uuid) → List R → List Uuid
row_ids id [] = []
row_ids id (r ∷ rs) = id r ∷ row_ids id rs

module _ {R : Type 0} (id : R → Uuid) (currency : R → String) (key : PostingRow → Uuid) where
  abbrev pub grouped : String → List R → List PostingRow → ℤ
  grouped c [] ps = pos 0
  grouped c (r ∷ rs) ps =
      if str_eq (currency r) c then named_by key (id r) ps +ℤ grouped c rs ps else grouped c rs ps

  -- The posting names a row, which holds the posting's currency.
  abbrev pub Names : List R → PostingRow → Type 0
  Names rs p = (r : R) × Has r rs × (id r ≡ key p) × (currency r ≡ p.currency)

  pub Has-row_ids : (r : R) (rs : List R) → Has r rs → Has (id r) (row_ids id rs)
  Has-row_ids r [] h = elim h [ ]
  Has-row_ids r (x ∷ rs) (inl e) = inl (ap id e)
  Has-row_ids r (x ∷ rs) (inr h) = inr (Has-row_ids r rs h)

  grouped_absent :
      (c : String) (rs : List R) (p : PostingRow) (ps : List PostingRow)
      → ¬ Has (key p) (row_ids id rs)
      → grouped c rs (p ∷ ps) ≡ grouped c rs ps
  grouped_absent c [] p ps h = refl
  grouped_absent c (r ∷ rs) p ps h = elim (Bool-cases (key p == id r)) [
    | inl e ↦ absurd (h (inl (sym ((==_iff _ _).0 e))))
    | inr e ↦ rw e (rw (grouped_absent c rs p ps (λ m. h (inr m))))
  ]

  grouped_cons :
      (c : String) (rs : List R) (p : PostingRow) (ps : List PostingRow)
      → Distinct (row_ids id rs)
      → Names rs p
      → grouped c rs (p ∷ ps) ≡ share c p +ℤ grouped c rs ps
  grouped_cons c [] p ps u (r, m, e, f) = absurd m
  grouped_cons c (x ∷ rs) p ps (new, u) (r, inl h, e, f) =
      rw
        (
          (==_iff (key p) (id x)).1 (sym (ap id h ∙ e)),
          grouped_absent c rs p ps (subst (λ k. ¬ Has k (row_ids id rs)) (ap id h ∙ e) new),
          ap currency h ∙ f,
        )
        (head_sum (str_eq p.currency c) p.amount_minor (named_by key (id x) ps) (grouped c rs ps))
  grouped_cons c (x ∷ rs) p ps (new, u) (r, inr h, e, f) = elim (Bool-cases (key p == id x)) [
    | inl same ↦
        absurd
          (new (subst (λ k. Has k (row_ids id rs)) (e ∙ (==_iff _ _).0 same) (Has-row_ids r rs h)))
    | inr other ↦
        rw (other, grouped_cons c rs p ps u (r, h, e, f))
          (tail_sum (str_eq (currency x) c) (named_by key (id x) ps) (share c p) (grouped c rs ps))
  ]

  grouped_nil : (c : String) (rs : List R) → grouped c rs [] ≡ pos 0
  grouped_nil c [] = refl
  grouped_nil c (r ∷ rs) =
      zero_sum (str_eq (currency r) c) (pos 0) (grouped c rs []) refl (grouped_nil c rs)

  pub grouped-eq-shares :
      (c : String) (rs : List R) (ps : List PostingRow)
      → Distinct (row_ids id rs)
      → All (Names rs) ps
      → grouped c rs ps ≡ shares c ps
  grouped-eq-shares c rs [] u h = grouped_nil c rs
  grouped-eq-shares c rs (p ∷ ps) u (n, h) =
      grouped_cons c rs p ps u n ∙ ap (λ x. share c p +ℤ x) (grouped-eq-shares c rs ps u h)
