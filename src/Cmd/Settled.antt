-- ===== src/Cmd/Settled.antt =====
-- The deadlines that parseServe settles on.
use pacioli.Prelude.{
  ◌≡◌, ◌⊎◌, refl, Bool, true, false, not, inl, inr, Bool-cases, Option, none, some, List, [], ◌∷◌,
  String, str_eq, subst, if◌then◌else◌,
}
use pacioli.Prelude.Int.{pos, is_positive, is_zero}
use pacioli.Cmd.Config.{
  Duration, Deadlines, Field, get_field, set_field, Grace, graces, no_deadlines, Parsed, ok, usage,
  positive, Go, Flags, Config, from_text, configured, without_arguments, with_flags, first_duration,
  settled_by, settle_graces, parse_serve,
}

abbrev IsPositive : Duration → Type 0
IsPositive v = is_positive v ≡ true

-- What is settled on, where something is.
abbrev Gives : {A : Type 0} → (A → Type 0) → Parsed A → Type 0
Gives P (ok a) = P a
Gives P (usage e) = Unit

positive-Gives : (v : Duration) → Gives IsPositive (positive v)
unfolding positive
positive-Gives v = elim (Bool-cases (is_positive v)) [ inl e ↦ rw e e | inr e ↦ rw e tt ]

module _ (go : Go) where
  from_text-Gives : (env : String) (o : Option Duration) → Gives IsPositive (from_text go env o)
  from_text-Gives env none = tt
  from_text-Gives env (some v) = positive-Gives v

  if-Gives :
      (b : Bool) (p q : Parsed Duration)
      → Gives IsPositive p
      → Gives IsPositive q
      → Gives IsPositive (if b then p else q)
  if-Gives true p q hp hq = hp
  if-Gives false p q hp hq = hq

  first_duration-Gives :
      (v : Duration) (env : String) (def : Duration)
      → IsPositive def
      → Gives IsPositive (first_duration go v env def)
  unfolding first_duration
  first_duration-Gives v env def h =
      if-Gives (not (is_zero v)) _ _ (positive-Gives v)
        (if-Gives (not (str_eq env "")) _ _ (from_text-Gives env (go.parse_duration env)) h)

  -- All six deadlines are positive.
  abbrev pub AllPositive : Deadlines → Type 0
  AllPositive d = (f : Field) → IsPositive (get_field f d)

  each :
      (d : Deadlines)
      → IsPositive d.read_header
      → IsPositive d.read
      → IsPositive d.request
      → IsPositive d.acquire
      → IsPositive d.write
      → IsPositive d.idle
      → AllPositive d
  each d h1 h2 h3 h4 h5 h6 Field.read_header = h1
  each d h1 h2 h3 h4 h5 h6 Field.read = h2
  each d h1 h2 h3 h4 h5 h6 Field.request = h3
  each d h1 h2 h3 h4 h5 h6 Field.acquire = h4
  each d h1 h2 h3 h4 h5 h6 Field.write = h5
  each d h1 h2 h3 h4 h5 h6 Field.idle = h6

  settled-Gives :
      (p : Parsed Duration) (g : Grace) (rest : Deadlines → Parsed Deadlines) (d : Deadlines)
      → Gives IsPositive p
      → ((v : Duration) → IsPositive v → Gives AllPositive (rest (set_field g.into v d)))
      → Gives AllPositive (settled_by go p g rest d)
  settled-Gives (ok v) g rest d h k = k v h
  settled-Gives (usage e) g rest d h k = tt

  settle_graces-Gives :
      (given : Field → Duration) (getenv : String → String)
      → Gives AllPositive (settle_graces go graces given getenv no_deadlines)
  unfolding graces settle_graces
  settle_graces-Gives given getenv =
      settled-Gives _ _ _ _ (first_duration-Gives _ _ _ refl) λ v1 h1.
        settled-Gives _ _ _ _ (first_duration-Gives _ _ _ refl) λ v2 h2.
          settled-Gives _ _ _ _ (first_duration-Gives _ _ _ refl) λ v3 h3.
            settled-Gives _ _ _ _ (first_duration-Gives _ _ _ refl) λ v4 h4.
              settled-Gives _ _ _ _ (first_duration-Gives _ _ _ refl) λ v5 h5.
                settled-Gives _ _ _ _ (first_duration-Gives _ _ _ refl) λ v6 h6.
                  each
                    (record {
                      read_header = v1;
                      read = v2;
                      request = v3;
                      acquire = v4;
                      write = v5;
                      idle = v6;
                    })
                    h1 h2 h3 h4 h5 h6

  configured-Gives :
      (f : Flags) (getenv : String → String) (p : Parsed Deadlines)
      → Gives AllPositive p
      → Gives (λ (c : Config). AllPositive c.deadlines) (configured go f getenv p)
  configured-Gives f getenv (ok d) h = h
  configured-Gives f getenv (usage e) h = tt

  without-Gives :
      (f : Flags) (getenv : String → String) (as' : List String)
      → Gives (λ (c : Config). AllPositive c.deadlines) (without_arguments go f getenv as')
  without-Gives f getenv [] = configured-Gives f getenv _ (settle_graces-Gives f.given getenv)
  without-Gives f getenv (a ∷ as') = tt

  with_flags-Gives :
      (getenv : String → String) (o : Option Flags)
      → Gives (λ (c : Config). AllPositive c.deadlines) (with_flags go getenv o)
  with_flags-Gives getenv none = tt
  with_flags-Gives getenv (some f) = without-Gives f getenv f.arguments

ok-Gives : {A : Type 0} (P : A → Type 0) (p : Parsed A) (a : A) → p ≡ ok a → Gives P p → P a
ok-Gives P (ok b) a e h = subst P (cc) h
ok-Gives P (usage u) a e h = cc

-- A configuration that serve is given holds the server to six positive deadlines, whatever the
-- flags, the environment and the libraries that read them: none is zero, which net/http would take
-- for no deadline at all.
pub parse_serve-AllPositive :
    (go : Go) (args : List String) (getenv : String → String) (c : Config)
    → parse_serve go args getenv ≡ ok c
    → AllPositive go c.deadlines
unfolding parse_serve
parse_serve-AllPositive go args getenv c e =
    ok-Gives (λ (c : Config). AllPositive go c.deadlines) _ c e
      (with_flags-Gives go getenv (go.parse_flags args))

module _ (go : Go) where
  -- A deadline is the flag's where one was given, else the variable's where it is set, else the default.
  abbrev pub Picked : Duration → String → Duration → Duration → Type 0
  Picked flagged env def v =
      ((is_zero flagged ≡ false) × (v ≡ flagged))
      ⊎ ((is_zero flagged ≡ true)
          × (((str_eq env "" ≡ false) × (go.parse_duration env ≡ some v))
              ⊎ ((str_eq env "" ≡ true) × (v ≡ def))))

  -- What each deadline is picked from.
  abbrev pub EachPicked : (Field → Duration) → (String → String) → Deadlines → Type 0
  EachPicked given getenv x =
      Picked (given Field.read_header) (getenv "LEDGER_READ_HEADER_TIMEOUT") (pos 10000000000)
        x.read_header
      × Picked (given Field.read) (getenv "LEDGER_READ_TIMEOUT") (pos 30000000000) x.read
      × Picked (given Field.request) (getenv "LEDGER_REQUEST_TIMEOUT") (pos 15000000000) x.request
      × Picked (given Field.acquire) (getenv "LEDGER_ACQUIRE_TIMEOUT") (pos 2000000000) x.acquire
      × Picked (given Field.write) (getenv "LEDGER_WRITE_TIMEOUT") (pos 45000000000) x.write
      × Picked (given Field.idle) (getenv "LEDGER_IDLE_TIMEOUT") (pos 120000000000) x.idle
