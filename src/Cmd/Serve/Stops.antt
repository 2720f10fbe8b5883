-- ===== src/Cmd/Serve/Stops.antt =====
-- What open asks for, what the listener is held to, and when serve stops with no error.
use pacioli.Prelude.{
  ◌≡◌, ◌⊎◌, refl, sym, ◌∙◌, ap, subst, inl, inr, Bool, true, false, Option, none, some, List, [],
  ◌∷◌, String, str_eq, eq_iff, Bool-cases, All, if◌then◌else◌,
}
use pacioli.Prelude.Int.{is_positive}
use pacioli.Failure.{DriverError, Result, ok, err, or_else}
use pacioli.Schema.Apply.{Catalog, apply}
use pacioli.Cmd.Config
use pacioli.Cmd.Config.{Deadlines, Field, Go, Config, parse_serve}
use pacioli.Cmd.Settled.{AllPositive, parse_serve-AllPositive}
use pacioli.Cmd.Serve.{
  Parameters, parameter, given_or, with_graces, Database, Outside, open_database, new_server, Line,
  serve_ended, drained, selected, serve_on, listened, applied, opened, serve,
}

or_none : {A : Type 0} (a : Option A) → or_else a none ≡ a
or_none none = refl
or_none (some x) = refl

or_assoc : {A : Type 0} (a b c : Option A) → or_else (or_else a b) c ≡ or_else a (or_else b c)
or_assoc none b c = refl
or_assoc (some x) b c = refl

or_if :
    {A : Type 0} (t : Bool) (v : A) (c : Option A)
    → or_else (if t then some v else none) c ≡ (if t then some v else c)
or_if true v c = refl
or_if false v c = refl

parameter-given_or :
    (name n v : String) (o : Option String) (ps : Parameters)
    → parameter n ps ≡ o
    → parameter name (given_or n v o ps)
      ≡ or_else (parameter name ps) (if str_eq n name then some v else none)
unfolding parameter
parameter-given_or name n v none ps h = elim (Bool-cases (str_eq n name)) [
  | inl e ↦
      let missing : parameter name ps ≡ none =
        subst (λ x. parameter x ps ≡ none) ((eq_iff n name).0 e) h in
      rw (e, missing) refl
  | inr e ↦ rw e (sym (or_none (parameter name ps)))
]
parameter-given_or name n v (some g) ps h = elim (Bool-cases (str_eq n name)) [
  | inl e ↦
      let given : parameter name ps ≡ some g =
        subst (λ x. parameter x ps ≡ some g) ((eq_iff n name).0 e) h in
      rw (e, given) refl
  | inr e ↦ rw e (sym (or_none (parameter name ps)))
]

-- A connection string that sets one of the ceilings keeps its own value, and the others are set.
pub parameter-with_graces :
    (name : String) (gs ps : Parameters)
    → parameter name (with_graces gs ps) ≡ or_else (parameter name ps) (parameter name gs)
unfolding with_graces parameter
parameter-with_graces name [] ps = sym (or_none (parameter name ps))
parameter-with_graces name ((n, v) ∷ gs) ps =
    parameter-with_graces name gs (given_or n v (parameter n ps) ps)
    ∙ ap (λ x. or_else x (parameter name gs)) (parameter-given_or name n v (parameter n ps) ps refl)
    ∙ or_assoc (parameter name ps) (if str_eq n name then some v else none) (parameter name gs)
    ∙ ap (or_else (parameter name ps)) (or_if (str_eq n name) v (parameter name gs))

-- Serve is over and nothing went wrong: the database answers and has the schema, the address is free,
-- Serve lasts until the signal, and the requests in flight are drained.
abbrev pub StopsQuietly : Outside → Config → Catalog → Type 0
StopsQuietly o c cat =
    ((given : Parameters) × (o.parse_config c.dsn ≡ some given))
    × (o.ping ≡ none)
    × ((b : Bool) × ((apply o.schema cat).0 ≡ ok b))
    × (o.listen c.addr ≡ none)
    × (o.ended_early ≡ none)
    × (o.shutdown ≡ none)
    × ((o.ended ≡ none) ⊎ (o.ended ≡ some none))

module _ (o : Outside) (c : Config) where
  -- Serve lasts until the signal, and the requests in flight are drained.
  abbrev Drains : Option (Option DriverError) → Type 0
  Drains e = (e ≡ none) × (o.shutdown ≡ none) × ((o.ended ≡ none) ⊎ (o.ended ≡ some none))

  abbrev Listens : Type 0
  Listens = (o.listen c.addr ≡ none) × Drains o.ended_early

  -- A line that says the server listens holds it to deadlines that are all positive.
  abbrev pub IsHeldTo : Line → Type 0
  IsHeldTo (Line.listening addr p) =
      (is_positive p.deadline ≡ true)
      × (is_positive p.read_header_timeout ≡ true)
      × (is_positive p.read_timeout ≡ true)
      × (is_positive p.write_timeout ≡ true)
      × (is_positive p.idle_timeout ≡ true)
      × (is_positive p.acquire ≡ true)
  IsHeldTo _ = Unit

  ended_lines : (e : Option (Option DriverError)) → All IsHeldTo (serve_ended e).1
  ended_lines none = (tt, tt)
  ended_lines (some none) = (tt, tt)
  ended_lines (some (some e)) = tt

  drained_lines : (e : Option DriverError) → All IsHeldTo (drained o e).1
  drained_lines none = ended_lines o.ended
  drained_lines (some e) = tt

  selected_lines : (e : Option (Option DriverError)) → All IsHeldTo (selected o e).1
  selected_lines none = (tt, drained_lines o.shutdown)
  selected_lines (some e) = tt

  module _ (go : Go) (h : AllPositive go c.deadlines) where
    listened_lines : (e : Option DriverError) → All IsHeldTo (listened o c e).1
    unfolding serve_on new_server
    listened_lines none = (
      (
        h Field.request,
        h Field.read_header,
        h Field.read,
        h Field.write,
        h Field.idle,
        h Field.acquire,
      ),
      selected_lines o.ended_early,
    )
    listened_lines (some e) = tt

    applied_lines : (r : Result Bool) → All IsHeldTo (applied o c r).1
    applied_lines (err e) = tt
    applied_lines (ok true) = (tt, listened_lines (o.listen c.addr))
    applied_lines (ok false) = (tt, listened_lines (o.listen c.addr))

    opened_lines : (cat : Catalog) (r : Result Database) → All IsHeldTo (opened o c cat r).1
    opened_lines cat (err e) = tt
    opened_lines cat (ok db) = applied_lines (apply o.schema cat).0

-- Whatever the command line and the environment say, and whatever happens to it afterwards, a server
-- that parseServe gave its configuration listens only with all of its deadlines positive: the five
-- of newServer and the wait for a connection.
pub serve-IsHeldTo :
    (go : Go) (args : List String) (getenv : String → String) (o : Outside) (c : Config)
    (cat : Catalog)
    → parse_serve go args getenv ≡ Config.ok c
    → All (IsHeldTo o c) (serve o c cat).1
unfolding serve
serve-IsHeldTo go args getenv o c cat h =
    opened_lines o c go (parse_serve-AllPositive go args getenv c h) cat (open_database o c.dsn)
