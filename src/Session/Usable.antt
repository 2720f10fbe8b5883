-- ===== src/Session/Usable.antt =====
-- One statement on a session that takes statements, by what the server answers.
use pacioli.Prelude.{ℕ, ◌+◌, ◌≡◌, ap, true, List, String}
use pacioli.Failure.{Failure, DriverError, PgError, ok, err}
use pacioli.Schema.Server.{Uuid}
use pacioli.Schema.Tables.{Database, Answer, done, refused}
use pacioli.Session.{Session, usable, write, query, exec, answer}

-- A session after a refused statement.
abbrev pub stuck : Database → List (String × Database) → ℕ → DriverError → ℕ → Session
stuck d saved n fault now = record (usable d saved n fault now) { failed = true }

module _ (stack : List (String × Database)) (n : ℕ) (fault : DriverError) (now : ℕ) where
  pub write-done :
      (body : Uuid → Database → Answer Database) (d d' : Database)
      → body n d ≡ done d'
      → write body (usable d stack n fault now) ≡ (ok tt, usable d' stack (n + 1) fault now)
  unfolding write exec
  write-done body d d' h =
      ap
        (λ a.
          answer (usable d stack n fault now)
            (elim a [ done x ↦ done (tt, x) | refused e ↦ refused e ]))
        h

  pub write-refused :
      (body : Uuid → Database → Answer Database) (d : Database) (e : PgError)
      → body n d ≡ refused e
      → write body (usable d stack n fault now)
        ≡ (err (Failure.server e), stuck d stack (n + 1) fault now)
  unfolding write exec
  write-refused body d e h =
      ap
        (λ a.
          answer (usable d stack n fault now)
            (elim a [ done x ↦ done (tt, x) | refused e ↦ refused e ]))
        h

  pub query-done :
      {A : Type 0} (body : Database → Answer A) (d : Database) (a : A)
      → body d ≡ done a
      → query body (usable d stack n fault now) ≡ (ok a, usable d stack (n + 1) fault now)
  unfolding query exec
  query-done body d a h =
      ap
        (λ r.
          answer (usable d stack n fault now)
            (elim r [ done x ↦ done (x, d) | refused e ↦ refused e ]))
        h
