-- ===== src/Database/Applied.antt =====
-- What a run of `runMigrations` records, and that a second run does nothing
-- (src/db/database.service.ts).
use timeoff_request.Base.{
  ℕ, ◌≡◌, ◌∙◌, refl, ap, sym, String, true, false, not, ◌==◌, List, [], ◌∷◌, ◌++◌, map, arith,
  eq_refl, inl, inr, Bool-cases, if◌then◌else◌,
}
use mathlib.Core.List.{append-nil, append_assoc}
use timeoff_request.Base.All.{All}
use timeoff_request.Base.Table.{select, find-append}
use timeoff_request.Domain.Errors.{Error, Result, Result-cases, ok, err}
use timeoff_request.Database.Migrations.{
  Migration, Schema, is_migration, is_applied, recorded, apply, run_all,
}

-- no name twice
abbrev pub Distinct : List String → Type 0
Distinct [] = Unit
Distinct (n ∷ names) = All (λ m. (n == m) ≡ false) names × Distinct names

-- the names that are not yet recorded
abbrev pub pending : List String → List Migration → List String
pending names rows = select (λ n. not (is_applied n rows)) names

abbrev pub names_of : List Migration → List String
names_of rows = map (λ m. m.name) rows

names_of-append :
    (rows : List Migration) (m : Migration)
    → names_of (rows ++ m ∷ []) ≡ names_of rows ++ m.name ∷ []
names_of-append [] m = refl
names_of-append (r ∷ rows) m = ap (λ l. r.name ∷ l) (names_of-append rows m)

is_applied-append :
    (n : String) (rows : List Migration) (m : Migration)
    → is_applied n (rows ++ m ∷ []) ≡ (if is_applied n rows then true else m.name == n)
is_applied-append n rows m = ground (arith, find-append (is_migration n) rows m)

-- a row for a name that is not in the list
pending-append :
    (names : List String) (rows : List Migration) (m : Migration)
    → All (λ n. (m.name == n) ≡ false) names
    → pending names (rows ++ m ∷ []) ≡ pending names rows
unfolding select
pending-append [] rows m h = refl
pending-append (n ∷ names) rows m h =
    ground (arith, is_applied-append n rows m, h.0, pending-append names rows m h.1)

module _ {S : Type 0} (exec : String → S → Result Unit × S) (times : ℕ → ℕ)
    (read : String → String) where
  -- every name of the list is recorded
  abbrev Recorded : List String → List Migration → Type 0
  Recorded names rows = All (λ n. is_applied n rows ≡ true) names

  pub run_all-Recorded :
      (names : List String) (s : Schema S)
      → Recorded names s.migrations
      → run_all exec times read names s ≡ (ok tt, s)
  unfolding run_all
  run_all-Recorded [] s h = refl
  run_all-Recorded (n ∷ names) s h = ground (arith, h.0, run_all-Recorded names s h.1)

  -- one step of the loop
  run_all-skip :
      (n : String) (names : List String) (s : Schema S)
      → is_applied n s.migrations ≡ true
      → run_all exec times read (n ∷ names) s ≡ run_all exec times read names s
  unfolding run_all
  run_all-skip n names s h = ground (arith, h)

  abbrev built_by : String → Schema S → Schema S
  built_by n s = record s { built = (exec (read n) s.built).1 }

  run_all-ok :
      (n : String) (names : List String) (s : Schema S)
      → is_applied n s.migrations ≡ false
      → (exec (read n) s.built).0 ≡ ok tt
      → run_all exec times read (n ∷ names) s
        ≡ run_all exec times read names (recorded exec times n (built_by n s))
  unfolding run_all apply
  run_all-ok n names s h fine = ground (arith, h, fine)

  run_all-err :
      (n : String) (names : List String) (s : Schema S) (e : Error)
      → is_applied n s.migrations ≡ false
      → (exec (read n) s.built).0 ≡ err e
      → run_all exec times read (n ∷ names) s ≡ (err e, built_by n s)
  unfolding run_all apply
  run_all-err n names s e h fails = ground (arith, h, fails)

  -- the schema after these files, one after another
  abbrev pub built_all : List String → S → S
  built_all [] b = b
  built_all (n ∷ names) b = built_all names (exec (read n) b).1

  -- what a run leaves: all of the pending names, or those before the one that threw
  abbrev pub Left : List String → S → List String → Result Unit × Schema S → Type 0
  Left before b names (r, s') =
      (r ≡ ok tt → (names_of s'.migrations ≡ before ++ names) × (s'.built ≡ built_all names b))
      × ((e : Error)
          → r ≡ err e
          → (done : List String) × (n : String) × (rest : List String) × (names ≡ done ++ n ∷ rest)
            × (names_of s'.migrations ≡ before ++ done)
            × (exec (read n) (built_all done b) ≡ (err e, s'.built)))

  Left-cons :
      (before names : List String) (n : String) (b : S) (out : Result Unit × Schema S)
      → Left (before ++ n ∷ []) (exec (read n) b).1 names out
      → Left before b (n ∷ names) out
  Left-cons before names n b (r, s') h = (
    λ fine. let (p, q) = h.0 fine in (p ∙ append_assoc before (n ∷ []) names, q),
    λ e fails.
        let (done, m, rest, p, q, thrown) = h.1 e fails in
        (n ∷ done, m, rest, ap (λ l. n ∷ l) p, q ∙ append_assoc before (n ∷ []) done, thrown),
  )

  pending-applied :
      (n : String) (names : List String) (rows : List Migration)
      → is_applied n rows ≡ true
      → pending (n ∷ names) rows ≡ pending names rows
  unfolding select
  pending-applied n names rows h = ground (arith, h)

  pending-new :
      (n : String) (names : List String) (rows : List Migration)
      → is_applied n rows ≡ false
      → pending (n ∷ names) rows ≡ n ∷ pending names rows
  unfolding select
  pending-new n names rows h = ground (arith, h)

  pub run_all-Left :
      (names : List String) (s : Schema S)
      → Distinct names
      → Left
          (names_of s.migrations)
          s.built
          (pending names s.migrations)
          (run_all exec times read names s)
  unfolding run_all select
  run_all-Left [] s h =
      (λ fine. (sym (append-nil (names_of s.migrations)), refl), λ e fails. absurd (cc))
  run_all-Left (n ∷ names) s h = elim (Bool-cases (is_applied n s.migrations)) [
    | inl old ↦
        rw (pending-applied n names s.migrations old, run_all-skip n names s old)
          (run_all-Left names s h.1)
    | inr new ↦ elim (Result-cases (exec (read n) s.built).0) [
      | inl fine ↦
          let row : Migration = record { name = n; applied_at = times s.time_reads } in
          rw (pending-new n names s.migrations new, run_all-ok n names s new fine)
            (Left-cons (names_of s.migrations) (pending names s.migrations) n s.built
              (run_all exec times read names (recorded exec times n (built_by n s)))
              (rw (names_of-append s.migrations row, pending-append names s.migrations row h.0) at
                (run_all-Left names (recorded exec times n (built_by n s)) h.1)))
      | inr (e, fails) ↦
          rw (pending-new n names s.migrations new, run_all-err n names s e new fails)
            (
              λ fine. absurd (cc),
              λ f same. (
                [],
                n,
                pending names s.migrations,
                refl,
                sym (append-nil (names_of s.migrations)),
                λ i. ((fails ∙ same) i, (exec (read n) s.built).1),
              ),
            )
    ]
  ]

  done-Recorded :
      (names : List String) (s : Schema S) (n : String)
      → is_applied n s.migrations ≡ true
      → is_applied n (run_all exec times read names s).1.migrations ≡ true
  unfolding run_all apply
  done-Recorded [] s n h = h
  done-Recorded (m ∷ names) s n h = elim (Bool-cases (is_applied m s.migrations)) [
    | inl old ↦ rw (run_all-skip m names s old) (done-Recorded names s n h)
    | inr new ↦ elim (Result-cases (exec (read m) s.built).0) [
      | inl fine ↦ rw (run_all-ok m names s new fine) (
          done-Recorded names (recorded exec times m (built_by m s)) n (
            ground (
              arith,
              h,
              is_applied-append n s.migrations
                  (record { name = m; applied_at = times s.time_reads }),
            )))
      | inr (e, fails) ↦ rw (run_all-err m names s e new fails) h
    ]
  ]

  pub run_all-again :
      (names : List String) (s s' : Schema S)
      → run_all exec times read names s ≡ (ok tt, s')
      → Recorded names s'.migrations
  run_all-again [] s s' h = tt
  run_all-again (m ∷ names) s s' h = elim (Bool-cases (is_applied m s.migrations)) [
    | inl old ↦
        let rest = sym (run_all-skip m names s old) ∙ h in
        (rw rest at (done-Recorded names s m old), run_all-again names s s' rest)
    | inr new ↦ elim (Result-cases (exec (read m) s.built).0) [
      | inl fine ↦
          let row : Migration = record { name = m; applied_at = times s.time_reads } in
          let rest = sym (run_all-ok m names s new fine) ∙ h in
          let own : is_applied m (s.migrations ++ row ∷ []) ≡ true =
            ground (arith, is_applied-append m s.migrations row, eq_refl m) in
          (
            rw rest at (done-Recorded names (recorded exec times m (built_by m s)) m own),
            run_all-again names (recorded exec times m (built_by m s)) s' rest,
          )
      | inr (e, fails) ↦ let bad = sym (run_all-err m names s e new fails) ∙ h in absurd (cc)
    ]
  ]
