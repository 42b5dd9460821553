-- ===== src/Schedule/Served.antt =====
-- What `Serve` does, as a sequence of runs.
use vps_sync_gsbs.Base.{
  ℕ, zero, suc, Bool, true, false, ◌≡◌, ◌≢◌, ◌↔◌, refl, ap, sym, subst, ◌∙◌, ◌⊎◌, inl, inr, Option,
  none, some, List, [], ◌∷◌, arith, Bool-cases, Option-cases, if◌then◌else◌,
}
use vps_sync_gsbs.Text.{Text, text, is_empty}
use vps_sync_gsbs.Exec.{Error, Result, ok, err, pure, ◌>>=◌, ◌>>◌, bind_of_ok, bind-ok}
use vps_sync_gsbs.Exec.Errorless.{Errorless, Errorless-bind, bind-err, errorless}
use vps_sync_gsbs.Outside.{Outside}
use vps_sync_gsbs.World.{World, Io}
use vps_sync_gsbs.Config.{Config}
use vps_sync_gsbs.Notify.Reported.{run_result-Errorless}
use vps_sync_gsbs.Run.{Answer, weekly}
use vps_sync_gsbs.Run.Errorless.{weekly-Errorless}
use vps_sync_gsbs.Schedule.Reports.{Unmoved, report-Told}
use vps_sync_gsbs.Schedule.{
  Options, ctx_done, time_since, interrupted, report, execute, loop, started, seeded_first,
  accepted, serve,
}

-- One weekly run behind the other, for the reasons of the list: each has returned an answer, with an
-- error in it or without one, and the next begins where its report ended.
pub data Runs {o : Outside} (cfg : Config) : List Text → World o → World o → Type 0 where
  done : {w : World o} → Runs cfg [] w w
  next :
      {reason : Text} {rest : List Text} {w w1 w2 : World o} (ran : Answer)
      → weekly cfg w ≡ (ok ran, w1)
      → Unmoved w1 (report cfg reason ran w1).1
      → Runs cfg rest (report cfg reason ran w1).1 w2
      → Runs cfg (reason ∷ rest) w w2

-- The runs of the loop.
abbrev pub scheduled : ℕ → List Text
scheduled zero = []
scheduled (suc n) = text "scheduled" ∷ scheduled n

-- The runs of the process: one at the start, if that is asked for, and one for each timer.
abbrev pub runs_of : Options → ℕ → List Text
runs_of opts ticks = if opts.run_on_start then text "startup" ∷ scheduled ticks else scheduled ticks

module _ {o : Outside} (cfg : Config) where
  -- A run with its report.
  execute-ran :
      (reason : Text) (ran : Answer) (w w1 : World o)
      → weekly cfg w ≡ (ok ran, w1)
      → execute cfg reason w ≡ (ok tt, (report cfg reason ran w1).1)
  unfolding execute
  execute-ran reason ran w w1 runs =
      bind_of_ok (weekly cfg) (report cfg reason) w runs
      ∙ ap (λ r. (r, (report cfg reason ran w1).1)) (report-Told cfg reason ran w1).0

  ran-execute :
      (reason : Text) (w w' : World o)
      → execute cfg reason w ≡ (ok tt, w')
      → (ran : Answer) × (w1 : World o) × (weekly cfg w ≡ (ok ran, w1))
        × ((report cfg reason ran w1).1 ≡ w')
  unfolding execute
  ran-execute reason w w' e =
      let (ran, w1, runs, told) = bind-ok (weekly cfg) (report cfg reason) w w' tt e in
      (ran, w1, runs, ap (λ (x : Result (Unit {0}) × World o). x.1) told)

  one_more :
      {reason : Text} {rest : List Text} {w w1 w2 : World o}
      → execute cfg reason w ≡ (ok tt, w1)
      → Runs cfg rest w1 w2
      → Runs cfg (reason ∷ rest) w w2
  one_more {reason} {rest} {w} {w1} {w2} e runs =
      let (ran, w', first, same) = ran-execute reason w w1 e in
      next ran first (report-Told cfg reason ran w').1
        (subst (λ v. Runs cfg rest v w2) (sym same) runs)

  loop-Runs : (n : ℕ) (w w' : World o) → loop cfg n w ≡ (ok tt, w') → Runs cfg (scheduled n) w w'
  unfolding loop pure
  loop-Runs zero w w' e =
      subst (λ v. Runs cfg [] w v) (ap (λ (x : Result (Unit {0}) × World o). x.1) e) done
  loop-Runs (suc n) w w' e =
      let (a, w1, first, rest) = bind-ok _ _ w w' tt e in one_more first (loop-Runs n w1 w' rest)

  Runs-loop : (n : ℕ) (w w' : World o) → Runs cfg (scheduled n) w w' → loop cfg n w ≡ (ok tt, w')
  unfolding loop pure
  Runs-loop zero w w' done = refl
  Runs-loop (suc n) w w' (next ran first still rest) =
      bind_of_ok _ (λ _. loop cfg n) w (execute-ran _ ran w _ first) ∙ Runs-loop n _ w' rest

  -- An action that does nothing, and what follows it.
  nothing_first : (m : Io o (Unit {0})) (w : World o) → (pure tt >> m) w ≡ m w
  unfolding pure ◌>>=◌
  nothing_first m w = refl

  Runs-start :
      (n : ℕ) (w w' : World o)
      → Runs cfg (text "startup" ∷ scheduled n) w w'
      → (execute cfg (text "startup") >> loop cfg n) w ≡ (ok tt, w')
  Runs-start n w w' (next ran first still rest) =
      bind_of_ok _ (λ _. loop cfg n) w (execute-ran _ ran w _ first) ∙ Runs-loop n _ w' rest

  started-Runs :
      (opts : Options) (n : ℕ) (w w' : World o)
      → (started cfg opts n w ≡ (ok tt, w')) ↔ Runs cfg (runs_of opts n) w w'
  unfolding started
  started-Runs opts n w w' = go opts.run_on_start
    where
      go :
          (b : Bool)
          → ((do if b then execute cfg (text "startup") else pure tt; loop cfg n) w ≡ (ok tt, w'))
            ↔ Runs cfg (if b then text "startup" ∷ scheduled n else scheduled n) w w'
      go true = (
        λ e.
            let (a, w1, first, rest) = bind-ok _ _ w w' tt e in
            one_more first (loop-Runs n w1 w' rest),
        Runs-start n w w',
      )
      go false = (
        λ e. loop-Runs n w w' (sym (nothing_first (loop cfg n) w) ∙ e),
        λ r. nothing_first (loop cfg n) w ∙ Runs-loop n w w' r,
      )

  interrupted-Errorless : (e : Option Error) → Errorless {S = World o} (interrupted e)
  unfolding interrupted ctx_done
  interrupted-Errorless none = search errorless
  interrupted-Errorless (some e) = record { at = λ w x h. ground (arith, h) }

  time_since-Errorless : Errorless {S = World o} time_since
  unfolding time_since
  time_since-Errorless = record { at = λ w x h. ground (arith, h) }

  report-Errorless : (reason : Text) (x : Answer) → Errorless {S = World o} (report cfg reason x)
  unfolding report
  report-Errorless reason (res, e) =
      search (errorless, interrupted-Errorless, time_since-Errorless, run_result-Errorless) depth 8

  execute-Errorless : (reason : Text) → Errorless {S = World o} (execute cfg reason)
  unfolding execute
  execute-Errorless reason = search (errorless, weekly-Errorless, report-Errorless)

  loop-Errorless : (n : ℕ) → Errorless {S = World o} (loop cfg n)
  unfolding loop
  loop-Errorless zero = search errorless
  loop-Errorless (suc n) =
      Errorless-bind _ _ (execute-Errorless (text "scheduled")) (λ _. loop-Errorless n)

  started-Errorless : (opts : Options) (n : ℕ) → Errorless {S = World o} (started cfg opts n)
  unfolding started
  started-Errorless opts n = search (errorless, execute-Errorless, loop-Errorless)

-- Nothing before the first run is in the way: the base is set and the schedule can be read.
pub record IsAccepted (o : Outside) (cfg : Config) (opts : Options) : Type 0 where
  pub based : is_empty cfg.public_base ≡ false
  pub readable : o.parse_schedule opts.spec ≡ none

module _ {o : Outside} (cfg : Config) (opts : Options) (n : ℕ) where
  serve-accepted :
      IsAccepted o cfg opts
      → serve {o = o} cfg opts n ≡ (do seeded_first cfg opts; started cfg opts n)
  unfolding serve accepted
  serve-accepted h = rw (h.based, h.readable) refl

-- A process whose settings are accepted serves as its specification says: for the timers that fire
-- before it is told to stop, it returns, without an error, exactly where the seeding returns and one
-- weekly run after the other returns its answer, one for each timer and first one for the start if
-- that is asked for. An answer with an error in it ends nothing: the next run follows on it as on one
-- without. Between two runs the report alone takes place, which moves neither a file nor the object
-- store.
pub serve-Runs :
    (o : Outside) (cfg : Config) (opts : Options) (n : ℕ) (w w' : World o)
    → IsAccepted o cfg opts
    → (serve cfg opts n w ≡ (ok tt, w'))
      ↔ ((w0 : World o) × (seeded_first cfg opts w ≡ (ok tt, w0)) × Runs cfg (runs_of opts n) w0 w')
serve-Runs o cfg opts n w w' h = (
  λ e.
      let (a, w0, seeded, runs) =
        bind-ok (seeded_first cfg opts) (λ _. started cfg opts n) w w' tt
          (ap (λ m. m w) (sym (serve-accepted cfg opts n h)) ∙ e) in
      (w0, seeded, (started-Runs cfg opts n w0 w').0 runs),
  λ (w0, seeded, runs).
      ap (λ m. m w) (serve-accepted cfg opts n h)
      ∙ bind_of_ok (seeded_first cfg opts) (λ _. started cfg opts n) w seeded
      ∙ (started-Runs cfg opts n w0 w').1 runs,
)

-- The process ends by an error only before its first run: the base is not set, the schedule cannot
-- be read, or the seeding that was asked for failed with this error. However many timers fire, the
-- failure of a run does not end it.
pub serve-error :
    (o : Outside) (cfg : Config) (opts : Options) (n : ℕ) (w : World o) (e : Error)
    → (serve cfg opts n w).0 ≡ err e
    → (is_empty cfg.public_base ≡ true)
      ⊎ (o.parse_schedule opts.spec ≢ none)
      ⊎ ((seeded_first cfg opts w).0 ≡ err e)
serve-error o cfg opts n w e failed = elim (Bool-cases (is_empty cfg.public_base)) [
  | inl unset ↦ inl unset
  | inr based ↦ elim (Option-cases (o.parse_schedule opts.spec)) [
    | inr (x, unreadable) ↦ inr (inl (λ none_is. ground (arith, unreadable, none_is)))
    | inl readable ↦ inr (
        inr (
          bind-err (seeded_first cfg opts) (λ _. started cfg opts n)
            (λ _. started-Errorless cfg opts n) w e
            (ap (λ m. (m w).0)
                (sym (serve-accepted cfg opts n (record { based = based; readable = readable })))
              ∙ failed)))
  ]
]
