-- ===== src/Config/DotEnv/First.antt =====
-- What `loadDotEnv` leaves in the environment.
use vps_sync_gsbs.Base.{
  Bool, true, false, ◌&&◌, not, ◌≡◌, refl, ◌∙◌, Option, none, some, List, [], ◌∷◌, arith,
  Bool-cases, inl, inr, if◌then◌else◌,
}
use vps_sync_gsbs.Text.{Text, text_eq, text_eq_iff, text_eq_refl, is_empty}
use vps_sync_gsbs.Exec.{Result, ok, pure, ◌>>=◌, bind_of_ok}
use vps_sync_gsbs.Outside.{Outside}
use vps_sync_gsbs.World.{World, setenv, getenv, settable}
use vps_sync_gsbs.Config.DotEnv.{setting, apply_setting, load_lines}

-- The value that a line gives to a variable, if it gives one that is not empty.
abbrev pub value_in : Text → Option (Text × Text) → Text → Text
value_in k none rest = rest
value_in k (some (j, v)) rest =
    if text_eq k j && (settable j v && not (is_empty v)) then v else rest

-- The first of the values that lines give to a variable.
abbrev pub first_value : Text → List Text → Text
first_value k [] = []
first_value k (l ∷ ls) = value_in k (setting l) (first_value k ls)

abbrev pub or_else : Text → Text → Text
or_else v d = if is_empty v then d else v

-- The environment behind a line, and behind lines.
abbrev pub apply_env : Option (Text × Text) → (Text → Text) → Text → Text
apply_env none e k = e k
apply_env (some (j, v)) e k =
    if is_empty (e j) && settable j v then (if text_eq k j then v else e k) else e k

abbrev pub loaded : List Text → (Text → Text) → Text → Text
loaded [] e k = e k
loaded (l ∷ ls) e k = loaded ls (apply_env (setting l) e) k

apply_env-value_in :
    (s : Option (Text × Text)) (e : Text → Text) (k rest : Text)
    → or_else (apply_env s e k) rest ≡ or_else (e k) (value_in k s rest)
apply_env-value_in none e k rest = refl
apply_env-value_in (some (j, v)) e k rest = elim (Bool-cases (text_eq k j)) [
  | inl same ↦ rw ((text_eq_iff k j).0 same) (ground (arith, text_eq_refl j))
  | inr other ↦ ground (arith, other)
]

-- A variable that is set keeps its value; else it gets the first one that is given.
pub loaded-first :
    (ls : List Text) (e : Text → Text) (k : Text) → loaded ls e k ≡ or_else (e k) (first_value k ls)
loaded-first [] e k = ground arith
loaded-first (l ∷ ls) e k =
    loaded-first ls (apply_env (setting l) e) k
    ∙ apply_env-value_in (setting l) e k (first_value k ls)

module _ {o : Outside} where
  -- The world `w` with another environment.
  abbrev pub with_env : World o → (Text → Text) → World o
  with_env w e = record w { env = e }

  apply_setting_lem :
      (s : Option (Text × Text)) (w : World o)
      → apply_setting s w ≡ (ok tt, with_env w (apply_env s w.env))
  unfolding apply_setting ◌>>=◌ getenv setenv
  apply_setting_lem none w = refl
  apply_setting_lem (some (j, v)) w = go (is_empty (w.env j)) (settable j v)
    where
      go :
          (a b : Bool)
          → ◌≡◌ {A = Result (Unit {0}) × World o}
              ((if a
                  then (λ w'.
                      if b
                      then (ok tt, record w' { env = λ k. if text_eq k j then v else w'.env k })
                      else (ok tt, w'))
                  else pure tt)
                w)
              (
                ok tt,
                with_env w (λ k. if a && b then (if text_eq k j then v else w.env k) else w.env k),
              )
      go true true = refl
      go true false = refl
      go false b = refl

  pub load_lines_lem :
      (ls : List Text) (w : World o) → load_lines ls w ≡ (ok tt, with_env w (loaded ls w.env))
  unfolding load_lines pure
  load_lines_lem [] w = refl
  load_lines_lem (l ∷ ls) w =
      bind_of_ok (apply_setting (setting l)) (λ _. load_lines ls) w
        (apply_setting_lem (setting l) w)
      ∙ load_lines_lem ls (with_env w (apply_env (setting l) w.env))
