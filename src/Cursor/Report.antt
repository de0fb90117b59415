-- ===== src/Cursor/Report.antt =====
-- `rowcount`, `lastrowid` and `close` of `AuroraDataAPICursor`, and the connection's `cursor`, in
-- __init__.py.
use aurora_data_api.Base.{ℕ, Option, none, some, List, [], ◌∷◌, ◌++◌, length}
use aurora_data_api.Base.Int.{ℤ, pos, negsuc}
use aurora_data_api.Base.Text.{Text, codes}
use aurora_data_api.Base.Exec.{Result, Exec, ok, raised, diverged}
use aurora_data_api.Value.{Stdlib}
use aurora_data_api.Convert.{Field, Converted, convert_value}
use aurora_data_api.Convert.Params.{no_parameters}
use aurora_data_api.Errors.Classes.{Exn}
use aurora_data_api.Platform.{Platform}
use aurora_data_api.Env.{Row, Rendered, Cursor, Env}
use aurora_data_api.Cursor.{with_cursor}
use aurora_data_api.Cursor.Execute.{new_cursor, reset, execute}

count_of : Option (List Row) → Option ℕ → ℤ
count_of (some rows) updated = pos (length rows)
count_of none (some n) = pos n
count_of none none = negsuc 0

rowcount_in : Option Rendered → ℤ
unfolding count_of
rowcount_in none = negsuc 0
rowcount_in (some response) = count_of response.records response.number_of_records_updated

pub rowcount : Cursor → ℤ
unfolding rowcount_in
rowcount c = rowcount_in c.current_response

-- `fields[-1]` of a list that is not empty.
pub last_field : Field → List Field → Field
last_field field [] = field
last_field field (next ∷ fields) = last_field next fields

abbrev pub some_value : Result Exn Converted → Result Exn (Option Converted)
some_value (ok v) = ok (some v)
some_value (raised e) = raised e
some_value diverged = diverged

module _ (L : Stdlib) where
  last_generated : Option (List Field) → Result Exn (Option Converted)
  unfolding last_field
  last_generated none = ok none
  last_generated (some []) = ok none
  last_generated (some (field ∷ fields)) =
      some_value (convert_value L (last_field field fields) none)

  lastrowid_in : Option Rendered → Result Exn (Option Converted)
  unfolding last_generated
  lastrowid_in none = ok none
  lastrowid_in (some response) = last_generated response.generated_fields

  pub lastrowid : Cursor → Result Exn (Option Converted)
  unfolding lastrowid_in
  lastrowid c = lastrowid_in c.current_response

abbrev pub default_arraysize : ℕ
default_arraysize = 1000

module _ {P : Platform} (L : Stdlib) where
  pub close : Exec Exn (Env P) (Unit {0})
  close env = (ok tt, with_cursor reset env)

  set_charset : Option Text → Exec Exn (Env P) (Unit {0})
  set_charset none env = (ok tt, env)
  set_charset (some []) env = (ok tt, env)
  set_charset (some (c ∷ charset)) env =
      execute L (codes "SET character_set_client = '" ++ ((c ∷ charset) ++ codes "'")) no_parameters
        env

  -- `cursor`: the new cursor takes the place of the one before.
  pub open_cursor : Exec Exn (Env P) (Unit {0})
  unfolding set_charset
  open_cursor env =
      set_charset env.connection.charset (with_cursor (λ c. new_cursor default_arraysize) env)
