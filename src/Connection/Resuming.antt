-- ===== src/Connection/Resuming.antt =====
-- The decorator of `start_transaction` never has an effect: the `try` inside turns the exception that
-- it waits for into another one.
use mathlib.Core.Option.{some-injective}
use aurora_data_api.Base.{
  ◌≡◌, refl, inl, inr, String, Bool, true, false, not, Option, none, some, List, ◌∷◌, [], arith,
  Bool-cases, Option-cases, all, ◌==◌,
}
use aurora_data_api.Base.Text.{Text, codes, contains, text_eq}
use aurora_data_api.Base.Exec.{continue, Result, ok, raised, diverged, Result-cases}
use aurora_data_api.Errors.Classes.{Exn, exception, class_name, is_instance}
use aurora_data_api.Errors.Enum.{name_of_value, canonical_name, value_of_name}
use aurora_data_api.Errors.Tables.{mysql_error_codes, postgresql_error_codes}
use aurora_data_api.Errors.Factory.{
  Made, Factories, get_attr, from_code, mysql_from_code, postgresql_from_code,
}
use aurora_data_api.Errors.Factory.Laws.{
  IsMade, get_attr-find, get_attr-IsMade, from_code_member, from_code_unknown,
}
use aurora_data_api.Errors.Classes.{ErrorClass}
use aurora_data_api.Errors.Translate.{
  translated, from_postgresql, from_mysql, translate_database_error,
}
use aurora_data_api.Errors.Translate.Laws.{mysql_made, postgresql_made}
use aurora_data_api.Base.Decimal.{parse_nat}
use aurora_data_api.Platform.{Platform}
use aurora_data_api.Env.{Env, sleeping}
use aurora_data_api.Connection.{
  begin_failed, begin_or_current, is_database_exception, raise_translated, start_transaction,
  start_transaction_once, begin_args, keep_transaction,
}
use aurora_data_api.Errors.Enum.{value_of_name}
use aurora_data_api.Retry.{resuming_name}
use aurora_data_api.Retry.Laws.{Retryable, is_resuming, retry_resuming_once}

-- No member of the tables is named after the exception.
abbrev unlike : {V : Type 0} → String × V → Bool
unlike (n, _) = not (contains resuming_name (codes n))

mysql_unlike : all unlike mysql_error_codes ≡ true
unfolding mysql_error_codes contains resuming_name
mysql_unlike = refl

postgresql_unlike : all unlike postgresql_error_codes ≡ true
unfolding postgresql_error_codes contains resuming_name
postgresql_unlike = refl

name_of_value-unlike :
    {V : Type 0} (eq : V → V → Bool) (v : V) (n : String) (members : List (String × V))
    → all unlike members ≡ true
    → name_of_value eq v members ≡ some n
    → contains resuming_name (codes n) ≡ false
unfolding name_of_value
name_of_value-unlike eq v n [] h e = cc
name_of_value-unlike eq v n ((m, w) ∷ members) h e = elim (Bool-cases (eq w v)) [
  | inl same ↦ let e' = some-injective m n (ground arith) in rw (← e') (ground arith)
  | inr other ↦ name_of_value-unlike eq v n members (ground arith) (ground arith)
]

canonical_name-unlike :
    {V : Type 0} (eq : V → V → Bool) (a n : String) (members : List (String × V))
    → all unlike members ≡ true
    → canonical_name eq a members ≡ some n
    → contains resuming_name (codes n) ≡ false
unfolding canonical_name
canonical_name-unlike eq a n members h e = elim (Option-cases (value_of_name a members)) [
  | inl unknown ↦ absurd (ground arith)
  | inr (v, found) ↦ name_of_value-unlike eq v n members h (rw (found, canonical_name) at e)
]

-- A class of a factory is not named after the exception.
get_attr-unlike :
    {V : Type 0} (eq : V → V → Bool) (members : List (String × V)) (a : String) (s : Made)
    (c : ErrorClass)
    → all unlike members ≡ true
    → IsMade eq members s
    → (get_attr eq members a s).0 ≡ ok c
    → contains resuming_name c.name ≡ false
get_attr-unlike eq members a s c u h e =
    let found = get_attr-find eq members a s c e in
    let (n, canonical, named) = (get_attr-IsMade eq members a s h).named a c found in
    rw named (canonical_name-unlike eq a n members u canonical)

from_code-unlike :
    {V : Type 0} (eq : V → V → Bool) (members : List (String × V)) (v : V) (s : Made)
    (c : ErrorClass)
    → all unlike members ≡ true
    → IsMade eq members s
    → (from_code eq members v s).0 ≡ ok c
    → contains resuming_name c.name ≡ false
from_code-unlike eq members v s c u h e = elim (Option-cases (name_of_value eq v members)) [
  | inr (n, member) ↦
      get_attr-unlike eq members n s c u h (rw (from_code_member eq members v n s member) at e)
  | inl unknown ↦ absurd (from_code_unknown eq members v s c unknown e)
]

translated-unlike :
    (original : Exn) (r : Result Exn ErrorClass)
    → ((c : ErrorClass) → r ≡ ok c → contains resuming_name c.name ≡ false)
    → is_resuming (translated original r) ≡ false
unfolding translated class_name contains resuming_name
translated-unlike original (ok c) h = h c refl
translated-unlike original _ h = refl

-- The factories have been used by nothing but their methods.
pub record IsWellMade (f : Factories) : Type 0 where
  pub mysql : IsMade ◌==◌ mysql_error_codes (mysql_made f)
  pub postgresql : IsMade text_eq postgresql_error_codes (postgresql_made f)

from_postgresql-unlike :
    (original : Exn) (found : Option (Text × Text)) (f : Factories)
    → IsWellMade f
    → is_resuming (from_postgresql original found f).0 ≡ false
unfolding from_postgresql class_name contains resuming_name postgresql_from_code
from_postgresql-unlike original none f h = refl
from_postgresql-unlike original (some (p, state)) f h = translated-unlike original _ (λ c e.
    from_code-unlike text_eq postgresql_error_codes state (postgresql_made f) c postgresql_unlike
      h.postgresql e)

from_mysql-unlike :
    (original : Exn) (found : Option (Text × Text)) (f : Factories)
    → IsWellMade f
    → is_resuming (from_mysql original found f).0 ≡ false
unfolding from_mysql mysql_from_code
from_mysql-unlike original none f h = from_postgresql-unlike original _ f h
from_mysql-unlike original (some (code, state)) f h = translated-unlike original _ (λ c e.
    from_code-unlike ◌==◌ mysql_error_codes (parse_nat code) (mysql_made f) c mysql_unlike h.mysql
      e)

-- No translated error looks like the exception of a resuming database.
pub translate-unlike :
    (original : Exn) (f : Factories)
    → IsWellMade f
    → is_resuming (translate_database_error original f).0 ≡ false
unfolding translate_database_error
translate-unlike original f h = from_mysql-unlike original _ f h

module _ {P : Platform} where
  begin_failed-unlike :
      (x : Exn) (env : Env P)
      → IsWellMade env.factories
      → is_instance x exception ≡ true
      → ¬ Retryable is_resuming (begin_failed {P = P} {A = Option Text} x env).0
  unfolding begin_failed raise_translated class_name contains resuming_name
  begin_failed-unlike x env made h bad = elim (Bool-cases (is_database_exception x)) [
    | inl db ↦ ground (arith, translate-unlike x env.factories made)
    | inr other ↦ ground arith
  ]

  keep_transaction-unlike :
      (tx : Option Text) (env : Env P) → ¬ Retryable is_resuming (keep_transaction tx env).0
  unfolding class_name contains resuming_name
  keep_transaction-unlike none env bad = ground arith
  keep_transaction-unlike (some tx) env bad = bad

  continue-unlike :
      (r : Result Exn (Option Text)) (env : Env P)
      → ¬ Retryable is_resuming r
      → ¬ Retryable is_resuming (continue r keep_transaction env).0
  continue-unlike (ok tx) env h = keep_transaction-unlike tx env
  continue-unlike (raised e) env h = h
  continue-unlike diverged env h = h

  begin-unlike :
      (env : Env P)
      → IsWellMade env.factories
      → ((x : Exn)
          → (P.begin_transaction (begin_args env.connection) env.world).0 ≡ raised x
          → is_instance x exception ≡ true)
      → ¬ Retryable is_resuming (begin_or_current none env).0
  unfolding begin_or_current
  begin-unlike env made h bad =
      elim (Result-cases (P.begin_transaction (begin_args env.connection) env.world).0) [
        | inl (tx, e) ↦ keep_transaction-unlike tx _ (rw (e, begin_or_current) at bad)
        | inr (inl (x, e)) ↦
            let env' : Env P = record env {
              world = (P.begin_transaction (begin_args env.connection) env.world).1;
            } in
            continue-unlike (begin_failed x env').0 (begin_failed {A = Option Text} x env').1
              (begin_failed-unlike x env' made (h x e)) (rw (e, begin_or_current) at bad)
        | inr (inr e) ↦ rw (e, begin_or_current) at bad
      ]

  start_transaction_once_lem :
      (env : Env P) (current : Option Text)
      → env.connection.transaction_id ≡ current
      → start_transaction_once env ≡ begin_or_current current env
  unfolding start_transaction_once
  start_transaction_once_lem env current e = rw (← e)

  -- If what begin_transaction raises is an Exception and the classes that the factories hold were
  -- made by them, then start_transaction does exactly what its body does in one run: the decorator
  -- never calls it again, not even for a resuming database.
  pub start_transaction_runs_once :
      (env : Env P)
      → IsWellMade env.factories
      → ((x : Exn)
          → (P.begin_transaction (begin_args env.connection) env.world).0 ≡ raised x
          → is_instance x exception ≡ true)
      → start_transaction env ≡ start_transaction_once env
  unfolding start_transaction
  start_transaction_runs_once env made h =
      retry_resuming_once sleeping start_transaction_once env
        (elim (Option-cases env.connection.transaction_id) [
          | inl idle ↦ rw (start_transaction_once_lem env none idle) (begin-unlike env made h)
          | inr (tx, active) ↦
              rw (start_transaction_once_lem env (some tx) active)
                (unfold begin_or_current in λ bad. bad)
        ])
