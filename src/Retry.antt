-- ===== src/Retry.antt =====
-- retry.py: the decorator that calls again after a delay when an exception says that the database is
-- resuming. A delay is in seconds. Logging is not modelled.
pub mod Laws
pub mod Keeps
use aurora_data_api.Base.{
  ℕ, Bool, true, false, List, [], ◌∷◌, ◌++◌, ◌&&◌, ◌||◌, if◌then◌else◌, is_nonempty,
}
use aurora_data_api.Base.Text.{Text, codes, text_eq, contains}
use aurora_data_api.Base.Exec.{Result, Exec, ok, raised, diverged}
use aurora_data_api.Errors.Classes.{
  ExnClass, base_exception, value_error, type_error, Exn, new_exn, class_name, is_subclass,
  is_instance,
}

-- An object that may stand among `exceptions`: a class, a string, or anything else.
pub data Matcher : Type 0 where
  exception_type : ExnClass → Matcher
  type_name : Text → Matcher
  other_object : Matcher

-- The parameter `exceptions`: `None`, one object that is not iterated over (a class, a string, or an
-- object that cannot be), or an iterable.
pub data ExceptionsParam : Type 0 where
  nothing : ExceptionsParam
  single : Matcher → ExceptionsParam
  many : List Matcher → ExceptionsParam

abbrev bad_matcher : Exn
bad_matcher = new_exn type_error (codes "exceptions must be exception class(es) or string name(s)")

-- The loop over `_add`. The TypeError of an object that does not fit is caught, and the call of
-- `_add` on the whole iterable raises it again.
collect : List Matcher → List ExnClass → List Text → Result Exn (List ExnClass × List Text)
unfolding is_subclass
collect [] types names = ok (types, names)
collect (exception_type c ∷ items) types names =
    if is_subclass c base_exception
    then collect items (types ++ (c ∷ [])) names
    else raised bad_matcher
collect (type_name n ∷ items) types names = collect items types (names ++ (n ∷ []))
collect (other_object ∷ items) types names = raised bad_matcher

-- `_normalize_exceptions`
pub normalize_exceptions : ExceptionsParam → Result Exn (List ExnClass × List Text)
unfolding collect
normalize_exceptions nothing =
    raised (new_exn value_error (codes "exceptions must be provided (type(s) or name(s))"))
normalize_exceptions (single m) = collect (m ∷ []) [] []
normalize_exceptions (many items) = collect items [] []

-- `isinstance(exc, exc_types)`
any_instance : Exn → List ExnClass → Bool
any_instance e [] = false
any_instance e (c ∷ types) = is_instance e c || any_instance e types

-- `name in exc_names`
any_equal : Text → List Text → Bool
any_equal name [] = false
any_equal name (n ∷ names) = text_eq name n || any_equal name names

-- `any(n in name for n in exc_names)`
any_within : Text → List Text → Bool
any_within name [] = false
any_within name (n ∷ names) = contains n name || any_within name names

-- `_should_retry`
pub should_retry : Exn → List ExnClass → List Text → Bool
unfolding any_instance any_equal any_within
should_retry exc types names =
    if is_nonempty types && any_instance exc types
    then true
    else is_nonempty names && any_equal (class_name exc.cls) names
      || any_within (class_name exc.cls) names

module _ {S A : Type 0} (retryable : Exn → Bool) (sleep : ℕ → S → S) (fn : Exec Exn S A) where
  -- The loop of `sync_wrapper` and of `async_wrapper`, over the delays that are left. `raise` hands
  -- the exception on when there is none.
  pub attempts : List ℕ → Exec Exn S A
  attempts [] s = fn s
  attempts (delay ∷ delays) s =
      let (r, s') = fn s in
      elim r [
        | ok a ↦ (ok a, s')
        | raised e ↦
            let again = attempts delays (sleep delay s') in
            if retryable e then again else (raised e, s')
        | diverged ↦ (diverged, s')
      ]

-- `retry_exceptions(*delays, exceptions=…)`, as a function of the decorated callable.
pub retry_exceptions :
    {S A : Type 0}
    → List ℕ
    → ExceptionsParam
    → (ℕ → S → S)
    → Exec Exn S A
    → Result Exn (Exec Exn S A)
unfolding normalize_exceptions should_retry attempts
retry_exceptions delays exceptions sleep fn = elim (normalize_exceptions exceptions) [
  | ok (types, names) ↦ ok (attempts (λ e. should_retry e types names) sleep fn delays)
  | raised e ↦ raised e
  | diverged ↦ diverged
]

unfoldable pub resuming_name : Text
resuming_name = codes "DatabaseResumingException"

abbrev pub resuming_delays : List ℕ
resuming_delays = 4 ∷ 2 ∷ 2 ∷ 4 ∷ []

-- What `@retry_exceptions(4, 2, 2, 4, exceptions="DatabaseResumingException")` makes of a method.
unfoldable pub retry_resuming : {S A : Type 0} → (ℕ → S → S) → Exec Exn S A → Exec Exn S A
unfolding should_retry attempts
retry_resuming sleep fn =
    attempts (λ e. should_retry e [] (resuming_name ∷ [])) sleep fn resuming_delays
