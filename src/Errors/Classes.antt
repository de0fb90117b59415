-- ===== src/Errors/Classes.antt =====
-- Exception objects and their classes: the DB-API hierarchy of exceptions/exceptions.py, the classes
-- that the error factories make, and those of the AWS client and of Python that the package meets.
use aurora_data_api.Base.{ℕ, Bool, false, Option, none, List, [], ◌∷◌, ◌||◌}
use aurora_data_api.Base.Text.{Text, codes, text_eq}

-- A class made by `type(name, (DatabaseError,), {})`. Two classes are one object only if they were
-- made by one call, so each carries the number of its call.
pub record ErrorClass : Type 0 where
  pub serial : ℕ
  pub name : Text

pub data ExnClass : Type 0 where
  base_exception exception : ExnClass
  -- classes of `client.exceptions`
  client_error bad_request database_error_exception unsupported_result database_resuming : ExnClass
  -- any other subclass of `Exception`, and any other of `BaseException` alone, by its name
  other_exception other_base_exception : Text → ExnClass
  key_error index_error type_error attribute_error value_error : ExnClass
  -- exceptions/exceptions.py
  warning error interface_error database_error data_error operational_error : ExnClass
  integrity_error internal_error programming_error not_supported_error : ExnClass
  -- made by `MySQLError` or `PostgreSQLError`
  from_factory : ErrorClass → ExnClass

-- `cls.__name__`
unfoldable pub class_name : ExnClass → Text
class_name base_exception = codes "BaseException"
class_name exception = codes "Exception"
class_name client_error = codes "ClientError"
class_name bad_request = codes "BadRequestException"
class_name database_error_exception = codes "DatabaseErrorException"
class_name unsupported_result = codes "UnsupportedResultException"
class_name database_resuming = codes "DatabaseResumingException"
class_name (other_exception name) = name
class_name (other_base_exception name) = name
class_name key_error = codes "KeyError"
class_name index_error = codes "IndexError"
class_name type_error = codes "TypeError"
class_name attribute_error = codes "AttributeError"
class_name value_error = codes "ValueError"
class_name warning = codes "Warning"
class_name error = codes "Error"
class_name interface_error = codes "InterfaceError"
class_name database_error = codes "DatabaseError"
class_name data_error = codes "DataError"
class_name operational_error = codes "OperationalError"
class_name integrity_error = codes "IntegrityError"
class_name internal_error = codes "InternalError"
class_name programming_error = codes "ProgrammingError"
class_name not_supported_error = codes "NotSupportedError"
class_name (from_factory c) = c.name

-- The class and its ancestors, up to `BaseException`.
abbrev exception_bases : List ExnClass
exception_bases = exception ∷ base_exception ∷ []

abbrev client_bases : List ExnClass
client_bases = client_error ∷ exception_bases

abbrev error_bases : List ExnClass
error_bases = error ∷ exception_bases

abbrev database_error_bases : List ExnClass
database_error_bases = database_error ∷ error_bases

pub ancestors : ExnClass → List ExnClass
ancestors base_exception = base_exception ∷ []
ancestors exception = exception_bases
ancestors client_error = client_bases
ancestors bad_request = bad_request ∷ client_bases
ancestors database_error_exception = database_error_exception ∷ client_bases
ancestors unsupported_result = unsupported_result ∷ client_bases
ancestors database_resuming = database_resuming ∷ client_bases
ancestors (other_exception name) = other_exception name ∷ exception_bases
ancestors (other_base_exception name) = other_base_exception name ∷ base_exception ∷ []
ancestors key_error = key_error ∷ exception_bases
ancestors index_error = index_error ∷ exception_bases
ancestors type_error = type_error ∷ exception_bases
ancestors attribute_error = attribute_error ∷ exception_bases
ancestors value_error = value_error ∷ exception_bases
ancestors warning = warning ∷ exception_bases
ancestors error = error_bases
ancestors interface_error = interface_error ∷ error_bases
ancestors database_error = database_error_bases
ancestors data_error = data_error ∷ database_error_bases
ancestors operational_error = operational_error ∷ database_error_bases
ancestors integrity_error = integrity_error ∷ database_error_bases
ancestors internal_error = internal_error ∷ database_error_bases
ancestors programming_error = programming_error ∷ database_error_bases
ancestors not_supported_error = not_supported_error ∷ database_error_bases
ancestors (from_factory c) = from_factory c ∷ database_error_bases

-- What tells one class object from another.
class_key : ExnClass → List ℕ
class_key base_exception = 0 ∷ []
class_key exception = 1 ∷ []
class_key client_error = 2 ∷ []
class_key bad_request = 3 ∷ []
class_key database_error_exception = 4 ∷ []
class_key unsupported_result = 5 ∷ []
class_key database_resuming = 6 ∷ []
class_key (other_exception name) = 7 ∷ name
class_key (other_base_exception name) = 8 ∷ name
class_key key_error = 9 ∷ []
class_key index_error = 10 ∷ []
class_key type_error = 11 ∷ []
class_key attribute_error = 12 ∷ []
class_key value_error = 13 ∷ []
class_key warning = 14 ∷ []
class_key error = 15 ∷ []
class_key interface_error = 16 ∷ []
class_key database_error = 17 ∷ []
class_key data_error = 18 ∷ []
class_key operational_error = 19 ∷ []
class_key integrity_error = 20 ∷ []
class_key internal_error = 21 ∷ []
class_key programming_error = 22 ∷ []
class_key not_supported_error = 23 ∷ []
class_key (from_factory c) = 24 ∷ c.serial ∷ []

unfoldable pub same_class : ExnClass → ExnClass → Bool
unfolding class_key
same_class c d = text_eq (class_key c) (class_key d)

member : ExnClass → List ExnClass → Bool
unfolding same_class
member c [] = false
member c (d ∷ ds) = same_class c d || member c ds

-- `issubclass(c, d)`
unfoldable pub is_subclass : ExnClass → ExnClass → Bool
unfolding member ancestors
is_subclass c d = member d (ancestors c)

-- The `response` attribute of a client error: `{"Error": {"Message": …}}`, each part optional.
pub record ErrorEntry : Type 0 where
  pub message : Option Text

pub record ErrorResponse : Type 0 where
  pub error_entry : Option ErrorEntry

-- An exception object: its class, `str(e)`, and its attribute `response` if it has one.
pub record Exn : Type 0 where
  pub cls : ExnClass
  pub message : Text
  pub response : Option ErrorResponse

-- `isinstance(e, cls)`
unfoldable pub is_instance : Exn → ExnClass → Bool
unfolding is_subclass
is_instance e c = is_subclass e.cls c

-- `cls(message)`
abbrev pub new_exn : ExnClass → Text → Exn
new_exn c text = record { cls = c; message = text; response = none }

-- `DatabaseError(e)`: its text is that of `e`.
abbrev pub database_error_from : Exn → Exn
database_error_from e = new_exn database_error e.message
