-- ===== src/Parser.antt =====
-- internal/parser/arguments.go: the arguments of the API and of the loader.
use cars.Base.{
  ◌≡◌, ◌⊎◌, inl, inr, refl, Bool, true, false, Bool-cases, List, [], ◌∷◌, Text, txt, All,
}
use cars.Base.Int.{ℤ, pos}
use cars.Base.Outcome.{Outcome, ok}

-- `Arguments`.
pub record Arguments : Type 0 where
  pub database_conn : Text
  pub max_concurrent_containers : ℤ
  pub wait_time_seconds : ℤ
  pub sqs_queue : Text
  pub s3_bucket_name : Text
  pub nsq_address : Text
  pub nsq_channel : Text
  pub nsq_port : ℤ
  pub nsq_topic : Text

-- A flag: how it stores a value into its variable, its name, and its default.
pub data Flag : Type 0 where
  string_var : (Text → Arguments → Arguments) → Text → Text → Flag
  int_var : (ℤ → Arguments → Arguments) → Text → ℤ → Flag

-- `args := Arguments{}`.
abbrev pub zero_arguments : Arguments
zero_arguments = record {
  database_conn = [];
  max_concurrent_containers = pos 0;
  wait_time_seconds = pos 0;
  sqs_queue = [];
  s3_bucket_name = [];
  nsq_address = [];
  nsq_channel = [];
  nsq_port = pos 0;
  nsq_topic = [];
}

abbrev default_connection : Text
default_connection =
    txt "host=database user=root password=root port=54320 dbname=compile TimeZone=UTC"

-- The flags that are defined, in their order.
abbrev pub configuration_flags : List Flag
configuration_flags =
    string_var (λ t a. record a { database_conn = t }) (txt "database-connection-string")
      default_connection
    ∷ int_var (λ n a. record a { max_concurrent_containers = n }) (txt "max-concurrent-containers")
        (pos 5)
    ∷ int_var (λ n a. record a { max_concurrent_containers = n }) (txt "wait-time-seconds") (pos 10)
    ∷ string_var (λ t a. record a { sqs_queue = t }) (txt "sqs-queue") []
    ∷ string_var (λ t a. record a { s3_bucket_name = t }) (txt "s3-bucket") []
    ∷ string_var (λ t a. record a { nsq_address = t }) (txt "nsq-address") (txt "nsqd")
    ∷ string_var (λ t a. record a { nsq_channel = t }) (txt "nsq-channel") (txt "main")
    ∷ int_var (λ n a. record a { nsq_port = n }) (txt "nsq-port") (pos 4150)
    ∷ string_var (λ t a. record a { nsq_topic = t }) (txt "nsq-topic") (txt "containers")
    ∷ []

-- `ParseDefaultConfigurationArguments`; `flags` is the package that defines the flags and parses the
-- command line and the environment.
unfoldable pub parse_default_configuration_arguments :
    (List Flag → Arguments → Outcome Arguments) → Outcome Arguments
parse_default_configuration_arguments flags = flags configuration_flags zero_arguments

-- The variables after the definitions, which store the defaults in them.
abbrev pub with_defaults : List Flag → Arguments → Arguments
with_defaults [] a = a
with_defaults (string_var set name value ∷ fs) a = with_defaults fs (set value a)
with_defaults (int_var set name value ∷ fs) a = with_defaults fs (set value a)

-- What a flag keeps, whatever value it stores.
abbrev pub KeptBy : (Arguments → Type 0) → Flag → Type 0
KeptBy P (string_var set name value) = (t : Text) (a : Arguments) → P a → P (set t a)
KeptBy P (int_var set name value) = (n : ℤ) (a : Arguments) → P a → P (set n a)

-- The documented behaviour of the package: the variables start with the defaults, and keep them if
-- no flag is given; and they change only by values that are stored through the flags.
pub record IsFlagPackage (flags : List Flag → Arguments → Outcome Arguments) (given : Bool)
    : Type 1 where
  pub defaults :
      (fs : List Flag) (a : Arguments) → given ≡ false → flags fs a ≡ ok (with_defaults fs a)
  pub stores :
      (P : Arguments → Type 0) (fs : List Flag) (a a' : Arguments)
      → flags fs a ≡ ok a'
      → All (KeptBy P) fs
      → P (with_defaults fs a)
      → P a'

-- Whatever flags are given, the wait time of the arguments is zero. If no flag is given, then ten
-- containers may run at the same time, which is the default of the flag for the wait time, and not
-- five, the default of the flag for the containers.
pub parse_default_configuration_arguments_lem :
    (flags : List Flag → Arguments → Outcome Arguments) (given : Bool) (a : Arguments)
    → IsFlagPackage flags given
    → parse_default_configuration_arguments flags ≡ ok a
    → (a.wait_time_seconds ≡ pos 0) × ((given ≡ true) ⊎ (a.max_concurrent_containers ≡ pos 10))
unfolding parse_default_configuration_arguments
parse_default_configuration_arguments_lem flags given a lawful h = (
  lawful.stores (λ x. x.wait_time_seconds ≡ pos 0) configuration_flags zero_arguments a h
      (
        (λ t x e. e),
        (
          (λ t x e. e),
          (
            (λ t x e. e),
            (
              (λ t x e. e),
              ((λ t x e. e), ((λ t x e. e), ((λ t x e. e), ((λ t x e. e), ((λ t x e. e), tt))))),
            ),
          ),
        ),
      )
      refl,
  elim (Bool-cases given) [
    | inl some_given ↦ inl some_given
    | inr none_given ↦ inr (max_eq (lawful.defaults configuration_flags zero_arguments none_given))
  ],
)
  where
    max_eq :
        flags configuration_flags zero_arguments
          ≡ ok (with_defaults configuration_flags zero_arguments)
        → a.max_concurrent_containers ≡ pos 10
    max_eq e = cc (e, h)
