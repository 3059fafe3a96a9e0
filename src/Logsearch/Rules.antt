-- ===== src/Logsearch/Rules.antt =====
-- server/internal/logsearch/rules.go and fields.go: the rules that are shipped, how a line is summed up, and
-- the names of the fields.
--
-- A compiled expression is its text. `submatches` is package regexp: the groups of the first match in a
-- line, each with its name, which is empty where it has none.
use kubby.Prelude.{
  Bool, ◌||◌, Option, none, some, List, [], ◌∷◌, ◌++◌, if◌then◌else◌, any, codes, Text, text_eq,
  is_empty, trim_space,
}

abbrev pub class_auth : Text
class_auth = codes "auth"

abbrev pub class_unreachable : Text
class_unreachable = codes "unreachable"

abbrev pub class_timeout : Text
class_timeout = codes "timeout"

abbrev pub class_generic : Text
class_generic = codes "generic"

pub record Rule : Type 0 where
  pub name : Text
  pub class : Text
  pub phrases : List Text
  pub capture : List Text

abbrev rule : Text → Text → List Text → List Text → Rule
rule name class phrases capture = record {
  name = name;
  class = class;
  phrases = phrases;
  capture = capture;
}

abbrev pub default_rules : List Rule
default_rules =
    rule (codes "SQL Server") class_auth
      (codes ".SqlException"
        ∷ codes "SQLServerException"
        ∷ codes "Error Number:4060"
        ∷ codes "Error Number:18456"
        ∷ codes "Error Number:40613"
        ∷ codes "Cannot open database"
        ∷ codes "Login failed for user"
        ∷ [])
      (codes "database \"(?P<database>[^\"]+)\""
        ∷ codes "user '(?P<user>[^']+)'"
        ∷ codes "Error Number:(?P<code>\\d+)"
        ∷ [])
    ∷ rule (codes "PostgreSQL") class_generic
        (codes "PSQLException"
          ∷ codes "org.postgresql"
          ∷ codes "password authentication failed"
          ∷ codes "could not connect to server"
          ∷ [])
        (codes "(?P<reason>password authentication failed[^,.]*)"
          ∷ codes "database \"(?P<database>[^\"]+)\""
          ∷ [])
    ∷ rule (codes "JDBC connection pool") class_unreachable
        (codes "JDBCConnectionException"
          ∷ codes "Unable to acquire JDBC Connection"
          ∷ codes "HikariPool"
          ∷ codes "CannotCreateTransactionException"
          ∷ [])
        (codes "(?P<reason>Unable to acquire JDBC Connection)" ∷ [])
    ∷ rule (codes "Redis") class_unreachable
        (codes "RedisConnectionException"
          ∷ codes "RedisTimeoutException"
          ∷ codes "NOAUTH"
          ∷ codes "LOADING Redis"
          ∷ [])
        []
    ∷ rule (codes "RabbitMQ") class_unreachable
        (codes "BrokerUnreachableException" ∷ codes "ACCESS_REFUSED" ∷ codes "AMQP connection" ∷ [])
        []
    ∷ rule (codes "Kafka") class_unreachable
        (codes "Broker may not be available"
          ∷ codes "KafkaException"
          ∷ codes "NotLeaderForPartition"
          ∷ codes "GroupCoordinatorNotAvailable"
          ∷ [])
        []
    ∷ rule (codes "MongoDB") class_unreachable
        (codes "MongoConnectionException"
          ∷ codes "MongoTimeoutException"
          ∷ codes "MongoSocketException"
          ∷ [])
        []
    ∷ rule (codes "Connection refused") class_unreachable
        (codes "ECONNREFUSED"
          ∷ codes "connection refused"
          ∷ codes "no route to host"
          ∷ codes "EAI_AGAIN"
          ∷ codes "getaddrinfo"
          ∷ [])
        (codes "ECONNREFUSED (?P<address>[0-9a-fA-F:.\\[\\]]+:\\d+)"
          ∷ codes "dial tcp (?P<address>\\S+):"
          ∷ [])
    ∷ rule (codes "Timeout") class_timeout
        (codes "ETIMEDOUT"
          ∷ codes "i/o timeout"
          ∷ codes "connection timed out"
          ∷ codes "context deadline exceeded"
          ∷ [])
        []
    ∷ rule (codes "Application error") class_generic
        (codes "Exception" ∷ codes "FATAL" ∷ codes "panic:" ∷ codes "Traceback" ∷ []) []
    ∷ []

-- What is left out of a match: a group with no name, no text, or a name that was seen before.
abbrev detail_of : Text × Text → List Text → Bool
detail_of group seen =
    is_empty group.0 || is_empty group.1 || any (λ name. text_eq name group.0) seen

abbrev described : Text × Text → Text
described group = group.0 ++ (codes " " ++ group.1)

-- The groups of one match: the details, and the names that were seen then.
unfoldable pub details_in : List (Text × Text) → List Text → List Text × List Text
unfolding text_eq
details_in [] seen = ([], seen)
details_in (group ∷ groups) seen =
    let (skipped, seen_then) = details_in groups seen in
    let (details, seen') = details_in groups (group.0 ∷ seen) in
    if detail_of group seen then (skipped, seen_then) else (described group ∷ details, seen')

module _ (submatches : Text → Text → Option (List (Text × Text))) (message : Text) where
  abbrev groups_of : Option (List (Text × Text)) → List (Text × Text)
  groups_of none = []
  groups_of (some groups) = groups

  unfoldable pub details_of : List Text → List Text → List Text
  unfolding details_in
  details_of [] seen = []
  details_of (pattern ∷ patterns) seen =
      let (details, seen') = details_in (groups_of (submatches pattern message)) seen in
      details ++ details_of patterns seen'

  abbrev join : List Text → Text
  join [] = []
  join (t ∷ []) = t
  join (t ∷ u ∷ us) = t ++ (codes " · " ++ join (u ∷ us))

  unfoldable pub summarise : Rule → Text
  unfolding details_of
  summarise r = join (details_of r.capture [])

pub record Fields : Type 0 where
  pub timestamp : Text
  pub message : Text
  pub pod : Text
  pub namespace : Text
  pub container : Text

abbrev pub default_fields : Fields
default_fields = record {
  timestamp = codes "@timestamp";
  message = codes "log";
  pod = codes "kubernetes.pod_name";
  namespace = codes "kubernetes.namespace_name";
  container = codes "kubernetes.container_name";
}

abbrev or_default : Text → Text → Text
or_default value fallback = if is_empty (trim_space value) then fallback else value

unfoldable pub with_defaults : Fields → Fields
unfolding trim_space
with_defaults f = record {
  timestamp = or_default f.timestamp default_fields.timestamp;
  message = or_default f.message default_fields.message;
  pod = or_default f.pod default_fields.pod;
  namespace = or_default f.namespace default_fields.namespace;
  container = or_default f.container default_fields.container;
}
