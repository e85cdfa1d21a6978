-- ===== src/Tests/Configs.antt =====
-- A configuration of one source and one destination.
use postie.Prelude.{◌≡◌, ◌↔◌, none, some, [], ◌∷◌, pos}
use postie.Config
use postie.Config.{Application, Engine, validate_application, validate_engine}
use postie.Config.Validity.{IsValid, validate_application-IsValid}
use postie.Config.Defaults.{HasDefaults, IsRunnable, validate_engine-IsRunnable}

abbrev pub orders : Config.Source
orders = record {
  id = "orders";
  description = "orders of the shop";
  type = "postgres";
  host = "db";
  port = pos 5432;
  username = "postie";
  password = "";
  database = "shop";
  table = "orders";
  columns = "n" ∷ "body" ∷ [];
  serial_column = "n";
  partitioning_column = "n";
}

abbrev pub application : Application
application = record {
  sources = orders ∷ [];
  destinations =
      record {
        id = "mail";
        description = "mails to customers";
        type = "http-push";
        endpoint = "http://mail";
        username = "postie";
        password = "";
        sources = "orders" ∷ [];
        filter = some (record { column = "body"; values = "paid" ∷ [] });
      }
      ∷ [];
}

abbrev engine : Engine
engine = record {
  version = pos 1;
  namespace = "shop";
  environment = "production";
  application_config = "application.yaml";
  brokers = "kafka:9092" ∷ [];
  partitions = pos 0;
  replication_factor = pos 3;
  connect_url = "http://connect";
  listen = ":8080";
  token_file = "";
  database_url = "postgres://control";
  request_timeout = pos 0;
  drain_timeout = pos 0;
  sources = [];
}

validate_application-IsValid_example :
    (validate_application application ≡ none) ↔ IsValid application
validate_application-IsValid_example = validate_application-IsValid application

validate_engine-IsRunnable_example :
    HasDefaults engine (validate_engine engine).0
    × (((validate_engine engine).1 ≡ none) ↔ IsRunnable (validate_engine engine).0)
    × (validate_engine (validate_engine engine).0 ≡ validate_engine engine)
validate_engine-IsRunnable_example = validate_engine-IsRunnable engine
