-- ===== src/Tests/Loading.antt =====
-- A configuration that is loaded from an environment.
use kubby.Prelude.{refl, true, none, some, [], ◌∷◌, if◌then◌else◌, codes, Text, text_eq}
use kubby.Config.{Environment}
use kubby.Config.Load.{load, load_all}
use kubby.Config.Checked.{IsSafe, load-IsSafe}
use kubby.Tests.Data.{zeros}

abbrev variable : Text → Text
variable key =
    if text_eq key (codes "KUBBY_DB_PASSWORD")
    then codes "hunter2"
    else if text_eq key (codes "KUBBY_ENCRYPTION_KEY")
    then codes "key"
    else []

abbrev environment : Environment
environment = record {
  getenv = variable;
  readable = λ path. true;
  float32 = λ n. n;
  parse_url = λ raw. some (record { scheme = codes "http"; host = codes "localhost" });
  parse_bool = λ v. none;
  atoi = λ v. none;
  parse_duration = λ v. none;
  base64 = λ v. some (1 ∷ zeros 31);
}

load-IsSafe_example : IsSafe environment (load_all environment).0
unfolding load
load-IsSafe_example = load-IsSafe environment {config = (load_all environment).0} refl
