-- ===== src/Tests/Pasting.antt =====
-- A pasted kubeconfig at concrete inputs.
use kubby.Prelude.{
  ℕ, ◌≡◌, refl, ◌⊎◌, inr, true, false, none, some, [], ◌∷◌, ◌==◌, length, any, All, codes, Text,
}
use kubby.Store.Models.{Bytes}
use kubby.Cluster.Ssrf.{Resolver, AddressPolicy}
use kubby.Cluster.Kubeconfig.{
  AuthInfo, Config, ContextInfo, ParsedKubeconfig, Outcome, usable, parse_kubeconfig, select,
}
use kubby.Cluster.Kubeconfig.Accepted.{IsPlain, parse_kubeconfig-IsPlain}

abbrev pub pasted : Bytes
pasted = codes "apiVersion: v1"

-- Addresses are numbers, and 127 the loopback.
abbrev pub net : Resolver ℕ
net = record {
  parse_url = λ s. some (record { scheme = codes "https"; hostname = s });
  parse_ip = λ s. some (length s);
  lookup_ip = λ s. inr [];
  is_loopback = λ ip. ip == 127;
  parse_cidr = λ s. some (λ ip. ip == 169);
  ip_text = λ ip. ip ∷ [];
  quoted = λ s. s;
}

abbrev plain_user : AuthInfo
plain_user = record {
  exec = none;
  auth_provider = none;
  token = codes "token";
  token_file = [];
  client_certificate_data = [];
  client_certificate = [];
  username = [];
}

abbrev config : Config
config = record {
  contexts =
      (codes "main", some (record { cluster = codes "k"; auth_info = codes "u"; namespace = [] }))
      ∷ [];
  clusters =
      (
        codes "k",
        record {
          server = codes "k8s";
          insecure_skip_tls_verify = false;
          certificate_authority_data = [];
          certificate_authority = [];
        },
      )
      ∷ [];
  auth_infos = (codes "u", plain_user) ∷ [];
  current_context = codes "main";
}

abbrev pub load : Bytes → Text ⊎ Config
load raw = inr config

abbrev policy : AddressPolicy
policy = record { allow_loopback = false }

abbrev pub pick : Bytes → Text → Outcome ContextInfo
pick = select net policy load

abbrev main_context : ContextInfo
main_context = record {
  name = codes "main";
  cluster_name = codes "k";
  user_name = codes "u";
  server = codes "k8s";
  namespace = [];
  auth_method = codes "token";
  insecure_skip_tls_verify = false;
  has_certificate_authority = false;
  blocked = false;
  problem = [];
}

abbrev parsed : ParsedKubeconfig
parsed = record { contexts = main_context ∷ []; current_context = codes "main"; raw = pasted }

parse_kubeconfig-IsPlain_example :
    (c : Config) × (load pasted ≡ inr c)
    × All IsPlain c.auth_infos
    × (any usable parsed.contexts ≡ true)
    × (pasted ≡ pasted)
unfolding parse_kubeconfig
parse_kubeconfig-IsPlain_example = parse_kubeconfig-IsPlain net policy load pasted {p = parsed} refl
