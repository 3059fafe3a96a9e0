-- ===== src/Audit/Manager.antt =====
-- server/internal/audit/manager.go: the shipper that runs, and how it is swapped. The proofs are in
-- Audit/Manager/Swapping.
--
-- A shipper is the sink that it sends to; Audit/Shipper is what it does with events. `closed` is the sinks
-- whose shipper was drained, newest last. Extra labels are compared as maps.
pub mod Swapping
use kubby.Prelude.{
  ◌⊎◌, inl, inr, Bool, true, false, ◌&&◌, not, Option, none, some, List, [], ◌∷◌, ◌++◌, ◌==◌,
  if◌then◌else◌, length, Text, text_eq,
}
use kubby.Audit.Sinks.{SinkConfig, Url, SinkError, Sink, new_sink}

pub record Manager : Type 0 where
  pub current : Option Sink
  pub config : SinkConfig
  pub enabled : Bool
  pub closed : List Sink

abbrev pub same_bool : Bool → Bool → Bool
same_bool true b = b
same_bool false b = not b

-- `labels[key]`, empty where the key is missing.
abbrev pub label_of : Text → List (Text × Text) → Text
label_of key [] = []
label_of key (l ∷ ls) = let rest = label_of key ls in if text_eq l.0 key then l.1 else rest

abbrev pub same_labels : List (Text × Text) → List (Text × Text) → Bool
same_labels [] bs = true
same_labels (l ∷ ls) bs = text_eq (label_of l.0 bs) l.1 && same_labels ls bs

unfoldable pub same_config : SinkConfig → SinkConfig → Bool
unfolding text_eq
same_config a b =
    text_eq a.kind b.kind
    && text_eq a.url b.url
    && text_eq a.index b.index
    && text_eq a.username b.username
    && text_eq a.token b.token
    && text_eq a.scheme b.scheme
    && same_bool a.insecure_skip_verify b.insecure_skip_verify
    && length a.extra_labels == length b.extra_labels
    && same_labels a.extra_labels b.extra_labels

abbrev drained : Option Sink → List Sink
drained none = []
drained (some sink) = sink ∷ []

abbrev pub swapped : Option Sink → Bool → SinkConfig → Manager → Manager
swapped next enabled cfg m = record {
  current = next;
  config = cfg;
  enabled = enabled;
  closed = m.closed ++ drained m.current;
}

module _ (parse_url : Text → Option Url) (url_text : Url → Text)
    (template : Sink → Option Text) where
  abbrev pub started : Bool → SinkConfig → SinkError ⊎ Sink → Manager → Option SinkError × Manager
  started enabled cfg (inl e) m = (some e, m)
  started enabled cfg (inr sink) m = (none, swapped (some sink) enabled cfg m)

  unfoldable pub apply : Bool → SinkConfig → Manager → Option SinkError × Manager
  unfolding same_config new_sink
  apply enabled cfg m =
      if same_bool m.enabled enabled && same_config m.config cfg
      then (none, m)
      else if enabled
      then started enabled cfg (new_sink parse_url url_text template cfg) m
      else (none, swapped none enabled cfg m)

unfoldable pub close : Manager → Manager
close m = record m { current = none; closed = m.closed ++ drained m.current }
