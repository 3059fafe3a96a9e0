-- ===== src/Audit/Sinks.antt =====
-- server/internal/audit/sink_http.go and sink_kinds.go: the destinations that the trail can be shipped to.
--
-- `parse_url` and `url_text` are net/url, and `template` is what Elasticsearch answers to the index template
-- of a data stream: none where it takes it. A document is written by `written`, encoding/json over an event
-- with the labels, and `header` writes the action of a bulk request. A client and its timeouts are left out.
use kubby.Prelude.{
  ℕ, suc, ◌⊎◌, inl, inr, Bool, ◌&&◌, ◌||◌, not, Option, none, some, List, [], ◌∷◌, ◌++◌, ltb, ◌==◌,
  if◌then◌else◌, length, codes, Text, text_eq, is_empty, trim_space,
}
use mathlib.Core.List.{reverse}
use kubby.Store.Models.{Bytes}

pub record SinkConfig : Type 0 where
  pub kind : Text
  pub url : Text
  pub index : Text
  pub username : Text
  pub token : Bytes
  pub scheme : Text
  pub insecure_skip_verify : Bool
  pub extra_labels : List (Text × Text)
  pub data_stream : Bool

pub record Url : Type 0 where
  pub scheme : Text
  pub host : Text
  pub path : Text

pub data SinkError : Type 0 where
  not_a_url no_host : SinkError
  wrong_scheme unknown_kind refused_template : Text → SinkError

pub record Sink : Type 0 where
  pub name : Text
  pub endpoint : Text
  pub config : SinkConfig

abbrev pub kind_elasticsearch : Text
kind_elasticsearch = codes "elasticsearch"

abbrev pub kind_loki : Text
kind_loki = codes "loki"

abbrev pub kind_http : Text
kind_http = codes "http"

abbrev pub default_audit_index : Text
default_audit_index = codes "kubby-audit"

abbrev drop_slash : Text → Text
drop_slash [] = []
drop_slash (c ∷ s) = if c == b'/' then s else c ∷ s

-- `strings.TrimSuffix(…, "/")`
abbrev without_slash : Text → Text
without_slash s = reverse (drop_slash (reverse s))

module _ (parse_url : Text → Option Url) (url_text : Url → Text)
    (template : Sink → Option Text) where
  unfoldable pub new_http_sink : Text → Text → SinkConfig → SinkError ⊎ Sink
  unfolding text_eq trim_space
  new_http_sink name path cfg = elim (parse_url (trim_space cfg.url)) [
    | none ↦ inl not_a_url
    | some base ↦
        if not (text_eq base.scheme (codes "http") || text_eq base.scheme (codes "https"))
        then inl (wrong_scheme base.scheme)
        else if is_empty base.host
        then inl no_host
        else inr (record {
          name = name;
          endpoint = url_text (record base { path = without_slash base.path ++ path });
          config = cfg;
        })
  ]

  abbrev answered : Sink → Option Text → SinkError ⊎ Sink
  answered sink none = inr sink
  answered sink (some e) = inl (refused_template e)

  -- The template is put before the first document.
  abbrev with_template : SinkConfig → SinkError ⊎ Sink → SinkError ⊎ Sink
  with_template cfg (inl e) = inl e
  with_template cfg (inr sink) = if cfg.data_stream then answered sink (template sink) else inr sink

  unfoldable pub new_sink : SinkConfig → SinkError ⊎ Sink
  unfolding text_eq new_http_sink
  new_sink cfg =
      if text_eq cfg.kind kind_elasticsearch
      then with_template cfg (new_http_sink kind_elasticsearch (codes "/_bulk") cfg)
      else if text_eq cfg.kind kind_loki
      then new_http_sink kind_loki (codes "/loki/api/v1/push") cfg
      else if text_eq cfg.kind kind_http
      then new_http_sink kind_http [] cfg
      else inl (unknown_kind cfg.kind)

abbrev pub index_of : SinkConfig → Text
index_of cfg = if is_empty (trim_space cfg.index) then default_audit_index else trim_space cfg.index

-- A data stream takes `create` and refuses `index`.
abbrev pub verb_of : SinkConfig → Text
verb_of cfg = if cfg.data_stream then codes "create" else codes "index"

module _ {A : Type 0} (header : Text → Text → Text) (written : A → Option Text) where
  abbrev with_document : Text → Option Text → Option Text → Option Text
  with_document action none rest = none
  with_document action (some document) none = none
  with_document action (some document) (some rest) =
      some (action ++ (10 ∷ (document ++ (10 ∷ rest))))

  abbrev bulk_lines : Text → List A → Option Text
  bulk_lines action [] = some []
  bulk_lines action (e ∷ es) = with_document action (written e) (bulk_lines action es)

  unfoldable pub encode_bulk : SinkConfig → List A → Option Text
  unfolding trim_space
  encode_bulk cfg events = bulk_lines (header (verb_of cfg) (index_of cfg)) events

  abbrev with_line : Option Text → Option Text → Option Text
  with_line none rest = none
  with_line (some line) none = none
  with_line (some line) (some rest) = some (line ++ (10 ∷ rest))

  unfoldable pub encode_ndjson : List A → Option Text
  encode_ndjson [] = some []
  encode_ndjson (e ∷ es) = with_line (written e) (encode_ndjson es)

-- The outcome of one document: its status, and the error as it stands in the answer.
pub record Outcome : Type 0 where
  pub status : ℕ
  pub error : Text

pub record BulkAnswer : Type 0 where
  pub errors : Bool
  pub items : List (List Outcome)

abbrev is_failure : Outcome → Bool
is_failure o = ltb o.status 200 || ltb 299 o.status

-- The count of the documents that failed, and the first of their errors that is not empty.
abbrev tally : List Outcome → ℕ × Text → ℕ × Text
tally [] t = t
tally (o ∷ os) t =
    let counted = tally os (suc t.0, if is_empty t.1 then o.error else t.1) in
    let passed = tally os t in if is_failure o then counted else passed

unfoldable pub tally_items : List (List Outcome) → ℕ × Text → ℕ × Text
tally_items [] t = t
tally_items (item ∷ items) t = tally_items items (tally item t)

-- The rejected documents, all of them, and the first error; an answer of another shape is accepted.
unfoldable pub bulk_errors : Option BulkAnswer → Option (ℕ × ℕ × Text)
unfolding tally_items
bulk_errors none = none
bulk_errors (some answer) =
    let (failed, first) = tally_items answer.items (0, []) in
    if not answer.errors || failed == 0 then none else some (failed, length answer.items, first)

pub data Authorisation : Type 0 where
  anonymous : Authorisation
  token_header : Text → Bytes → Authorisation
  basic_auth : Text → Bytes → Authorisation

unfoldable pub authorise : SinkConfig → Authorisation
unfolding text_eq
authorise cfg =
    if text_eq cfg.scheme (codes "bearer") && not (is_empty cfg.token)
    then token_header (codes "Bearer ") cfg.token
    else if text_eq cfg.scheme (codes "apikey") && not (is_empty cfg.token)
    then token_header (codes "ApiKey ") cfg.token
    else if not (is_empty cfg.username)
    then basic_auth cfg.username cfg.token
    else anonymous
