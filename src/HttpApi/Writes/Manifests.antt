-- ===== src/HttpApi/Writes/Manifests.antt =====
-- server/internal/httpapi/write_handlers.go: reading, applying and deleting objects.
--
-- `yaml` decodes a document: an error's text, or the object, none where the document is empty.
use kubby.Prelude.{
  ℕ, zero, suc, ◌-◌, String, ◌⊎◌, inl, inr, Bool, true, false, ◌||◌, Option, none, some, List, [],
  ◌∷◌, ◌++◌, str_eq, ◌==◌, if◌then◌else◌, length, drop, codes, Text, is_empty, trim_space,
  has_prefix,
}
use mathlib.Core.List.{reverse}
use kubby.Store.Models.{User, Uuid}
use kubby.Store.Registry.{Cluster}
use kubby.Cluster.Types.{ResourceType, lookup_type, lookup_kind}
use kubby.Cluster.WriteGuard.{update, owner_of, GitOpsOwner}
use kubby.Cluster.WriteGuard
use kubby.HttpApi.Resources.{CallError, told}
use kubby.HttpApi.Writes.{
  Propagation, background, foreground, orphan, Object, Operation, apply, object_applied,
  object_deleted, Entry, Applied, rejected, unknown_kind, accepted, Reply, turned_away, results,
  Handler, pure, leave, ◌>>=◌, ◌>>◌, refuse, refuse_if, Calls, request_for, authorise_write,
  object_of, send, record_write, entry, perform_on, cluster_error, known,
}

-- `strings.Split s sep`; `skip` counts what is left of a separator that was found.
unfoldable pub split_text : Text → ℕ → Text → List Text
unfolding has_prefix
split_text sep skip [] = [] ∷ []
split_text sep (suc skip) (c ∷ s) = split_text sep skip s
split_text sep zero (c ∷ s) =
    let behind = split_text sep (length sep - 1) s in
    let parts = split_text sep zero s in
    if has_prefix (c ∷ s) sep
    then [] ∷ behind
    else elim parts [ [] ↦ (c ∷ []) ∷ [] | part ∷ others ↦ (c ∷ part) ∷ others ]

abbrev trim_prefix : Text → Text → Text
trim_prefix s p = if has_prefix s p then drop (length p) s else s

abbrev pub Yaml : Type 0
Yaml = Text → Text ⊎ Option Object

abbrev document_of : Text → Text
document_of chunk = trim_space (trim_prefix (trim_space chunk) (codes "---"))

-- The object of a document, where it holds one.
abbrev checked_object : Object → Text ⊎ Option Object
checked_object o =
    if str_eq o.kind "" || str_eq o.api_version ""
    then inl (codes "every document needs an apiVersion and a kind")
    else inr (some o)

abbrev decoded : Text ⊎ Option Object → Text ⊎ Option Object
decoded (inl e) = inl (codes "the manifest is not valid YAML: " ++ e)
decoded (inr none) = inr none
decoded (inr (some o)) = checked_object o

abbrev object_in : Yaml → Text → Text ⊎ Option Object
object_in yaml document = if is_empty document then inr none else decoded (yaml document)

abbrev with_object : Option Object → Text ⊎ List Object → Text ⊎ List Object
with_object o (inl e) = inl e
with_object none (inr os) = inr os
with_object (some o) (inr os) = inr (o ∷ os)

-- The loop, which ends at the first document that is refused.
unfoldable pub objects_of : Yaml → List Text → Text ⊎ List Object
unfolding trim_space has_prefix
objects_of yaml [] = inr []
objects_of yaml (chunk ∷ chunks) =
    let rest = objects_of yaml chunks in
    elim (object_in yaml (document_of chunk)) [ inl e ↦ inl e | inr o ↦ with_object o rest ]

unfoldable pub split_manifest : Yaml → Text → Text ⊎ List Object
unfolding split_text objects_of
split_manifest yaml manifest = objects_of yaml (split_text (10 ∷ codes "---") 0 manifest)

abbrev drop_slashes : Text → Text
drop_slashes [] = []
drop_slashes (c ∷ s) = let rest = drop_slashes s in if c == b'/' then rest else c ∷ s

-- `strings.Trim(…, "/")`
abbrev pub trim_slashes : Text → Text
trim_slashes s = reverse (drop_slashes (reverse (drop_slashes s)))

unfoldable pub type_of : Text → Object → Option ResourceType
type_of type_key o =
    if is_empty type_key then lookup_kind o.group o.version o.kind else lookup_type type_key

abbrev pub owner : Object → Option GitOpsOwner
owner o = owner_of o.labels o.annotations

unfoldable pub propagation_from : String → Propagation
propagation_from raw =
    if str_eq raw "Foreground"
    then foreground
    else if str_eq raw "Orphan"
    then orphan
    else background

module _ (calls : Calls) (global_read_only : Bool) (user : User) (param : Option Uuid) where
  abbrev pub record_unless : Bool → Entry → Handler (Unit {0})
  record_unless true e = pure tt
  record_unless false e = record_write calls global_read_only user param e

  -- What is told of the document, and recorded unless the run is dry.
  abbrev pub outcome_of :
      Cluster → ResourceType → Object → Bool → CallError ⊎ Text → Handler Applied
  outcome_of c type o dry_run (inl e) = do
    record_unless dry_run (
        entry calls global_read_only user param object_applied false c type o.namespace
          (codes o.name) none)
    pure (rejected o.kind o.name e)
  outcome_of c type o dry_run (inr diff) = do
    record_unless dry_run (
        entry calls global_read_only user param object_applied true c type o.namespace
          (codes o.name) (owner o))
    pure (accepted o diff (owner o))

  unfoldable pub apply_to : ResourceType → Object → Bool → Handler Applied
  unfolding authorise_write
  apply_to type o dry_run = do
    let request = request_for type o.namespace o.name update
    c ← authorise_write calls global_read_only user param request
    r ←
        send calls global_read_only user param c request (object_of type o.namespace o.name)
          (apply o.manifest dry_run)
    outcome_of c type o dry_run r

  unfoldable pub apply_typed : Object → Bool → Option ResourceType → Handler Applied
  unfolding apply_to
  apply_typed o dry_run none = pure (unknown_kind o.kind o.name)
  apply_typed o dry_run (some type) = apply_to type o dry_run

  unfoldable pub apply_one : Text → Bool → Object → Handler Applied
  unfolding apply_typed type_of
  apply_one type_key dry_run o = apply_typed o dry_run (type_of type_key o)

  unfoldable pub apply_all : Text → Bool → List Object → Handler (List Applied)
  unfolding apply_one
  apply_all type_key dry_run [] = pure []
  apply_all type_key dry_run (o ∷ os) = do
    first ← apply_one type_key dry_run o
    rest ← apply_all type_key dry_run os
    pure (first ∷ rest)

  abbrev pub some_objects : Text ⊎ List Object → Handler (List Object)
  some_objects (inl e) = leave (turned_away (told 400 e))
  some_objects (inr []) = refuse 400 "the manifest is empty"
  some_objects (inr (o ∷ os)) = pure (o ∷ os)

  unfoldable pub apply_object : Yaml → Text → Text → Bool → Handler Reply
  unfolding split_manifest apply_all
  apply_object yaml url_key manifest dry_run = do
    os ← some_objects (split_manifest yaml manifest)
    applied ← apply_all (trim_slashes url_key) dry_run os
    pure (results applied dry_run)

  unfoldable pub delete_object : Text → String → String → String → Handler Reply
  unfolding perform_on
  delete_object url_key namespace name propagation = do
    refuse_if (str_eq name "") 400 "name is required"
    type ← known (lookup_type (trim_slashes url_key)) 404 "unknown resource type"
    perform_on calls global_read_only user param object_deleted cluster_error WriteGuard.delete
        (Operation.delete (propagation_from propagation)) type namespace name (λ result. codes name)
