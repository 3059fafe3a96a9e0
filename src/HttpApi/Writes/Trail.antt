-- ===== src/HttpApi/Writes/Trail.antt =====
-- What a request to write changed is in the trail (server/internal/httpapi/write_handlers.go and
-- operation_handlers.go).
use kubby.HttpApi.Writes.{
  Object, Operation, apply, Sent, Action, Entry, Reply, World, ◌>>=◌, Calls, request_for,
  authorise_write, object_of, send, ended, perform_on,
}
use kubby.HttpApi.Writes.Manifests.{Yaml, outcome_of, apply_to}
use kubby.HttpApi.Writes.Requests.{WriteCall, handle}
use kubby.HttpApi.Writes.Steps.{is_dry, Keeps, authorised-Keeps, handle-Keeps}
use kubby.HttpApi.Writes.Gate.{authorise_write-keeps}
use mathlib.Core.List.{append-nil}
use kubby.Prelude.{
  String, ◌≡◌, refl, ap, ◌⊎◌, inl, inr, Bool, true, false, not, Option, List, [], ◌∷◌, ◌++◌, map,
  arith, Text,
}
use kubby.Cluster.Types.{ResourceType}
use kubby.Cluster.WriteGuard.{update, WriteRequest}
use kubby.HttpApi.Resources.{CallError}
use kubby.Store.Models.{User, Uuid}
use kubby.Store.Registry.{Cluster}
use kubby.Store.Db.{select}

abbrev pub entry_place : Entry → Uuid × String
entry_place e = (e.cluster, e.namespace)

abbrev pub sent_place : Sent → Uuid × String
sent_place s = (s.cluster, s.request.namespace)

-- A call that the cluster carries out where it accepts it.
abbrev pub is_real : Sent → Bool
is_real s = not (is_dry s.operation)

-- The entries stand for the real calls, one for one and in their order, by cluster and namespace.
abbrev pub IsRecorded : World → Type 0
IsRecorded w = map entry_place w.audited ≡ map sent_place (select is_real w.sent)

map-append : {A B : Type 0} (f : A → B) (xs ys : List A) → map f (xs ++ ys) ≡ map f xs ++ map f ys
map-append f [] ys = refl
map-append f (x ∷ xs) ys = ap (λ zs. f x ∷ zs) (map-append f xs ys)

select-append :
    {A : Type 0} (p : A → Bool) (xs ys : List A) → select p (xs ++ ys) ≡ select p xs ++ select p ys
select-append p [] ys = refl
select-append p (x ∷ xs) ys = ground (arith, select-append p xs ys)

-- A real call and its entry are noted together.
both-IsRecorded :
    (es : List Entry) (ss : List Sent) (e : Entry) (s : Sent)
    → map entry_place es ≡ map sent_place (select is_real ss)
    → entry_place e ≡ sent_place s
    → is_real s ≡ true
    → map entry_place (es ++ (e ∷ [])) ≡ map sent_place (select is_real (ss ++ (s ∷ [])))
both-IsRecorded es ss e s h same real =
    rw (map-append entry_place es (e ∷ []), select-append is_real ss (s ∷ []), real)
      (rw (map-append sent_place (select is_real ss) (s ∷ []), h, same) refl)

dry-IsRecorded :
    (es : List Entry) (ss : List Sent) (s : Sent)
    → map entry_place es ≡ map sent_place (select is_real ss)
    → is_real s ≡ false
    → map entry_place es ≡ map sent_place (select is_real (ss ++ (s ∷ [])))
dry-IsRecorded es ss s h dry =
    rw (select-append is_real ss (s ∷ []), dry, append-nil (select is_real ss)) h

module _ (calls : Calls) (global_read_only : Bool) (user : User) (param : Option Uuid) where
  authorise_write-IsRecorded :
      (request : WriteRequest)
      → Keeps calls global_read_only user param IsRecorded
          (authorise_write calls global_read_only user param request)
  authorise_write-IsRecorded request w h =
      let same = authorise_write-keeps calls global_read_only user param request w in
      rw (same.2, same.3) h

  ended-IsRecorded :
      (action : Action) (on_error : CallError → Reply) (operation : Operation) (type : ResourceType)
      (namespace name : String) (named : Text → Text) (c : Cluster) (r : CallError ⊎ Text)
      (w : World) (s : Sent)
      → IsRecorded w
      → (s.cluster ≡ c.id)
      → (s.request.namespace ≡ namespace)
      → is_real s ≡ true
      → IsRecorded
          (ended calls global_read_only user param action on_error operation c type namespace name
            named r
            (record w { sent = w.sent ++ (s ∷ []) })).1
  ended-IsRecorded action on_error operation type namespace name named c (inl e) w s h k n real =
      both-IsRecorded w.audited w.sent _ s h (rw (k, n) refl) real
  ended-IsRecorded action on_error operation type namespace name named c (inr t) w s h k n real =
      both-IsRecorded w.audited w.sent _ s h (rw (k, n) refl) real

  outcome_of-IsRecorded :
      (type : ResourceType) (o : Object) (dry_run : Bool) (c : Cluster) (r : CallError ⊎ Text)
      (w : World) (s : Sent)
      → IsRecorded w
      → (s.cluster ≡ c.id)
      → (s.request.namespace ≡ o.namespace)
      → is_real s ≡ not dry_run
      → IsRecorded
          (outcome_of calls global_read_only user param c type o dry_run r
            (record w { sent = w.sent ++ (s ∷ []) })).1
  outcome_of-IsRecorded type o true c (inl e) w s h k n d = dry-IsRecorded w.audited w.sent s h d
  outcome_of-IsRecorded type o true c (inr t) w s h k n d = dry-IsRecorded w.audited w.sent s h d
  outcome_of-IsRecorded type o false c (inl e) w s h k n d =
      both-IsRecorded w.audited w.sent _ s h (rw (k, n) refl) d
  outcome_of-IsRecorded type o false c (inr t) w s h k n d =
      both-IsRecorded w.audited w.sent _ s h (rw (k, n) refl) d

  -- A request to write leaves an audit entry for each call that it sends to change a cluster, whether the
  -- cluster accepted the call or not, in the order of the calls and under the cluster and the namespace
  -- of the call; what is refused before it is sent, and a dry run, leave none.
  pub handle-IsRecorded :
      (yaml : Yaml) (request : WriteCall) (w : World)
      → IsRecorded w
      → IsRecorded (handle yaml calls global_read_only user param request w).1
  unfolding perform_on apply_to
  handle-IsRecorded yaml request =
      handle-Keeps calls global_read_only user param IsRecorded
        (λ action on_error verb operation type namespace name named d.
          let asked = request_for type namespace name verb in
          authorised-Keeps calls global_read_only user param IsRecorded asked
            (λ c.
              send calls global_read_only user param c asked (object_of type namespace name)
                operation
              >>= λ r.
                  ended calls global_read_only user param action on_error operation c type namespace
                    name named r)
            (authorise_write-IsRecorded asked)
            (λ c w h e.
              ended-IsRecorded action on_error operation type namespace name named c _ _ _
                (authorise_write-IsRecorded asked w h) refl refl (ap not d)))
        (λ o dry_run type.
          let asked = request_for type o.namespace o.name update in
          authorised-Keeps calls global_read_only user param IsRecorded asked
            (λ c.
              send calls global_read_only user param c asked (object_of type o.namespace o.name)
                (apply o.manifest dry_run)
              >>= λ r. outcome_of calls global_read_only user param c type o dry_run r)
            (authorise_write-IsRecorded asked)
            (λ c w h e.
              outcome_of-IsRecorded type o dry_run c _ _ _ (authorise_write-IsRecorded asked w h)
                refl refl refl))
        yaml request
