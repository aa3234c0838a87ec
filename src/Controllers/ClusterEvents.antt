-- ===== src/Controllers/ClusterEvents.antt =====
-- pkg/controllers/clustereventhandler.go: an event of a cluster secret queues the ApplicationSets
-- that have a cluster generator.
use mathlib.Core.List.{append-nil, append_assoc}
use applicationset.Prelude.{
  String, ◌≡◌, Bool, true, false, List, [], ◌∷◌, ◌++◌, map, none, some, Map, lookup, any, keep_if,
  str_eq, if◌then◌else◌, Bool-cases, inl, inr, arith,
}
use applicationset.Errors.{Result, ok, err, panic}
use applicationset.Generators.Cluster.{secret_type_label, secret_type_cluster}
use applicationset.Api.Generator.{ApplicationSetGenerator}
use applicationset.Api.ApplicationSet.{ApplicationSet}

-- `ctrl.Request`, by its namespace and name; the work queue as the requests that were added.
abbrev pub Queue : Type 0
Queue = List (String × String)

-- An object by its labels, and the events of it.
pub data SecretEvent : Type 0 where
  create_event delete_event generic_event : (labels : Map String) → SecretEvent
  update_event : (old_labels new_labels : Map String) → SecretEvent

-- `object.GetLabels()[label] == "cluster"`
unfoldable pub is_cluster_secret : Map String → Bool
unfolding lookup
is_cluster_secret labels = elim (lookup secret_type_label labels) [
  | none ↦ false
  | some type ↦ str_eq type secret_type_cluster
]

abbrev pub is_cluster_generator : ApplicationSetGenerator → Bool
is_cluster_generator g = elim g.clusters [ none ↦ false | some clusters ↦ true ]

-- `foundClusterGenerator`
abbrev pub uses_clusters : ApplicationSet → Bool
uses_clusters s = any is_cluster_generator s.spec.generators

-- The loop over the ApplicationSets.
unfoldable pub queue_loop : List ApplicationSet → Queue → Queue
queue_loop [] q = q
queue_loop (s ∷ sets) q =
    if uses_clusters s then queue_loop sets (q ++ (s.namespace, s.name) ∷ []) else queue_loop sets q

-- `queueRelatedAppGenerators`, where the client lists `listed`
unfoldable pub queue_related_app_generators :
    Result (List ApplicationSet) → Map String → Queue → Result Queue
queue_related_app_generators listed labels q =
    if is_cluster_secret labels
    then (elim listed [ err e ↦ ok q | panic ↦ panic | ok sets ↦ ok (queue_loop sets q) ])
    else ok q

-- `Create`, `Update`, `Delete` and `Generic`
unfoldable pub handle_secret_event :
    Result (List ApplicationSet) → SecretEvent → Queue → Result Queue
handle_secret_event listed (create_event labels) q = queue_related_app_generators listed labels q
handle_secret_event listed (update_event old_labels new_labels) q =
    queue_related_app_generators listed new_labels q
handle_secret_event listed (delete_event labels) q = queue_related_app_generators listed labels q
handle_secret_event listed (generic_event labels) q = queue_related_app_generators listed labels q

-- The labels that count in an event.
abbrev pub labels_of : SecretEvent → Map String
labels_of (create_event labels) = labels
labels_of (update_event old_labels new_labels) = new_labels
labels_of (delete_event labels) = labels
labels_of (generic_event labels) = labels

-- What an event adds to the queue.
abbrev pub related : List ApplicationSet → SecretEvent → Queue
related sets event =
    if is_cluster_secret (labels_of event)
    then map (λ s. (s.namespace, s.name)) (keep_if uses_clusters sets)
    else []

queue_loop_lem :
    (sets : List ApplicationSet) (q : Queue)
    → queue_loop sets q ≡ q ++ map (λ s. (s.namespace, s.name)) (keep_if uses_clusters sets)
unfolding queue_loop
queue_loop_lem [] q = ground (arith, append-nil q)
queue_loop_lem (s ∷ sets) q = elim (Bool-cases (uses_clusters s)) [
  | inl e ↦
      rw (e, queue_loop_lem sets (q ++ (s.namespace, s.name) ∷ []))
        (append_assoc q ((s.namespace, s.name) ∷ []) _)
  | inr e ↦ rw (e, queue_loop_lem sets q)
]

queue_related_app_generators_lem :
    (sets : List ApplicationSet) (labels : Map String) (q : Queue)
    → queue_related_app_generators (ok sets) labels q
      ≡ ok (
          q
          ++ (if is_cluster_secret labels
              then map (λ s. (s.namespace, s.name)) (keep_if uses_clusters sets)
              else []))
unfolding queue_related_app_generators
queue_related_app_generators_lem sets labels q = elim (Bool-cases (is_cluster_secret labels)) [
  | inl e ↦ rw (e, queue_loop_lem sets q)
  | inr e ↦ rw (e, append-nil q)
]

-- Whatever the event, if the ApplicationSets are listed, the queue gets, in their order and behind
-- what it has, the key of each of them that has a cluster generator, and of no other; it gets none
-- if the object, as the event leaves it, is not labelled as a cluster secret.
pub handle_secret_event-related :
    (sets : List ApplicationSet) (event : SecretEvent) (q : Queue)
    → handle_secret_event (ok sets) event q ≡ ok (q ++ related sets event)
unfolding handle_secret_event
handle_secret_event-related sets (create_event labels) q =
    queue_related_app_generators_lem sets labels q
handle_secret_event-related sets (update_event old_labels new_labels) q =
    queue_related_app_generators_lem sets new_labels q
handle_secret_event-related sets (delete_event labels) q =
    queue_related_app_generators_lem sets labels q
handle_secret_event-related sets (generic_event labels) q =
    queue_related_app_generators_lem sets labels q
