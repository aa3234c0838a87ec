-- ===== src/Lib.antt =====
-- The ApplicationSet controller of Argo CD: from an ApplicationSet, whose generators return sets of
-- parameters, it makes Applications, and creates, updates and deletes them in the cluster.
--
-- The parts, and the files that model them:
-- - Api: the resource (api/v1alpha1/applicationset_types.go). Api/Template, Api/Generator,
--   Api/Condition and Api/ApplicationSet hold the structs, Api/Conversion `ToMatrixGenerator` and
--   `ToMergeGenerator`, Api/Condition/Set `SetConditions`.
-- - Utils: pkg/utils. Combine is map.go, Policy policy.go, Clusters clusterUtils.go, CreateOrUpdate
--   createOrUpdate.go, Webhook webhook.go with its tests of relevance in Webhook/Relevance, and
--   Render the rendering of templates in util.go; Text, Chars, Paths and SortTexts have the functions
--   of Go that they call, Json the decoded values, and Regexp stands for regular expressions.
-- - Generators: pkg/generators. Interface is interface.go, Transform generator_spec_processor.go,
--   Matrix and Merge the files of that name; Nested has what those two share, which the source
--   writes twice (`getParams`, `GetRequeueAfter`). Elements is list.go, Cluster cluster.go with
--   `sanitizeName` in Cluster/SanitizeName, Git git.go with its directories, files and path
--   parameters in modules of their own, DuckType duck_type.go, ScmProviders scm_provider.go and
--   PullRequests pull_request.go; RequeueAfter, SecretRef and Prefixed have what several of them
--   write in the same way. Levels has the three maps of generators of main.go.
-- - Controllers: pkg/controllers/applicationset_controller.go. Reconcile is `Reconcile`, one
--   function for each block of it; Generate has `generateApplications` and `getMinRequeueAfter`,
--   Validate `validateGeneratedApplications`, Apply `createOrUpdateInCluster` and `createInCluster`,
--   Delete `deleteInCluster` and `removeFinalizerOnInvalidDestination`, Status
--   `setApplicationSetStatusCondition`; Client lists what they call outside the repository.
--   ClusterEvents is pkg/controllers/clustereventhandler.go.
-- - Services: pkg/services. ScmProvider is scm_provider/utils.go and scm_provider/types.go, with
--   scm_provider/github.go and gitlab.go below it; PullRequest is pull_request/github.go, Repos
--   repo_service.go with its walk in Repos/Walk, and Pages the loop over pages that the three clients
--   write.
-- - Errors: Go's error values by the place that makes them, and their texts in Errors/Message. A
--   function that may fail returns `ok`, `err`, or `panic` where the source panics.
-- - Tests: runs on small inputs, and the theorems at them.
--
-- The state: the world outside (the Kubernetes API with its Applications and ApplicationSets, the
-- events) is a parameter `W`. A write takes it and returns an error and the world that it leaves, a
-- write of an ApplicationSet also the answer of the server, which the pointer then holds; and a
-- function of the controller returns its result beside the world.
--
-- What stands for Go: a map is an association list whose first entry for a key counts, and the
-- order of a `range` loop over it is a parameter where it shows. A pointer that may be nil is an
-- `Option`. A struct of a library has the fields that the code reads or writes, and the rest of a
-- spec is one text. A `time.Duration` is a 64-bit integer, with the wrap-around of its product
-- written out. `sort.Slice` and `sort.Strings` are insertion sorts. The loops are structural but for
-- those over the pages of a server (Services/Pages): these take fuel, one turn for each page. A
-- server whose pages end by number `last` needs at most `last + 1` turns, since it is asked for page
-- 0 first and each page that follows has a greater number.
--
-- Parameters, since their code is not here: the client and the recorder of events, the merge of
-- templates (mergo), `json.Marshal`, `SetControllerReference`, the deep comparison, the validation
-- of projects and permissions (Argo CD), regular expressions and URLs, `RetryOnConflict`, the
-- clients of Kubernetes, Git, GitHub and GitLab, `path.Match`, the decoding of JSON and YAML with its
-- flattening, the parser of templates (fasttemplate) and `strconv.Quote`, whose tables of printable
-- characters are not here. The reconciler takes the renderer as a parameter too; Render is the one
-- that main.go gives it.
--
-- Not modelled: the constructors of the clients (`NewGithubProvider` and the like); flags and wiring
-- (main.go but for the levels, `SetupWithManager`); logging, and `CheckInvalidGenerators`, which only
-- logs; deep copies, since values do not change; of a cluster secret the fields that are never read.

pub mod Api
pub mod Controllers
pub mod Errors
pub mod Generators
pub mod Prelude
pub mod Services
pub mod Tests
pub mod Utils
