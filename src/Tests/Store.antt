-- ===== src/Tests/Store.antt =====
-- A small cluster to run the controller on: the Applications that are stored, and a record of what
-- was written and deleted.
use applicationset.Prelude.{
  String, refl, true, false, not, ◌&&◌, List, [], ◌∷◌, none, some, pos, str_eq, eq_iff,
  if◌then◌else◌, keep_if, arith,
}
use applicationset.Errors.{Result, ok, err, api_error}
use applicationset.Api.Template.{Application, empty_template}
use applicationset.Api.Generator.{ApplicationSetGenerator, ListGenerator}
use applicationset.Api.ApplicationSet.{ApplicationSet}
use applicationset.Utils.Clusters.{KubeClient}
use applicationset.Utils.Policy.{create_only_policy}
use applicationset.Generators.Interface.{Generators}
use applicationset.Controllers.Client.{Client, Libraries, Reconciler}
use applicationset.Controllers.Apply.Frame.{SetsOwnerOnly}
use applicationset.Controllers.Reconcile.Blocks.{GetsSetByKey, AnswersByKey}

pub record World : Type 0 where
  pub stored : List Application
  pub written : List Application
  pub deleted : List Application

-- An Application of the name, in the namespace of Argo CD
abbrev pub app : String → Application
app name = record {
  name = name;
  namespace = "argocd";
  labels = [];
  annotations = [];
  finalizers = [];
  controller = some "guestbook";
  spec = empty_template.spec;
}

abbrev pub find : String → String → List Application → Result Application
find namespace name [] = err (api_error true "not found")
find namespace name (a ∷ apps) =
    if str_eq a.namespace namespace && str_eq a.name name then ok a else find namespace name apps

abbrev pub list_generator : ListGenerator
list_generator = record { elements = []; template = empty_template }

abbrev pub request : ApplicationSetGenerator
request = record {
  list = some list_generator;
  clusters = none;
  git = none;
  scm_provider = none;
  cluster_decision_resource = none;
  pull_request = none;
  matrix = none;
  merge = none;
}

abbrev pub guestbook_set : ApplicationSet
guestbook_set = record {
  name = "guestbook";
  namespace = "argocd";
  annotations = [];
  deletion_timestamp = none;
  spec = record { generators = request ∷ []; template = empty_template; sync_policy = none };
  status = record { conditions = [] };
}

abbrev get_guestbook_set : String → String → Result ApplicationSet
get_guestbook_set namespace name =
    if str_eq "argocd" namespace && str_eq "guestbook" name
    then ok guestbook_set
    else err (api_error true "not found")

abbrev pub client : Client World
client = record {
  apps = record {
    get_app = λ namespace name w. find namespace name w.stored;
    create_app = λ a w. (none, record w { stored = a ∷ w.stored; written = a ∷ w.written });
    update_app = λ a w. (none, record w { stored = a ∷ w.stored; written = a ∷ w.written });
    delete_app = λ a w. (
      none,
      record w {
        stored = keep_if (λ b. not (str_eq b.name a.name)) w.stored;
        deleted = a ∷ w.deleted;
      },
    );
  };
  get_app_set = λ namespace name w. get_guestbook_set namespace name;
  update_app_set = λ s w. (none, s, w);
  update_status = λ s w. (none, s, w);
  list_apps = λ name w. ok w.stored;
  event = λ action name w. w;
  now = λ w. 0;
}

abbrev pub libraries : Libraries
libraries = record {
  get_project_name = λ spec. spec.project;
  get_app_project = λ namespace name. ok name;
  validate_permissions = λ spec project. ok none;
  set_controller_reference = λ s a. ok (record a { controller = some s.name });
  deep_equal = λ destinations a b. false;
  merge_templates = λ template base. ok base;
  print_time = λ time. "";
  range_errors = λ errors. errors;
}

abbrev pub kube : KubeClient
kube = record { cluster_secrets = λ namespace. ok (some []); check_config = λ config. none }

-- A list generator of one set.
abbrev pub supported : Generators
supported =
    (
      "List",
      record {
        generate_params = λ requested app_set. ok ((("cluster", "staging") ∷ []) ∷ []);
        get_requeue_after = λ requested. ok (pos 0);
        get_template = λ requested. ok empty_template;
      },
    )
    ∷ []

abbrev pub reconciler : Reconciler World
reconciler = record {
  client = client;
  libraries = libraries;
  kube = λ w. kube;
  generators = λ w. supported;
  policy = create_only_policy;
  render = λ tmpl policy params. ok (app "guestbook-staging");
}

abbrev pub world : World
world = record { stored = app "guestbook-production" ∷ []; written = []; deleted = [] }

pub client-AnswersByKey : AnswersByKey client
client-AnswersByKey s w = (refl, refl)

pub client-GetsSetByKey : GetsSetByKey client
client-GetsSetByKey namespace name w s e =
    ground (arith, eq_iff "argocd" namespace, eq_iff "guestbook" name)

pub libraries-SetsOwnerOnly : SetsOwnerOnly libraries
libraries-SetsOwnerOnly s a b e = cc
