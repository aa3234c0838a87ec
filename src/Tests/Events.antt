-- ===== src/Tests/Events.antt =====
-- Runs of the webhook, of the events of cluster secrets, of the filters of repositories and of the
-- validation.
use applicationset.Prelude.{
  ◌≡◌, refl, true, false, ◌&&◌, List, [], ◌∷◌, ◌++◌, none, some, All, keep_if, str_eq,
}
use applicationset.Errors.{ok}
use applicationset.Api.Template.{empty_template}
use applicationset.Api.Generator.{GitGenerator, ScmProviderGeneratorFilter}
use applicationset.Api.ApplicationSet.{ApplicationSet}
use applicationset.Utils.Regexp.{Compile}
use applicationset.Utils.Webhook.{
  WebhookClient, handle_event, with_refresh, refresh_related, refresh_listed, refresh_loop,
  refresh_application_set, refresh_attempt, should_refresh,
}
use applicationset.Utils.Webhook.Relevance.{
  Payload, github_push, ParseUrl, GitGeneratorInfo, should_refresh_git_generator,
  get_git_generator_info, get_pr_generator_info, git_info, path_tail, parse_revision, after_slash,
}
use applicationset.Utils.Webhook.Laws.{handle_event-I}
use applicationset.Utils.Webhook.Push.{should_refresh-push, follows_head}
use applicationset.Services.ScmProvider.{
  Repository, ScmProviderService, Filter, list_repos, compile_filters, compile_filter,
  compile_match,
}
use applicationset.Services.ScmProvider.Laws.{selected, list_repos-selected}
use applicationset.Controllers.ClusterEvents.{
  update_event, handle_secret_event, handle_secret_event-related, related,
}
use applicationset.Controllers.Validate.{
  validate_generated_applications, validate_loop, check_app, check_destination, check_permissions,
  valid_apps,
}
use applicationset.Controllers.Validate.Valid.{AreValid, valid_apps-AreValid}
use applicationset.Utils.Clusters.{validate_destination}
use applicationset.Tests.Store.{app, request, guestbook_set, libraries, kube}

abbrev parse : ParseUrl
parse url = ok (record { hostname = "github.com"; path = "/argoproj/applicationset" })

-- Every expression matches everything.
abbrev compile : Compile
compile text = ok (λ s. true)

abbrev push : Payload
push = github_push "https://github.com/argoproj/applicationset" "master" "refs/heads/release-0.3"

abbrev push_info : GitGeneratorInfo
push_info = record { revision = ""; touched_head = false; repo_regexp = λ s. true }

abbrev on_release : GitGenerator
on_release = record {
  repo_url = "https://github.com/argoproj/applicationset";
  directories = none;
  files = none;
  revision = "release-0.3";
  requeue_after_seconds = none;
  template = empty_template;
}

-- A push to the branch that the generator follows does not refresh it.
release_test : should_refresh_git_generator (some on_release) (some push_info) ≡ false
unfolding should_refresh_git_generator parse_revision after_slash
release_test = refl

abbrev head_push : Payload
head_push = github_push "https://github.com/argoproj/applicationset" "master" "refs/heads/master"

abbrev head_info : GitGeneratorInfo
head_info = record push_info { touched_head = true }

abbrev on_head : GitGenerator
on_head = record on_release { revision = "HEAD" }

should_refresh-push_example :
    should_refresh_git_generator (some on_head) (some head_info)
    ≡ (head_info.repo_regexp on_head.repo_url && (follows_head on_head && str_eq "master" "master"))
unfolding get_git_generator_info git_info path_tail parse_revision after_slash
should_refresh-push_example =
    should_refresh-push parse compile head_push head_info on_head "master" "master" refl refl

-- An ApplicationSet that follows the head, which a push to the default branch concerns.
abbrev head_set : ApplicationSet
head_set = record guestbook_set {
  spec = record guestbook_set.spec { generators = record request { git = some on_head } ∷ [] };
}

-- The ApplicationSets that are patched are kept.
abbrev webhook_client : WebhookClient (List ApplicationSet)
webhook_client = record {
  list_app_sets = λ w. ok (head_set ∷ []);
  get_app_set = λ namespace name w. ok head_set;
  patch_app_set = λ s w. (ok tt, s ∷ w);
  retry_on_conflict = λ f w. f w;
}

head_push_test :
    (handle_event webhook_client parse compile head_push []).1 ≡ with_refresh head_set ∷ []
unfolding handle_event get_git_generator_info get_pr_generator_info git_info path_tail
    parse_revision after_slash refresh_related refresh_listed refresh_loop refresh_application_set
    refresh_attempt should_refresh should_refresh_git_generator
head_push_test = refl

abbrev AllGuestbook : List ApplicationSet → Type 0
AllGuestbook = All (λ s. s.name ≡ "guestbook")

handle_event-I_example : AllGuestbook (handle_event webhook_client parse compile head_push []).1
handle_event-I_example =
    handle_event-I webhook_client AllGuestbook (λ s. s.name ≡ "guestbook") (λ s w p h. (p, h))
      (λ f keeps w h. keeps w h) parse compile head_push [] (λ git pr sets e f l a t. cc) tt

handle_secret_event-related_example :
    handle_secret_event
      (ok (guestbook_set ∷ []))
      (update_event [] (("argocd.argoproj.io/secret-type", "cluster") ∷ []))
      []
    ≡ ok (
        []
        ++ related
            (guestbook_set ∷ [])
            (update_event [] (("argocd.argoproj.io/secret-type", "cluster") ∷ [])))
handle_secret_event-related_example =
    handle_secret_event-related (guestbook_set ∷ [])
      (update_event [] (("argocd.argoproj.io/secret-type", "cluster") ∷ [])) []

abbrev by_label : ScmProviderGeneratorFilter
by_label = record {
  repository_match = none;
  paths_exist = "kubernetes" ∷ [];
  label_match = some "deploy-ok";
  branch_match = none;
}

abbrev compiled : Filter
compiled = record {
  repository_match = none;
  paths_exist = "kubernetes" ∷ [];
  label_match = some (λ s. true);
  branch_match = none;
}

abbrev myapp : Repository
myapp = record {
  organization = "argoproj";
  repository = "myapp";
  url = "git@github.com:argoproj/myapp.git";
  branch = "main";
  sha = "0bc57212c3cbbec69d20b34c507284bd300def5b";
  labels = "deploy-ok" ∷ [];
}

abbrev provider : ScmProviderService
provider = record {
  list_repos = λ protocol. ok (myapp ∷ []);
  repo_has_path = λ repo path. ok (str_eq path "kubernetes");
}

list_repos-selected_example :
    list_repos provider compile (by_label ∷ []) "ssh"
    ≡ ok (keep_if (selected (λ repo path. str_eq path "kubernetes") (compiled ∷ [])) (myapp ∷ []))
unfolding compile_filters compile_filter compile_match
list_repos-selected_example =
    list_repos-selected provider (λ repo path. str_eq path "kubernetes") (λ repo path. refl) compile
      (by_label ∷ []) "ssh" (compiled ∷ []) (myapp ∷ []) refl refl

valid_apps-AreValid_example :
    AreValid libraries kube "argocd"
      (valid_apps (app "guestbook-staging" ∷ app "guestbook-production" ∷ []) (none ∷ none ∷ []))
unfolding validate_generated_applications validate_loop check_app check_destination
    check_permissions validate_destination
valid_apps-AreValid_example =
    valid_apps-AreValid libraries kube "argocd" "guestbook"
      (app "guestbook-staging" ∷ app "guestbook-production" ∷ []) (none ∷ none ∷ []) refl
