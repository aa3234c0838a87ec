-- ===== src/Api/Template.antt =====
-- The template and the Application of api/v1alpha1/applicationset_types.go and of Argo CD: their
-- fields that the code reads or writes. What it only copies and compares is one text.
use applicationset.Prelude.{String, Bool, false, List, [], Map, Option}

-- Argo CD's `ApplicationDestination`; `inferred` is the private field behind `IsServerInferred`.
pub record Destination : Type 0 where
  pub server : String
  pub namespace : String
  pub name : String
  pub inferred : Bool

-- Argo CD's `ApplicationSpec`; `rest` is the text of its other fields.
pub record ApplicationSpec : Type 0 where
  pub project : String
  pub destination : Destination
  pub rest : String

pub record ApplicationSetTemplateMeta : Type 0 where
  pub name : String
  pub namespace : String
  pub labels : Map String
  pub annotations : Map String
  pub finalizers : List String

pub record ApplicationSetTemplate : Type 0 where
  pub meta : ApplicationSetTemplateMeta
  pub open meta use *
  pub spec : ApplicationSpec

-- The empty struct values `ApplicationSetTemplate{}` and `ApplicationSpec{}`.
abbrev pub empty_template : ApplicationSetTemplate
empty_template = record {
  meta = record { name = ""; namespace = ""; labels = []; annotations = []; finalizers = [] };
  spec = record {
    project = "";
    destination = record { server = ""; namespace = ""; name = ""; inferred = false };
    rest = "";
  };
}

-- Argo CD's `Application`; `controller` is the owner that `SetControllerReference` sets.
pub record Application : Type 0 where
  pub name : String
  pub namespace : String
  pub labels : Map String
  pub annotations : Map String
  pub finalizers : List String
  pub controller : Option String
  pub spec : ApplicationSpec
