-- ===== src/Controllers/Frame.antt =====
-- Invariants of the world under the controller's writes: what a block of the controller cannot
-- break, if the writes that it may make do not.
use applicationset.Prelude.{String}
use applicationset.Api.Template.{Application}
use applicationset.Api.ApplicationSet.{ApplicationSet}
use applicationset.Controllers.Client.{Client}

module _ {W : Type 0} (client : Client W) (I : W → Type 0) where
  -- Events keep `I`.
  abbrev pub EventsKeep : Type 0
  EventsKeep = (action name : String) (w : W) → I w → I (client.event action name w)

  -- Events, and writes of the ApplicationSet itself, keep `I`.
  pub record Quiet : Type 0 where
    pub on_event : EventsKeep
    pub on_status : (a : ApplicationSet) (w : W) → I w → I (client.update_status a w).2
    pub on_app_set : (a : ApplicationSet) (w : W) → I w → I (client.update_app_set a w).2

  -- Each kind of write of an Application with the property `P` keeps `I`.
  abbrev pub CreateKeeps : (Application → Type 0) → Type 0
  CreateKeeps P = (a : Application) (w : W) → P a → I w → I (client.create_app a w).1

  abbrev pub UpdateKeeps : (Application → Type 0) → Type 0
  UpdateKeeps P = (a : Application) (w : W) → P a → I w → I (client.update_app a w).1

  abbrev pub DeleteKeeps : (Application → Type 0) → Type 0
  DeleteKeeps P = (a : Application) (w : W) → P a → I w → I (client.delete_app a w).1
