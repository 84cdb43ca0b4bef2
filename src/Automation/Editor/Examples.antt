-- ===== src/Automation/Editor/Examples.antt =====
-- A draft that is published, and restored.
use crmtsi_app.Common.{◌≡◌, refl, String, Option, none, some, List, [], ◌∷◌, Text, get_elem?, codes}
use crmtsi_app.Automation.Schema.{RawGraph, Graph}
use crmtsi_app.Automation.Graph.{Validation}
use crmtsi_app.Automation.Editor.{
  Entry, Version, Editor, Call, creates, saves, published, publishes, restores, lookup, put,
  get_draft, create_draft, publish, step, run,
}
use crmtsi_app.Automation.Editor.History.{published_stays}

abbrev raw : RawGraph
raw = record { nodes = some []; edges = some [] }

abbrev graph : Graph
graph = record { nodes = []; edges = [] }

abbrev accepts {ℓ} : {A : Type ℓ} → String → A → Option Validation
accepts t a = some (record { graph = some graph; errors = [] })

abbrev no_hash : Graph → Text
no_hash g = []

abbrev first_version : Version
first_version = record {
  id = "a";
  tenant_id = "acme";
  name = codes "Welcome";
  graph = graph;
  revision = 1;
  version = 1;
  restored_from = none;
  published_at = 100;
  fingerprint = [];
}

abbrev published_entry : Entry
published_entry = record {
  current = record {
    id = "a";
    tenant_id = "acme";
    name = codes "Welcome";
    graph = graph;
    revision = 1;
    status = published;
    fingerprint = [];
  };
  history = first_version ∷ [];
}

abbrev editor : Editor
editor = ("a", published_entry) ∷ []

publishes-entry :
    run accepts accepts no_hash []
      (("acme", creates "a" (codes "Welcome") raw) ∷ ("acme", publishes 100 "a" 1) ∷ [])
    ≡ editor
unfolding run step create_draft publish get_draft put
publishes-entry = refl

abbrev later : List (String × Call)
later =
    ("acme", restores 200 "a" 1)
    ∷ ("acme", saves "a" 2 none raw)
    ∷ ("other", publishes 300 "a" 2)
    ∷ []

published_stays_example :
    (f : Entry) × (lookup "a" (run accepts accepts no_hash editor later) ≡ some f)
    × (get_elem? f.history 0 ≡ some first_version)
published_stays_example =
    published_stays accepts accepts no_hash "a" later editor published_entry 0 first_version
      (tt, (tt, (tt, tt))) refl refl
