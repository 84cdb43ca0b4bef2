-- ===== src/Automation/Editor.antt =====
-- createAutomationEditor of modules/automation/editor-service.js: drafts with a revision, and the list
-- of the published versions of each.
mod Examples
pub mod History
use crmtsi_app.Common.{
  ℕ, ◌+◌, String, Bool, true, false, not, ◌&&◌, Option, none, some, List, [], ◌∷◌, ◌++◌, map,
  Result, ok, err, ◌>>◌, ◌>>=◌, require, str_eq, if◌then◌else◌, ◌==◌, length, find_first, Text,
}
use crmtsi_app.Automation.Schema.{RawGraph, Graph}
use crmtsi_app.Automation.Graph.{Validation}

pub data Status : Type 0 where
  draft published : Status

pub record Draft : Type 0 where
  pub id : String
  pub tenant_id : String
  pub name : Text
  pub graph : Graph
  pub revision : ℕ
  pub status : Status
  pub fingerprint : Text

pub record Version : Type 0 where
  pub id : String
  pub tenant_id : String
  pub name : Text
  pub graph : Graph
  pub revision : ℕ
  pub version : ℕ
  pub restored_from : Option ℕ
  pub published_at : ℕ
  pub fingerprint : Text

-- The entries of the two maps, which have the same keys.
pub record Entry : Type 0 where
  pub current : Draft
  pub history : List Version

abbrev pub Editor : Type 0
Editor = List (String × Entry)

abbrev pub lookup : String → Editor → Option Entry
lookup id [] = none
lookup id ((key, e) ∷ editor) = if str_eq key id then some e else lookup id editor

-- `set` of a map.
pub put : String → Entry → Editor → Editor
put id e [] = (id, e) ∷ []
put id e ((key, old) ∷ editor) =
    let rest = put id e editor in if str_eq key id then (key, e) ∷ editor else (key, old) ∷ rest

abbrev is_draft : Status → Bool
is_draft draft = true
is_draft published = false

abbrev own : String → Option Entry → Result Entry
own tenant_id none = err "NOT_FOUND"
own tenant_id (some e) = if str_eq e.current.tenant_id tenant_id then ok e else err "NOT_FOUND"

pub get_draft : (tenant_id id : String) → Editor → Result Entry
get_draft tenant_id id editor = own tenant_id (lookup id editor)

abbrev renamed : Option Text → Draft → Text
renamed none d = d.name
renamed (some name) d = name

abbrev accepted : Option Validation → Result Graph
accepted none = err "GRAPH_INVALID"
accepted (some v) = elim v.errors [
  | e ∷ es ↦ err "GRAPH_INVALID"
  | [] ↦ elim v.graph [ none ↦ err "GRAPH_INVALID" | some g ↦ ok g ]
]

-- `validate` is `validateGraph` of a tenant, on a graph as it comes or as it was stored; `hash` is
-- canonicalGraphHash, and `trimmed` a name that was trimmed.
module _ (validate : String → RawGraph → Option Validation)
    (validate_stored : String → Graph → Option Validation) (hash : Graph → Text) where
  abbrev new_draft : (id tenant_id : String) → Text → Graph → Draft
  new_draft id tenant_id trimmed g = record {
    id = id;
    tenant_id = tenant_id;
    name = trimmed;
    graph = g;
    revision = 1;
    status = draft;
    fingerprint = hash g;
  }

  -- `id` is the new one.
  pub create_draft :
      (id tenant_id : String) → (trimmed : Text) → RawGraph → Editor → Editor × Result Draft
  unfolding put
  create_draft id tenant_id trimmed raw editor = elim (accepted (validate tenant_id raw)) [
    | err e ↦ (editor, err e)
    | ok g ↦
        let d = new_draft id tenant_id trimmed g in
        (put id (record { current = d; history = [] }) editor, ok d)
  ]

  -- The checks that `saveDraft` and `publish` share.
  abbrev editable : ℕ → Entry → Result (Unit {0})
  editable expected_revision e = do
    require (is_draft e.current.status) "DRAFT_NOT_EDITABLE"
    require (e.current.revision == expected_revision) "REVISION_CONFLICT"

  abbrev checked :
      (tenant_id id : String) → ℕ → (Entry → Option Validation) → Editor → Result (Entry × Graph)
  checked tenant_id id expected_revision validation editor =
      get_draft tenant_id id editor
      >>= (λ e. editable expected_revision e >> (accepted (validation e) >>= (λ g. ok (e, g))))

  abbrev saved : Option Text → Graph → Draft → Draft
  saved name g d = record d {
    name = renamed name d;
    graph = g;
    revision = d.revision + 1;
    fingerprint = hash g;
  }

  pub save_draft :
      (tenant_id id : String)
      → (expected_revision : ℕ) → (name : Option Text) → RawGraph
      → Editor
      → Editor × Result Draft
  unfolding get_draft put
  save_draft tenant_id id expected_revision name raw editor =
      elim (checked tenant_id id expected_revision (λ e. validate tenant_id raw) editor) [
        | err e ↦ (editor, err e)
        | ok (e, g) ↦
            let d = saved name g e.current in (put id (record e { current = d }) editor, ok d)
      ]

  abbrev published_version : (now : ℕ) → Entry → Version
  published_version now e = record {
    id = e.current.id;
    tenant_id = e.current.tenant_id;
    name = e.current.name;
    graph = e.current.graph;
    revision = e.current.revision;
    version = length e.history + 1;
    restored_from = none;
    published_at = now;
    fingerprint = hash e.current.graph;
  }

  abbrev push_published : (now : ℕ) → Entry → Entry
  push_published now e = record {
    current = record (e.current) { status = published };
    history = e.history ++ published_version now e ∷ [];
  }

  pub publish :
      (now : ℕ)
      → (tenant_id id : String) → (expected_revision : ℕ) → Editor
      → Editor × Result Version
  unfolding get_draft put
  publish now tenant_id id expected_revision editor =
      elim (checked tenant_id id expected_revision (λ e. validate_stored tenant_id e.current.graph)
        editor) [
          | err e ↦ (editor, err e)
          | ok (e, g) ↦ (put id (push_published now e) editor, ok (published_version now e))
        ]

  abbrev source_of : (tenant_id : String) → ℕ → Entry → Result Version
  source_of tenant_id version e = elim (find_first (λ v. v.version == version) e.history) [
    | none ↦ err "VERSION_NOT_FOUND"
    | some v ↦ if str_eq v.tenant_id tenant_id then ok v else err "VERSION_NOT_FOUND"
  ]

  abbrev restored_version : (now : ℕ) → (id tenant_id : String) → Version → Entry → Version
  restored_version now id tenant_id source e = record {
    id = id;
    tenant_id = tenant_id;
    name = source.name;
    graph = source.graph;
    revision = e.current.revision + 1;
    version = length e.history + 1;
    restored_from = some source.version;
    published_at = now;
    fingerprint = source.fingerprint;
  }

  abbrev push_restored : (now : ℕ) → (id tenant_id : String) → Version → Entry → Entry
  push_restored now id tenant_id source e = record {
    current = record (e.current) {
      status = published;
      revision = e.current.revision + 1;
      graph = source.graph;
      fingerprint = source.fingerprint;
    };
    history = e.history ++ restored_version now id tenant_id source e ∷ [];
  }

  abbrev found : (tenant_id id : String) → ℕ → Editor → Result (Entry × Version)
  found tenant_id id version editor =
      get_draft tenant_id id editor >>= (λ e. source_of tenant_id version e >>= (λ v. ok (e, v)))

  pub restore :
      (now : ℕ) → (tenant_id id : String) → (version : ℕ) → Editor → Editor × Result Version
  unfolding get_draft put
  restore now tenant_id id version editor = elim (found tenant_id id version editor) [
    | err e ↦ (editor, err e)
    | ok (e, v) ↦ (
      put id (push_restored now id tenant_id v e) editor,
      ok (restored_version now id tenant_id v e),
    )
  ]

  abbrev last : List Version → Option Version
  last [] = none
  last (v ∷ []) = some v
  last (v ∷ w ∷ vs) = last (w ∷ vs)

  abbrev reference_of : (tenant_id : String) → Option Version → Result (ℕ × Text)
  reference_of tenant_id none = err "PUBLISHED_VERSION_REQUIRED"
  reference_of tenant_id (some v) =
      if str_eq v.tenant_id tenant_id
      then ok (v.version, v.fingerprint)
      else err "PUBLISHED_VERSION_REQUIRED"

  pub execution_reference : (tenant_id id : String) → Editor → Result (ℕ × Text)
  unfolding get_draft
  execution_reference tenant_id id editor =
      get_draft tenant_id id editor >>= (λ e. reference_of tenant_id (last e.history))

-- The calls that change the maps, each of a tenant.
pub data Call : Type 0 where
  creates : (id : String) → (trimmed : Text) → RawGraph → Call
  saves : (id : String) → (expected_revision : ℕ) → (name : Option Text) → RawGraph → Call
  publishes : (now : ℕ) → (id : String) → (expected_revision : ℕ) → Call
  restores : (now : ℕ) → (id : String) → (version : ℕ) → Call

module _ (validate : String → RawGraph → Option Validation)
    (validate_stored : String → Graph → Option Validation) (hash : Graph → Text) where
  pub step : (tenant_id : String) → Call → Editor → Editor
  unfolding create_draft save_draft publish restore
  step t (creates id trimmed raw) editor =
      (create_draft validate validate_stored hash id t trimmed raw editor).0
  step t (saves id expected_revision name raw) editor =
      (save_draft validate validate_stored hash t id expected_revision name raw editor).0
  step t (publishes now id expected_revision) editor =
      (publish validate validate_stored hash now t id expected_revision editor).0
  step t (restores now id version) editor =
      (restore validate validate_stored hash now t id version editor).0

  pub run : Editor → List (String × Call) → Editor
  run editor [] = editor
  run editor ((t, c) ∷ calls) = run (step t c editor) calls
