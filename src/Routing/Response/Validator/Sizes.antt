-- ===== src/Routing/Response/Validator/Sizes.antt =====
-- runtime-response-validator.ts: the measured size of an answer, beside the bytes of its parts.
use chunsik_bot.Base.{
  ℕ, ◌+◌, ◌≤◌, String, ◌≡◌, refl, Option, none, some, List, [], ◌∷◌, ◌++◌, map, get_or, arith,
}
use chunsik_bot.Base.Json.{Json, str, json_object, json_array}
use chunsik_bot.Base.Json.Sizes.{
  byte_length, text_size, list_size, list_size-append, text_size-json_object, stringify-grows,
}
use chunsik_bot.Base.Platform.{Platform}
use chunsik_bot.Base.Unicode.{Unicode, utf8_length}
use chunsik_bot.Domain.{IsoTimestamp}
use chunsik_bot.Domain.Names.{artifact_kind_name}
use chunsik_bot.Routing.Gateway.{BoundedProviderArtifact}
use chunsik_bot.Routing.Response.Validator.{
  CanonicalProviderOutput, optional_member, artifact_members, output_json, stored_members,
  output_identity,
}

-- The bytes of an artifact: its title, its content and its other texts.
abbrev pub artifact_size : BoundedProviderArtifact → ℕ
artifact_size a =
    byte_length a.title
    + byte_length (get_or a.content "")
    + byte_length (get_or a.mime_type "")
    + byte_length a.id
    + byte_length (get_or a.task_id "")
    + byte_length (get_or a.task_run_id "")

abbrev pub artifacts_size : List BoundedProviderArtifact → ℕ
artifacts_size [] = 0
artifacts_size (a ∷ list) = artifact_size a + artifacts_size list

optional_member-size :
    (key : String) (value : Option String)
    → list_size (optional_member key value) ≡ byte_length (get_or value "")
unfolding list_size text_size utf8_length
optional_member-size key none = refl
optional_member-size key (some value) = omega arith

module _ (platform : Platform) (u : Unicode) (iso_text : IsoTimestamp → String) where
  stored-size :
      (a : BoundedProviderArtifact)
      → artifact_size a ≤ text_size (json_object (stored_members platform u iso_text a))
  unfolding list_size text_size
  stored-size a = omega (
    arith,
    text_size-json_object (stored_members platform u iso_text a),
    list_size-append (artifact_members a) (("createdAt", str (iso_text a.created_at)) ∷ []),
    list_size-append (optional_member "taskId" a.task_id) (rest_of a),
    list_size-append (optional_member "taskRunId" a.task_run_id) (kind_of a),
    list_size-append (optional_member "content" a.content) (optional_member "mimeType" a.mime_type),
    optional_member-size "taskId" a.task_id,
    optional_member-size "taskRunId" a.task_run_id,
    optional_member-size "content" a.content,
    optional_member-size "mimeType" a.mime_type,
  )
    where
      kind_of : BoundedProviderArtifact → List (String × Json)
      kind_of a =
          ("kind", str (artifact_kind_name a.kind))
          ∷ ("title", str a.title)
          ∷ (optional_member "content" a.content ++ optional_member "mimeType" a.mime_type)

      rest_of : BoundedProviderArtifact → List (String × Json)
      rest_of a = optional_member "taskRunId" a.task_run_id ++ kind_of a

  artifacts-size :
      (list : List BoundedProviderArtifact)
      → artifacts_size list
        ≤ text_size
            (json_array (map (λ a. json_object (stored_members platform u iso_text a)) list))
  unfolding text_size
  artifacts-size [] = omega arith
  artifacts-size (a ∷ list) = omega (arith, stored-size a, artifacts-size list)

  -- The measured size is at least that of the text and of the artifacts.
  pub byte_count-covers :
      (output : CanonicalProviderOutput)
      → byte_length output.text + artifacts_size output.artifacts
        ≤ (output_identity platform u iso_text output).byte_count
  unfolding output_identity text_size
  byte_count-covers output = omega (
    arith,
    stringify-grows (output_json (stored_members platform u iso_text) output),
    artifacts-size output.artifacts,
  )
