-- ===== src/Common/Keys.antt =====
-- The round trip between qualified names of Atlas and keys of Amundsen.
use Prim.Native.Char.{Char}
use Prim.Native.String.{[], ◌∷◌}
use Prim.Native.String.append
use amundsen_fork.Prelude.{String, ◌<>◌, ◌≡◌, refl, ap, ◌∙◌, true, Option, none, some, List}
use amundsen_fork.Prelude.Effects.{return}
use amundsen_fork.Common.Patterns.{match_tokens, literal}
use amundsen_fork.Common.Atlas.{
  AtlasKey, table_qualified_name_regex, table_key_regex, qualified_name, amundsen_key, entity_type,
}
use amundsen_fork.Common.Matching.{
  avoids, avoids-append, lazily-literal, greedily-literal, lazily-end, lazily-none,
}

one : (c : Char) (t : String) → (c ∷ []) <> t ≡ c ∷ t
one c t = append.cons c [] t ∙ ap (λ u. c ∷ u) (append.nil t)

three : (a b c : Char) (t : String) → (a ∷ (b ∷ (c ∷ []))) <> t ≡ a ∷ (b ∷ (c ∷ t))
three a b c t =
    append.cons a (b ∷ (c ∷ [])) t
    ∙ ap (λ u. a ∷ u) (append.cons b (c ∷ []) t ∙ ap (λ u. b ∷ u) (one c t))

module _ (schema table cluster : String) where
  abbrev pub name_text : String
  name_text = schema <> "." <> table <> "@" <> cluster

  abbrev pub key_text : String
  key_text = "hive_table" <> "://" <> cluster <> "." <> schema <> "/" <> table

  -- The schema has no dot or slash, the table no dot, and none of the parts an at sign.
  pub record Separable : Type 0 where
    pub schema_dot : avoids "." schema ≡ true
    pub schema_slash : avoids "/" schema ≡ true
    pub schema_at : avoids "@" schema ≡ true
    pub table_dot : avoids "." table ≡ true
    pub table_at : avoids "@" table ≡ true
    pub cluster_at : avoids "@" cluster ≡ true

  abbrev name_parts : String
  name_parts = schema <> ("." ∷ (table <> ("@" ∷ cluster)))

  abbrev after_database : String
  after_database = cluster <> ("." ∷ (schema <> ("/" ∷ table)))

  abbrev key_parts : String
  key_parts = "hive_table" <> (":" ∷ ("/" ∷ ("/" ∷ after_database)))

  name-eq : name_text ≡ name_parts
  name-eq = rw (one "@" cluster, one "." (table <> ("@" ∷ cluster))) refl

  key-eq : key_text ≡ key_parts
  key-eq =
      rw (one "/" table, one "." (schema <> ("/" ∷ table)), three ":" "/" "/" after_database) refl

  name_match :
      Separable
      → match_tokens table_qualified_name_regex name_text
        ≡ some (List.◌∷◌ schema (List.◌∷◌ table (List.◌∷◌ cluster List.[])))
  unfolding match_tokens
  name_match s =
      ap (match_tokens table_qualified_name_regex) name-eq
      ∙ lazily-literal "." _ schema (table <> ("@" ∷ cluster)) _ s.schema_dot
          (greedily-literal "@" _ table cluster _ s.cluster_at (lazily-end cluster))

  key_match :
      Separable
      → match_tokens table_key_regex key_text
        ≡ some (List.◌∷◌ "hive_table" (List.◌∷◌ cluster (List.◌∷◌ schema (List.◌∷◌ table List.[]))))
  unfolding match_tokens literal avoids
  key_match s =
      ap (match_tokens table_key_regex) key-eq
      ∙ lazily-literal ":" _ "hive_table" ("/" ∷ ("/" ∷ after_database)) _ refl (
          greedily-literal "." _ cluster (schema <> ("/" ∷ table)) _
            (avoids-append "." schema ("/" ∷ table) s.schema_dot s.table_dot)
            (lazily-literal "/" _ schema table _ s.schema_slash (lazily-end table)))

  key_no_match : Separable → match_tokens table_qualified_name_regex key_text ≡ none
  unfolding match_tokens avoids
  key_no_match s =
      ap (match_tokens table_qualified_name_regex) key-eq
      ∙ lazily-none "." "@" _ key_parts (
          avoids-append "@" "hive_table" (":" ∷ ("/" ∷ ("/" ∷ after_database))) refl (
            avoids-append "@" cluster ("." ∷ (schema <> ("/" ∷ table))) s.cluster_at
              (avoids-append "@" schema ("/" ∷ table) s.schema_at s.table_at)))

  abbrev pub name_key : AtlasKey
  name_key = record { raw_identifier = name_text; database = some "hive_table" }

  abbrev pub text_key : Option String → AtlasKey
  text_key database = record { raw_identifier = key_text; database = database }

  -- Where the schema has no dot or slash, the table no dot, and none of the parts an at sign: the key of
  -- Amundsen for the qualified name of a Hive table, and the qualified name for that key, are each
  -- other's, and both are of the type of a Hive table.
  pub qualified_name-amundsen_key :
      (database : Option String)
      → Separable
      → (amundsen_key name_key ≡ return key_text)
        × (qualified_name (text_key database) ≡ return name_text)
        × (entity_type name_key ≡ return "hive_table")
        × (entity_type (text_key database) ≡ return "hive_table")
  unfolding qualified_name amundsen_key entity_type
  qualified_name-amundsen_key database s = (
    rw (amundsen_key, name_match s) refl,
    rw (qualified_name, key_no_match s, key_match s) refl,
    rw (entity_type, name_match s) refl,
    rw (entity_type, key_no_match s, key_match s) refl,
  )
