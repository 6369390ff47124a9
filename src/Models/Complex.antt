-- ===== src/Models/Complex.antt =====
-- transformer/complex_type_transformer.py. The parsing function is configured by name and parses
-- with a third-party package: it is a parameter, and `none` is an exception of it.
use amundsen_fork.Prelude.{
  ℕ, ◌+◌, String, ◌≡◌, refl, ap, ◌∙◌, Option, none, some, List, [], ◌∷◌, All, map, arith, length,
}
use amundsen_fork.Models.TypeMetadata.{TypeMetadata, scalar_type}
use amundsen_fork.Models.Table.{ColumnMetadata, TableMetadata, get_col_key}
use amundsen_fork.Models.Table.Integrity.{IsKeyed, IsKeyedBy}

-- The type's text and the column's name, to the parsed type.
abbrev pub Parser : Type 0
Parser = String → String → Option TypeMetadata

-- What the transformer counts.
pub record Counts : Type 0 where
  pub success_count : ℕ
  pub failure_count : ℕ

module _ (parse : Parser) (t : TableMetadata) where
  -- The type that stands for one that cannot be parsed.
  abbrev scalar_of : ColumnMetadata → TypeMetadata
  scalar_of col =
      scalar_type
        (record { name = col.name; type_str = col.type; description = none; sort_order = none })

  -- `try`, `except` and `else`, on what the parser does.
  set_parsed : Option TypeMetadata → ColumnMetadata → Counts → ColumnMetadata × Counts
  set_parsed (some m) col counts = (
    record col { parsed = some (get_col_key t col, m) },
    record counts { success_count = counts.success_count + 1 },
  )
  set_parsed none col counts = (
    record col { parsed = some (get_col_key t col, scalar_of col) },
    record counts { failure_count = counts.failure_count + 1 },
  )

  transform_column : ColumnMetadata → Counts → ColumnMetadata × Counts
  unfolding set_parsed
  transform_column col counts = set_parsed (parse col.type col.name) col counts

  -- The loop over the columns, which are changed in place.
  transform_columns : List ColumnMetadata → Counts → List ColumnMetadata × Counts
  transform_columns [] counts = ([], counts)
  transform_columns (col ∷ cols) counts =
      let (col', counts') = transform_column col counts in
      let (cols', counts'') = transform_columns cols counts' in (col' ∷ cols', counts'')

  unfoldable pub transform : Counts → TableMetadata × Counts
  unfolding transform_column transform_columns
  transform counts =
      let (cols, counts') = transform_columns t.columns counts in
      (record t { columns = cols }, counts')

  set_parsed-IsKeyed :
      (o : Option TypeMetadata) (col : ColumnMetadata) (counts : Counts)
      → IsKeyedBy (get_col_key t (set_parsed o col counts).0) (set_parsed o col counts).0.parsed
  unfolding set_parsed get_col_key
  set_parsed-IsKeyed (some m) col counts = refl
  set_parsed-IsKeyed none col counts = refl

  column-IsKeyed :
      (col : ColumnMetadata) (counts : Counts)
      → IsKeyedBy
          (get_col_key t (transform_column col counts).0)
          (transform_column col counts).0.parsed
  unfolding transform_column
  column-IsKeyed col counts = set_parsed-IsKeyed (parse col.type col.name) col counts

  columns-IsKeyed :
      (cols : List ColumnMetadata) (counts : Counts)
      → All (λ col. IsKeyedBy (get_col_key t col) col.parsed) (transform_columns cols counts).0
  unfolding transform_columns
  columns-IsKeyed [] counts = tt
  columns-IsKeyed (col ∷ cols) counts =
      (column-IsKeyed col counts, columns-IsKeyed cols (transform_column col counts).1)

  column_counts :
      (col : ColumnMetadata) (counts : Counts)
      → (transform_column col counts).1.success_count
          + (transform_column col counts).1.failure_count
        ≡ counts.success_count + counts.failure_count + 1
  unfolding transform_column
  column_counts col counts = ground arith

  columns_counts :
      (cols : List ColumnMetadata) (counts : Counts)
      → (transform_columns cols counts).1.success_count
          + (transform_columns cols counts).1.failure_count
        ≡ counts.success_count + counts.failure_count + length cols
  unfolding transform_columns
  columns_counts [] counts = omega arith
  columns_counts (col ∷ cols) counts =
      omega (arith, columns_counts cols (transform_column col counts).1, column_counts col counts)

  -- The column with the type that it should have under its own key: the parsed one, or a scalar type
  -- of the column's name and type where parsing raises.
  abbrev pub expected_column : ColumnMetadata → ColumnMetadata
  expected_column col = record col {
    parsed = some (
      get_col_key t col,
      elim (parse col.type col.name) [
        | some m ↦ m
        | none ↦
            scalar_type (record {
              name = col.name;
              type_str = col.type;
              description = none;
              sort_order = none;
            })
      ],
    );
  }

  -- How many of the columns parse.
  abbrev pub parsing : List ColumnMetadata → ℕ
  parsing [] = 0
  parsing (col ∷ cols) = elim (parse col.type col.name) [
    | some _ ↦ parsing cols + 1
    | none ↦ parsing cols
  ]

  column-expected :
      (col : ColumnMetadata) (counts : Counts)
      → (transform_column col counts).0 ≡ expected_column col
  unfolding transform_column set_parsed
  column-expected col counts = ground arith

  columns-expected :
      (cols : List ColumnMetadata) (counts : Counts)
      → (transform_columns cols counts).0 ≡ map expected_column cols
  unfolding transform_columns
  columns-expected [] counts = refl
  columns-expected (col ∷ cols) counts =
      ap (λ c. c ∷ (transform_columns cols (transform_column col counts).1).0)
        (column-expected col counts)
      ∙ ap (λ cs. expected_column col ∷ cs) (columns-expected cols (transform_column col counts).1)

  columns-parsing :
      (cols : List ColumnMetadata) (counts : Counts)
      → (transform_columns cols counts).1.success_count ≡ counts.success_count + parsing cols
  unfolding transform_columns transform_column set_parsed
  columns-parsing [] counts = omega arith
  columns-parsing (col ∷ cols) counts =
      go (parse col.type col.name) (columns-parsing cols (transform_column col counts).1)
    where
      go :
          (o : Option TypeMetadata)
          → (transform_columns cols (set_parsed o col counts).1).1.success_count
            ≡ (set_parsed o col counts).1.success_count + parsing cols
          → (transform_columns cols (set_parsed o col counts).1).1.success_count
            ≡ counts.success_count + (elim o [ some _ ↦ parsing cols + 1 | none ↦ parsing cols ])
      go (some m) h = omega (arith, h)
      go none h = h

-- The transformed table is the given one with, in each column under the column's own key, its parsed
-- type, or the scalar type of its name and type where the parser raises. The columns that parse are
-- counted as successes, and the others as failures.
pub transform-IsKeyed :
    (parse : Parser) (t : TableMetadata) (counts : Counts)
    → IsKeyed (transform parse t counts).0
      × ((transform parse t counts).0
          ≡ record t { columns = map (expected_column parse t) t.columns })
      × ((transform parse t counts).1.success_count
          ≡ counts.success_count + parsing parse t t.columns)
      × ((transform parse t counts).1.success_count + (transform parse t counts).1.failure_count
          ≡ counts.success_count + counts.failure_count + length t.columns)
unfolding transform get_col_key
transform-IsKeyed parse t counts = (
  columns-IsKeyed parse t t.columns counts,
  ap (λ cols. record t { columns = cols }) (columns-expected parse t t.columns counts),
  columns-parsing parse t t.columns counts,
  columns_counts parse t t.columns counts,
)
