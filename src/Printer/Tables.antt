-- ===== src/Printer/Tables.antt =====
-- The tables that are printed, and the formats (pkg/cli/printer.go).
use etcdops.Base.{
  ℕ, ◌+◌, String, ◌<>◌, List, [], ◌∷◌, Option, none, some, length, All, map, ◌≡◌, ◌≢◌, refl, sym,
  subst, ◌⊎◌, inl, inr, arith, str_eq, eq_iff, Bool-cases, Option-cases,
}
use etcdops.Kube.{Answer, ok, err}
use etcdops.Types.Cluster.{Cluster}
use etcdops.Types.Backup.{Backup}
use etcdops.Types.Pretty.{
  Formats, Cell, text, Row, cluster_rows, backup_rows, cluster_header, backup_header,
}
use etcdops.Printer.{
  Printable, cluster_list, backup_list, ColumnConfig, Table, Printer, number_columns, make_table,
  as_table, prettify, print_table, marshal, pretty_print,
}

-- Columns `i + 1`, `i + 2` and so on
abbrev pub Numbered : ℕ → List ColumnConfig → Type 0
Numbered i [] = Unit
Numbered i (c ∷ cs) = (c.column ≡ i + 1) × Numbered (i + 1) cs

-- Each column has a configuration, and each row a cell for each column.
pub record IsRectangular (t : Table) : Type 0 where
  pub configured : length t.column_configs ≡ length t.header
  pub numbered : Numbered 0 t.column_configs
  pub filled : All (λ r. length r ≡ length t.header) t.rows

-- The names of what is printed, in order
abbrev pub names : Printable → List String
names (Printable.cluster c) = c.metadata.name ∷ []
names (Printable.backup b) = b.metadata.name ∷ []
names (cluster_list cs) = map (λ c. c.metadata.name) cs
names (backup_list bs) = map (λ b. b.metadata.name) bs

-- The first cell of a row, if there is one
abbrev pub first_cell : Row → Option Cell
first_cell [] = none
first_cell (x ∷ row) = some x

-- A rectangular table with one row for each object, in order, with the object's name in front
abbrev pub Shows : Printable → Table → Type 0
Shows p t = IsRectangular t × (map first_cell t.rows ≡ map (λ s. some (text s)) (names p))

number_columns-Numbered : (i : ℕ) (header : Row) → Numbered i (number_columns i header)
unfolding number_columns
number_columns-Numbered i [] = tt
number_columns-Numbered i (x ∷ header) = (refl, number_columns-Numbered (i + 1) header)

length-number_columns : (i : ℕ) (header : Row) → length (number_columns i header) ≡ length header
unfolding number_columns
length-number_columns i [] = refl
length-number_columns i (x ∷ header) = omega (arith, length-number_columns (i + 1) header)

make_table-IsRectangular :
    (header : Row) (rows : List Row)
    → All (λ r. length r ≡ length header) rows
    → IsRectangular (make_table header rows)
unfolding make_table
make_table-IsRectangular header rows filled = record {
  configured = length-number_columns 0 header;
  numbered = number_columns-Numbered 0 header;
  filled = filled;
}

module _ (F : Formats) where
  cluster_rows-All :
      (cs : List Cluster) → All (λ r. length r ≡ length cluster_header) (cluster_rows F cs)
  unfolding cluster_rows cluster_header
  cluster_rows-All [] = tt
  cluster_rows-All (c ∷ cs) = (refl, cluster_rows-All cs)

  backup_rows-All :
      (bs : List Backup) → All (λ r. length r ≡ length backup_header) (backup_rows F bs)
  unfolding backup_rows backup_header
  backup_rows-All [] = tt
  backup_rows-All (b ∷ bs) = (refl, backup_rows-All bs)

  cluster_rows-names :
      (cs : List Cluster)
      → map first_cell (cluster_rows F cs)
        ≡ map (λ s. some (text s)) (map (λ c. c.metadata.name) cs)
  unfolding cluster_rows
  cluster_rows-names [] = refl
  cluster_rows-names (c ∷ cs) = cc (cluster_rows-names cs)

  backup_rows-names :
      (bs : List Backup)
      → map first_cell (backup_rows F bs) ≡ map (λ s. some (text s)) (map (λ b. b.metadata.name) bs)
  unfolding backup_rows
  backup_rows-names [] = refl
  backup_rows-names (b ∷ bs) = cc (backup_rows-names bs)

  -- A table that is printed is rectangular, with its columns numbered from one, and has one row for
  -- each object of the list, in order, with the object's name in front.
  pub as_table-IsRectangular : (p : Printable) {t : Table} → as_table F p ≡ some t → Shows p t
  unfolding as_table make_table
  as_table-IsRectangular (Printable.cluster c) h = absurd (ground arith)
  as_table-IsRectangular (Printable.backup b) h = absurd (ground arith)
  as_table-IsRectangular (cluster_list cs) {t = t} h =
      let table = make_table cluster_header (cluster_rows F cs) in
      let same : table ≡ t = ground arith in
      subst (Shows (cluster_list cs)) same (
        make_table-IsRectangular cluster_header (cluster_rows F cs) (cluster_rows-All cs),
        cluster_rows-names cs,
      )
  as_table-IsRectangular (backup_list bs) {t = t} h =
      let table = make_table backup_header (backup_rows F bs) in
      let same : table ≡ t = ground arith in
      subst (Shows (backup_list bs)) same (
        make_table-IsRectangular backup_header (backup_rows F bs) (backup_rows-All bs),
        backup_rows-names bs,
      )

module _ {E : Type 0} (P : Printer E) where
  -- A text with the end of its line, or the error
  abbrev pub as_line : Answer E String → Answer E String
  as_line (ok written) = ok (written <> "\n")
  as_line (err e) = err e

  -- The ways in which an object is written in a format
  pub data Writes (p : Printable) (output : String) : Answer E String → Type 0 where
    draws :
        {t : Table}
        → output ≡ "text"
        → as_table P.formats p ≡ some t
        → Writes p output (ok (P.render t <> "\n"))
    as_json : output ≡ "json" → Writes p output (as_line (P.marshal_json (prettify P.formats p)))
    as_yaml :
        output ≢ "json"
        → (output ≢ "text") ⊎ (as_table P.formats p ≡ none)
        → Writes p output (as_line (P.marshal_yaml (prettify P.formats p)))

  marshal-Writes :
      (p : Printable) (output : String)
      → (output ≢ "text") ⊎ (as_table P.formats p ≡ none)
      → Writes p output (marshal P p output)
  unfolding marshal
  marshal-Writes p output undrawn =
      let json = eq_iff output "json" in
      elim (Bool-cases (str_eq output "json")) [
        | inl h ↦
            let goes : marshal P p output ≡ as_line (P.marshal_json (prettify P.formats p)) =
              ground arith in
            subst (Writes p output) (sym goes) (as_json (json.0 h))
        | inr h ↦
            let goes : marshal P p output ≡ as_line (P.marshal_yaml (prettify P.formats p)) =
              ground arith in
            subst (Writes p output) (sym goes) (as_yaml (λ e. ground (arith, json.1 e)) undrawn)
      ]

  -- A list is drawn as a table exactly in the format `text`. All else is written as JSON if the
  -- format is `json`, and as YAML otherwise: a single object in the format `text`, and anything in a
  -- format that is none of the three, for which no error is reported.
  pub pretty_print-Writes :
      (p : Printable) (output : String) → Writes p output (pretty_print P p output)
  unfolding pretty_print print_table
  pretty_print-Writes p output =
      let drawn = eq_iff output "text" in
      elim (Option-cases (as_table P.formats p)) [
        | inl h ↦
            let goes : pretty_print P p output ≡ marshal P p output = ground arith in
            subst (Writes p output) (sym goes) (marshal-Writes p output (inr h))
        | inr (t, h) ↦ elim (Bool-cases (str_eq output "text")) [
          | inl yes_text ↦
              let goes : pretty_print P p output ≡ ok (P.render t <> "\n") = ground arith in
              subst (Writes p output) (sym goes) (draws (drawn.0 yes_text) h)
          | inr other ↦
              let goes : pretty_print P p output ≡ marshal P p output = ground arith in
              subst (Writes p output) (sym goes)
                (marshal-Writes p output (inl (λ e. ground (arith, drawn.1 e))))
        ]
      ]
