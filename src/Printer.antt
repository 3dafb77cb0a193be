-- ===== src/Printer.antt =====
-- pkg/cli/printer.go: `PrettyPrint`. The marshallers and the drawing of a table are the parameter
-- `Printer`.
pub mod Tables
use etcdops.Base.{
  ℕ, suc, ◌+◌, String, ◌<>◌, Bool, true, false, ◌&&◌, List, [], ◌∷◌, Option, none, some, str_eq,
  if◌then◌else◌,
}
use etcdops.Kube.{Answer, ok, err}
use etcdops.Types.Cluster.{Cluster}
use etcdops.Types.Backup.{Backup}
use etcdops.Types.Pretty.{
  Formats, Row, PrettyCluster, PrettyBackup, prettify_cluster, prettify_clusters, prettify_backup,
  prettify_backups, cluster_header, cluster_rows, backup_header, backup_rows,
}

-- What the commands print
pub data Printable : Type 0 where
  cluster : Cluster → Printable
  backup : Backup → Printable
  cluster_list : List Cluster → Printable
  backup_list : List Backup → Printable

-- What `Prettify` returns, an `interface{}`
pub data Pretty : Type 0 where
  pretty_cluster : PrettyCluster → Pretty
  pretty_backup : PrettyBackup → Pretty
  pretty_clusters : List PrettyCluster → Pretty
  pretty_backups : List PrettyBackup → Pretty

-- `table.ColumnConfig`, centred in the header
pub record ColumnConfig : Type 0 where
  pub column : ℕ

-- A table before it is drawn
pub record Table : Type 0 where
  pub column_configs : List ColumnConfig
  pub header : Row
  pub rows : List Row

pub record Printer (E : Type 0) : Type 0 where
  pub formats : Formats
  -- `Table.Render`, `json.Marshal` and `yaml.Marshal`
  pub render : Table → String
  pub marshal_json : Pretty → Answer E String
  pub marshal_yaml : Pretty → Answer E String

-- The loop over the header from index `i`
unfoldable pub number_columns : ℕ → Row → List ColumnConfig
number_columns i [] = []
number_columns i (x ∷ header) = record { column = i + 1 } ∷ number_columns (i + 1) header

-- A `Tabler` as its header and its rows
unfoldable pub make_table : Row → List Row → Table
unfolding number_columns
make_table header rows = record {
  column_configs = number_columns 0 header;
  header = header;
  rows = rows;
}

module _ (F : Formats) where
  -- `obj.(Tabler)`: the two lists are, a single object is not.
  unfoldable pub as_table : Printable → Option Table
  unfolding make_table
  as_table (Printable.cluster c) = none
  as_table (Printable.backup b) = none
  as_table (cluster_list cs) = some (make_table cluster_header (cluster_rows F cs))
  as_table (backup_list bs) = some (make_table backup_header (backup_rows F bs))

  -- `obj.(Prettifier)`, which all of them are
  unfoldable pub prettify : Printable → Pretty
  prettify (Printable.cluster c) = pretty_cluster (prettify_cluster F c)
  prettify (Printable.backup b) = pretty_backup (prettify_backup F b)
  prettify (cluster_list cs) = pretty_clusters (prettify_clusters F cs)
  prettify (backup_list bs) = pretty_backups (prettify_backups F bs)

module _ {E : Type 0} (P : Printer E) where
  unfoldable pub print_table : Table → String
  print_table t = P.render t <> "\n"

  -- The second half of `PrettyPrint`, behind the early return
  unfoldable pub marshal : Printable → String → Answer E String
  unfolding prettify
  marshal p output =
      let pretty = prettify P.formats p in
      elim (if str_eq output "json" then P.marshal_json pretty else P.marshal_yaml pretty) [
        | ok written ↦ ok (written <> "\n")
        | err e ↦ err e
      ]

  -- The text that is printed, or the error
  unfoldable pub pretty_print : Printable → String → Answer E String
  unfolding as_table print_table marshal
  pretty_print p output = elim (as_table P.formats p) [
    | none ↦ marshal p output
    | some t ↦ if str_eq output "text" then ok (print_table t) else marshal p output
  ]
