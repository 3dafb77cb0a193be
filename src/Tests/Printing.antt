-- ===== src/Tests/Printing.antt =====
-- The printer and the commands that read, with a printer that draws nothing but the names.
use etcdops.Base.{String, ◌<>◌, List, [], ◌∷◌, none, some, ◌≡◌, refl}
use etcdops.Base.Text.{decimal_int, decimal}
use etcdops.Kube.{ok}
use etcdops.Types.Pretty.{Formats, text, Row, cluster_header, cluster_rows, prettify_cluster}
use etcdops.Printer.{
  Printable, cluster_list, backup_list, Table, Printer, Pretty, pretty_cluster, make_table,
  as_table, pretty_print, number_columns, prettify, marshal, print_table,
}
use etcdops.Printer.Tables.{Shows, Writes, as_table-IsRectangular, pretty_print-Writes}
use etcdops.Commands.{GlobalFlags, not_found}
use etcdops.Console.{fails}
use etcdops.Commands.Read.{
  get_command, list_command, list_backups_command, in_namespace, written, list_command_namespace,
  Ends, backup_labels,
}
use etcdops.Tests.Clusters.{three}
use etcdops.Tests.Terminal.{desk}

abbrev plain : Formats
plain = record { human_duration = λ d. decimal_int d; format_time = λ layout t. decimal_int t }

-- The names of the first column, one after the other
abbrev draw_row : Row → String
draw_row (text s ∷ row) = s <> ";"
draw_row _ = ""

abbrev draw : List Row → String
draw [] = ""
draw (r ∷ rows) = draw_row r <> draw rows

abbrev name_of : Pretty → String
name_of (pretty_cluster c) = c.name
name_of _ = ""

abbrev plain_printer : Printer String
plain_printer = record {
  formats = plain;
  render = λ t. draw t.rows;
  marshal_json = λ p. ok ("{" <> (name_of p <> "}"));
  marshal_yaml = λ p. ok (name_of p);
}

abbrev as_text : GlobalFlags
as_text = record { namespace = ""; output = "text" }

what_prints : Unit {0}
unfolding as_table pretty_print prettify marshal print_table make_table cluster_rows decimal_int
    decimal written get_command list_command prettify_cluster cluster_header number_columns
what_prints = tt

lists_names :
    written desk plain_printer as_text (list_command desk as_text []).0 ≡ some (ok "etcd;\n")
unfolding what_prints
lists_names = refl

-- A single cluster has no table.
gets_yaml : written desk plain_printer as_text (get_command desk "etcd" []).0 ≡ some (ok "etcd\n")
unfolding what_prints
gets_yaml = refl

abbrev one_row : Table
one_row = make_table cluster_header (cluster_rows plain (three ∷ []))

one_row_drawn : as_table plain (cluster_list (three ∷ [])) ≡ some one_row
unfolding what_prints
one_row_drawn = refl

as_table-IsRectangular_example : Shows (cluster_list (three ∷ [])) one_row
as_table-IsRectangular_example =
    as_table-IsRectangular plain (cluster_list (three ∷ [])) one_row_drawn

pretty_print-Writes_example :
    Writes plain_printer
      (Printable.cluster three)
      "text"
      (pretty_print plain_printer (Printable.cluster three) "text")
pretty_print-Writes_example = pretty_print-Writes plain_printer (Printable.cluster three) "text"

list_command_namespace_example :
    Ends cluster_list fails (desk.list_clusters as_text.namespace []) (list_command desk as_text [])
    × Ends backup_list fails
        (desk.list_backups as_text.namespace (backup_labels none) [])
        (list_backups_command desk as_text none [])
    × Ends Printable.cluster
        (not_found desk "etcd")
        (desk.get (record { name = "etcd"; namespace = "prod" }) [])
        (get_command desk "etcd" [])
    × (list_command (in_namespace desk "prod") as_text []
        ≡ list_command (in_namespace desk "test") as_text [])
    × (list_backups_command (in_namespace desk "prod") as_text none []
        ≡ list_backups_command (in_namespace desk "test") as_text none [])
unfolding what_prints
list_command_namespace_example =
    list_command_namespace desk as_text none "etcd" "prod" "prod" "test" [] {v = []} refl
