-- ===== src/ColumnMapping/Tests.antt =====
-- Runs of "partition id", and the theorem at a concrete input.
use tidb_tools.Prelude.{◌≡◌, refl, none, true, List, [], ◌∷◌}
use tidb_tools.ColumnMapping.Partition.{
  Arguments, Ids, default_rule, set_partition_rule, compute_id, partition_id,
}
use tidb_tools.ColumnMapping.Rule.{
  Rule, partition_id_expr, valid, adjust, Value, text, values, id_value, partition_id_values,
  parse_int, format_digits,
}
use tidb_tools.ColumnMapping.Ready.{Ready, adjust-Ready}

abbrev arguments : Arguments
arguments = record { instance_id = "1"; schema_prefix = "schema"; table_prefix = "t"; sep = "_" }

abbrev ids : Ids
ids = record { instance = 576460752303423488; schema = 9007199254740992; table = 35184372088832 }

-- No number behind the prefix, and a number of more than the seven bits.
no_id : compute_id "schema_x" "schema" "_" 7 52 ≡ none
unfolding compute_id
no_id = refl

too_large : compute_id "schema_128" "schema" "_" 7 52 ≡ none
unfolding compute_id
too_large = refl

limit_by_default : set_partition_rule 4 7 8 ≡ default_rule
unfolding set_partition_rule
limit_by_default = refl

abbrev id_rule : Rule
id_rule = record {
  pattern_schema = "schema_*";
  pattern_table = "t_*";
  source_column = "";
  target_column = "id";
  expression = partition_id_expr;
  arguments = "1" ∷ "schema" ∷ "t" ∷ [];
  create_table_query = "";
}

adjust-Ready_example : Ready (adjust id_rule).expression (adjust id_rule).arguments
unfolding valid
adjust-Ready_example = adjust-Ready id_rule refl

abbrev row : List Value
row = text "a" ∷ text "5" ∷ []

id_as_text : id_value true 585503135930253317 ≡ text "585503135930253317"
unfolding format_digits
id_as_text = refl

id_in_row :
    partition_id_values default_rule ids 1 row ≡ values (text "a" ∷ text "585503135930253317" ∷ [])
unfolding partition_id_values partition_id parse_int format_digits
id_in_row = refl
