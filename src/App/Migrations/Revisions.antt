-- ===== src/App/Migrations/Revisions.antt =====
-- migrations/versions: the revisions, the oldest first.
use orca_validator.Prelude.{true, false, Bool, List, [], ◌∷◌, none, some, Text, lit}
use orca_validator.App.Migrations.{
  SqlType, uuid, text, date_time, jsonb, float, string, Column, Table, Op, create_table, drop_table,
  create_index, drop_index, add_column, drop_column, Revision,
}

abbrev pub column : Text → SqlType → Bool → Column
column name sql_type nullable = record {
  name = name;
  sql_type = sql_type;
  nullable = nullable;
  server_default = none;
}

-- A column with a default of the server, which is not null.
abbrev pub defaulted : Text → SqlType → Text → Column
defaulted name sql_type default = record {
  name = name;
  sql_type = sql_type;
  nullable = false;
  server_default = some default;
}

abbrev pub index : Text → Text → Text → Bool → Op
index name table on unique =
    create_index (record { name = name; table = table; column = on; unique = unique })

abbrev pub documents_table : Table
documents_table = record {
  name = lit "documents";
  columns =
      column (lit "id") uuid false
      ∷ column (lit "owner") (string 255) false
      ∷ column (lit "doc_type") (string 64) false
      ∷ column (lit "filename") (string 512) false
      ∷ column (lit "blob_ref") (string 1024) false
      ∷ column (lit "status") (string 32) false
      ∷ defaulted (lit "created_at") date_time (lit "now()")
      ∷ defaulted (lit "updated_at") date_time (lit "now()")
      ∷ [];
  foreign_keys = [];
  primary_key = lit "id";
}

abbrev pub machine_snapshots_table : Table
machine_snapshots_table = record {
  name = lit "machine_snapshots";
  columns =
      column (lit "run_id") (string 256) false
      ∷ column (lit "machine_name") (string 128) false
      ∷ column (lit "current_state") (string 128) false
      ∷ column (lit "snapshot_json") jsonb false
      ∷ defaulted (lit "created_at") date_time (lit "now()")
      ∷ defaulted (lit "updated_at") date_time (lit "now()")
      ∷ [];
  foreign_keys = [];
  primary_key = lit "run_id";
}

abbrev pub validation_runs_table : Table
validation_runs_table = record {
  name = lit "validation_runs";
  columns =
      column (lit "id") uuid false
      ∷ column (lit "document_id") uuid false
      ∷ column (lit "machine_id") (string 128) false
      ∷ column (lit "machine_version") (string 64) false
      ∷ column (lit "machine_hash") (string 128) false
      ∷ column (lit "status") (string 32) false
      ∷ column (lit "error") text true
      ∷ defaulted (lit "queued_at") date_time (lit "now()")
      ∷ column (lit "started_at") date_time true
      ∷ column (lit "finished_at") date_time true
      ∷ [];
  foreign_keys = (lit "document_id", lit "documents.id") ∷ [];
  primary_key = lit "id";
}

abbrev pub validation_results_table : Table
validation_results_table = record {
  name = lit "validation_results";
  columns =
      column (lit "id") uuid false
      ∷ column (lit "run_id") uuid false
      ∷ column (lit "verdict") (string 16) false
      ∷ column (lit "final_state") (string 128) false
      ∷ column (lit "reasons") jsonb false
      ∷ column (lit "extracted_fields") jsonb false
      ∷ column (lit "machine_context") jsonb false
      ∷ defaulted (lit "created_at") date_time (lit "now()")
      ∷ [];
  foreign_keys = (lit "run_id", lit "validation_runs.id") ∷ [];
  primary_key = lit "id";
}

abbrev pub initial_schema_upgrade : List Op
initial_schema_upgrade =
    create_table documents_table
    ∷ index (lit "ix_documents_doc_type") (lit "documents") (lit "doc_type") false
    ∷ index (lit "ix_documents_owner") (lit "documents") (lit "owner") false
    ∷ index (lit "ix_documents_status") (lit "documents") (lit "status") false
    ∷ create_table machine_snapshots_table
    ∷ index (lit "ix_machine_snapshots_current_state") (lit "machine_snapshots")
        (lit "current_state") false
    ∷ create_table validation_runs_table
    ∷ index (lit "ix_validation_runs_document_id") (lit "validation_runs") (lit "document_id") false
    ∷ index (lit "ix_validation_runs_status") (lit "validation_runs") (lit "status") false
    ∷ create_table validation_results_table
    ∷ index (lit "ix_validation_results_run_id") (lit "validation_results") (lit "run_id") true
    ∷ []

abbrev pub initial_schema_downgrade : List Op
initial_schema_downgrade =
    drop_index (lit "ix_validation_results_run_id") (lit "validation_results")
    ∷ drop_table (lit "validation_results")
    ∷ drop_index (lit "ix_validation_runs_status") (lit "validation_runs")
    ∷ drop_index (lit "ix_validation_runs_document_id") (lit "validation_runs")
    ∷ drop_table (lit "validation_runs")
    ∷ drop_index (lit "ix_machine_snapshots_current_state") (lit "machine_snapshots")
    ∷ drop_table (lit "machine_snapshots")
    ∷ drop_index (lit "ix_documents_status") (lit "documents")
    ∷ drop_index (lit "ix_documents_owner") (lit "documents")
    ∷ drop_index (lit "ix_documents_doc_type") (lit "documents")
    ∷ drop_table (lit "documents")
    ∷ []

abbrev pub initial_schema : Revision
initial_schema = record {
  revision = lit "4e423202c85f";
  down_revision = none;
  upgrade = initial_schema_upgrade;
  downgrade = initial_schema_downgrade;
}

abbrev pub ai_layer_upgrade : List Op
ai_layer_upgrade =
    add_column (lit "validation_results") (defaulted (lit "analysis") jsonb (lit "{}"))
    ∷ add_column (lit "validation_results") (column (lit "revised_markdown") text true)
    ∷ add_column (lit "validation_results")
        (defaulted (lit "analysis_status") (string 32) (lit "skipped"))
    ∷ []

abbrev pub ai_layer_downgrade : List Op
ai_layer_downgrade =
    drop_column (lit "validation_results") (lit "analysis_status")
    ∷ drop_column (lit "validation_results") (lit "revised_markdown")
    ∷ drop_column (lit "validation_results") (lit "analysis")
    ∷ []

abbrev pub ai_layer : Revision
ai_layer = record {
  revision = lit "0002_ai_layer";
  down_revision = some (lit "4e423202c85f");
  upgrade = ai_layer_upgrade;
  downgrade = ai_layer_downgrade;
}

abbrev pub document_fsm_upgrade : List Op
document_fsm_upgrade =
    add_column (lit "validation_results") (defaulted (lit "document_fsm") jsonb (lit "{}")) ∷ []

abbrev pub document_fsm_downgrade : List Op
document_fsm_downgrade = drop_column (lit "validation_results") (lit "document_fsm") ∷ []

abbrev pub document_fsm : Revision
document_fsm = record {
  revision = lit "0003_document_fsm";
  down_revision = some (lit "0002_ai_layer");
  upgrade = document_fsm_upgrade;
  downgrade = document_fsm_downgrade;
}

abbrev pub run_temperature_upgrade : List Op
run_temperature_upgrade =
    add_column (lit "validation_runs") (defaulted (lit "temperature") float (lit "0.03")) ∷ []

abbrev pub run_temperature_downgrade : List Op
run_temperature_downgrade = drop_column (lit "validation_runs") (lit "temperature") ∷ []

abbrev pub run_temperature : Revision
run_temperature = record {
  revision = lit "0004_run_temperature";
  down_revision = some (lit "0003_document_fsm");
  upgrade = run_temperature_upgrade;
  downgrade = run_temperature_downgrade;
}

-- The chain of revisions.
abbrev pub history : List Revision
history = initial_schema ∷ ai_layer ∷ document_fsm ∷ run_temperature ∷ []
