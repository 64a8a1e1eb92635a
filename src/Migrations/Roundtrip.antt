-- ===== src/Migrations/Roundtrip.antt =====
-- About alembic/versions: the two revisions on any database that has none of their names.
use lead_generation_api_zyla.Prelude.{List, ◌++◌}
use lead_generation_api_zyla.Migrations.Commands.{Command}
use lead_generation_api_zyla.Migrations.Versions.{
  initial_schema_upgrade, initial_schema_downgrade, add_billing_events_upgrade,
  add_billing_events_downgrade,
}

-- `alembic upgrade head`, from a database without a revision
abbrev pub upgrades : List Command
upgrades = initial_schema_upgrade ++ add_billing_events_upgrade

-- `alembic downgrade base`, from the last revision
abbrev pub downgrades : List Command
downgrades = add_billing_events_downgrade ++ initial_schema_downgrade
