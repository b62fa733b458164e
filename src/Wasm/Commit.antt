-- ===== src/Wasm/Commit.antt =====
-- src/wasm/host_functions.cpp: CommitHostCall, which writes what a call has staged to the storage
-- engine and publishes its events. The rows are those that JsonToRow makes.
mod MissingTables
pub mod Staging
mod Tests
use origindb.Prelude.{
  ℕ, Bool, true, false, ◌||◌, Option, none, some, Text, [], ◌∷◌, ◌++◌, List, map, if◌then◌else◌,
  ascii, Assoc,
}
use origindb.Changefeed.Event.{ChangefeedEvent}
use origindb.Transaction.{Transaction, read_committed, insert_row, update_row, delete_row}
use origindb.Wal.Log.{Log}
use origindb.Engine.{Json, Engine, Committed}
use origindb.Engine.Methods.{
  Creation, created, existing, thrown, has_table, create, get_table, begin_transaction, commit,
  rollback, get_row,
}
use origindb.Wasm.Host.{StagedEvent, HostCall}
use origindb.Wasm.Engine.{Failure}
use origindb.Document.{JsonLibrary}
use origindb.Wasm.Rows.{schema_from_json, json_to_row}

-- True, false with this error, or an exception.
pub data Outcome : Type 0 where
  succeeded : Outcome
  failed : Text → Outcome
  broken_off : Outcome

-- What the commit of a call leaves: the storage, the events that it published, and its outcome.
pub record CallCommitted (State : Type 0) : Type 0 where
  pub engine : Engine State
  pub published : List ChangefeedEvent
  pub outcome : Outcome

-- A custom event of the module at the time of its publication.
unfoldable pub custom_event : Text → ℕ → StagedEvent → ChangefeedEvent
custom_event module_name now ev = record {
  offset = 0;
  transaction_id = ascii "wasm-" ++ module_name;
  table = ev.topic;
  operation = ascii "EVENT";
  key = ev.key;
  old_value = [];
  new_value = ev.payload;
  timestamp = now;
}

abbrev pub is_found {ℓ} : {A : Type ℓ} → Option A → Bool
is_found none = false
is_found (some a) = true

module _ {J : Type 0} where
  -- The first staged write of a table that is not a delete.
  unfoldable pub first_value : Assoc (Option J) → Option J
  first_value [] = none
  first_value ((key, none) ∷ writes) = first_value writes
  first_value ((key, some value) ∷ writes) = some value

module _ (L : Log) (json : Json) {J : Type 0} (library : JsonLibrary J) where
  abbrev pub after_creation : Text → Engine L.State × Creation → Engine L.State × Outcome
  unfolding has_table get_table
  after_creation table (e, created) = (e, succeeded)
  after_creation table (e, existing) = (
    e,
    if has_table (get_table L json table e)
        then succeeded
        else failed (ascii "failed to auto-create table: " ++ table),
  )
  after_creation table (e, thrown) = (e, broken_off)

  abbrev pub make_missing : Text → Option J → Engine L.State → Engine L.State × Outcome
  unfolding create after_creation schema_from_json
  make_missing table none e = (e, succeeded)
  make_missing table (some value) e =
      after_creation table (create L json (schema_from_json library table value) e)

  abbrev pub and_then :
      Engine L.State × Outcome
      → (Engine L.State → Engine L.State × Outcome)
      → Engine L.State × Outcome
  and_then (e, succeeded) next = next e
  and_then (e, failed error) next = (e, failed error)
  and_then (e, broken_off) next = (e, broken_off)

  -- Missing tables are made, with the columns of the first row that is written.
  unfoldable pub auto_create : Assoc (Assoc (Option J)) → Engine L.State → Engine L.State × Outcome
  unfolding make_missing first_value
  auto_create [] e = (e, succeeded)
  auto_create ((table, writes) ∷ overlay) e =
      and_then
        (if has_table (get_table L json table e)
          then (e, succeeded)
          else make_missing table (first_value writes) e)
        (auto_create overlay)

  -- One staged write: `storage->Get` tells an update from an insert.
  unfoldable pub stage_write :
      Text → Text → Option J → Engine L.State → Transaction → Transaction × Bool
  unfolding json_to_row get_row insert_row update_row delete_row
  stage_write table key none e txn = delete_row table key txn
  stage_write table key (some value) e txn =
      if is_found (get_row L json table key e)
      then update_row table key (json_to_row library key value) txn
      else insert_row table (json_to_row library key value) txn

  unfoldable pub stage_writes :
      Text → Assoc (Option J) → Engine L.State → Transaction → Transaction × Failure
  unfolding stage_write
  stage_writes table [] e txn = (txn, none)
  stage_writes table ((key, value) ∷ writes) e txn =
      let (txn', staged) = stage_write table key value e txn in
      let rest = stage_writes table writes e txn' in
      if staged
      then rest
      else (txn', some (ascii "failed to stage write to " ++ (table ++ (ascii "/" ++ key))))

  abbrev pub unless_failed :
      Transaction × Failure → (Transaction → Transaction × Failure) → Transaction × Failure
  unless_failed (txn, none) next = next txn
  unless_failed (txn, some error) next = (txn, some error)

  unfoldable pub stage_overlay :
      Assoc (Assoc (Option J)) → Engine L.State → Transaction → Transaction × Failure
  unfolding stage_writes
  stage_overlay [] e txn = (txn, none)
  stage_overlay ((table, writes) ∷ overlay) e txn =
      unless_failed (stage_writes table writes e txn) (stage_overlay overlay e)

  abbrev pub with_custom : List ChangefeedEvent → Committed L.State → CallCommitted L.State
  with_custom custom c = record {
    engine = c.engine;
    published = if c.success then c.published ++ custom else c.published;
    outcome =
        if c.success
        then succeeded
        else if c.thrown
        then broken_off
        else failed (ascii "transaction commit failed");
  }

  abbrev pub commit_staged :
      (ℕ → ℕ)
      → List ChangefeedEvent
      → Engine L.State
      → Transaction × Failure
      → CallCommitted L.State
  unfolding commit rollback
  commit_staged clock custom e (txn, none) = with_custom custom (commit L json clock txn e)
  commit_staged clock custom e (txn, some error) = record {
    engine = (rollback L json txn e).engine;
    published = [];
    outcome = failed error;
  }

  abbrev pub after_create :
      (ℕ → ℕ)
      → List ChangefeedEvent
      → Assoc (Assoc (Option J))
      → Engine L.State × Outcome
      → CallCommitted L.State
  unfolding stage_overlay begin_transaction
  after_create clock custom overlay (e, failed error) = record {
    engine = e;
    published = [];
    outcome = failed error;
  }
  after_create clock custom overlay (e, broken_off) = record {
    engine = e;
    published = [];
    outcome = broken_off;
  }
  after_create clock custom overlay (e, succeeded) =
      let (e', txn) = begin_transaction L json read_committed e in
      commit_staged clock custom e' (stage_overlay overlay e' txn)

  abbrev pub commit_overlay :
      (ℕ → ℕ)
      → List ChangefeedEvent
      → Assoc (Assoc (Option J))
      → Engine L.State
      → CallCommitted L.State
  unfolding auto_create
  commit_overlay clock custom [] e = record { engine = e; published = custom; outcome = succeeded }
  commit_overlay clock custom (w ∷ ws) e =
      after_create clock custom (w ∷ ws) (auto_create (w ∷ ws) e)

  -- `has_storage` and `has_changefeed` tell whether the context of the reducer has them. The events of
  -- the module come after those of the transaction.
  unfoldable pub commit_host_call :
      Bool → Bool → Text → (ℕ → ℕ) → ℕ → HostCall J → Engine L.State → CallCommitted L.State
  unfolding commit_overlay custom_event
  commit_host_call has_storage has_changefeed module_name clock now call e =
      let custom = if has_changefeed then map (custom_event module_name now) call.events else [] in
      if has_storage then commit_overlay clock custom call.overlay e else record {
        engine = e;
        published = [];
        outcome = failed (ascii "no storage engine in reducer context");
      }
