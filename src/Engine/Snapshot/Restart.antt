-- ===== src/Engine/Snapshot/Restart.antt =====
-- A restart of src/storage/storage_engine.cpp over the snapshot that WriteSnapshot left.
use origindb.Prelude.{
  ℕ, ◌+◌, ◌%◌, ◌^◌, ◌≡◌, refl, sym, ap, ◌∙◌, true, false, Option, none, some, Text, [], ◌∷◌, map,
  ascii, find, insert_sorted, Distinct, text_eq, text_ltb,
}
use mathlib.Core.Option
use origindb.MemTable.{MemTable}
use origindb.Wal.Log.{Log}
use origindb.Engine.{Json, Engine, Tables}
use origindb.Engine.Replay.{recover_from_wal, recover_changes}
use origindb.Engine.Recovery.Restart.{restarted}
use origindb.Document.{JsonLibrary, set_members, map_values, IsDocumented, IsTextual}
use origindb.Engine.Documents.{◌>>=◌}
use origindb.Engine.Snapshot.{
  Snapshot, is_empty, restore_parsed, table_documents, snapshot_document, load_snapshot, replaced,
  write_snapshot, initialize,
}
use origindb.Document.Members.{members_reread}
use origindb.Engine.Snapshot.Restore.{
  AreTables, bind-some, restored_table, restored_in, restore_tables-table_documents,
}

module _ {J : Type 0} (json : JsonLibrary J) (doc : IsDocumented json) (texts : IsTextual json)
    (L : Log) (codec : Json) where
  abbrev with_count : ℕ → Engine L.State → Engine L.State
  with_count n e = record e {
    stats = record e.stats { total_rows = (e.stats.total_rows + n) % 2 ^ 64 };
  }

  empty_before :
      (t : Option MemTable) → restored_in json t none ≡ Option.map (restored_table json) t
  empty_before none = refl
  empty_before (some t) = refl

  pub load_snapshot-snapshot_document :
      (last_sequence : ℕ) (tables : Tables) (d : J) (text : Text) (e : Engine L.State)
      → AreTables tables
      → Distinct tables
      → e.tables ≡ []
      → snapshot_document json last_sequence tables ≡ some d
      → json.dump d ≡ some text
      → (e' : Engine L.State) × (load_snapshot L codec json (some text) e ≡ some e')
        × (e'.wal ≡ e.wal)
        × ((name : Text)
            → find name e'.tables ≡ Option.map (restored_table json) (find name tables))
  unfolding load_snapshot snapshot_document set_members insert_sorted text_eq text_ltb find
      map_values
  load_snapshot-snapshot_document last_sequence tables d text e are distinct fresh documented
        dumped =
      let (docs, tabled, made) = bind-some (table_documents json tables) _ documented in
      let (e', n', restored, same_wal, finds) =
        restore_tables-table_documents json doc texts L codec tables docs 0 e are distinct tabled in
      let read =
        texts.parse_dump d text dumped ∙ ap (λ o. o >>= λ d'. some (texts.reread d')) (sym made) in
      (
        with_count n' e',
        ap (λ o. restore_parsed L codec json o e) read
            ∙ rw
                (
                  members_reread json doc texts
                      ((ascii "last_sequence", json.of_integer last_sequence)
                        ∷ (ascii "tables", json.of_array docs)
                        ∷ [])
                      (refl, tt),
                  texts.reread_array docs,
                  doc.array_elements (map texts.reread docs),
                  restored,
                )
                refl,
        same_wal,
        λ name.
            finds name
            ∙ ap (λ old. restored_in json (find name tables) (find name old)) fresh
            ∙ empty_before (find name tables),
      )

  -- What a snapshot that took place is made of.
  pub write_snapshot-replaced :
      (last_sequence : L.State → ℕ) (stored : Text → Text) (file : Option Text) (e : Engine L.State)
      (snapshot : Snapshot L.State)
      → is_empty e.tables ≡ false
      → write_snapshot L codec json last_sequence true true true stored file e ≡ some snapshot
      → (d : J) × (text : Text) × (snapshot_document json (last_sequence e.wal) e.tables ≡ some d)
        × (json.dump d ≡ some text)
        × (some (replaced L codec json true true stored file e text) ≡ some snapshot)
  unfolding write_snapshot
  write_snapshot-replaced last_sequence stored file e snapshot some_table h =
      let h' = rw some_table at h in
      let (d, documented, h'') =
        bind-some (snapshot_document json (last_sequence e.wal) e.tables) _ h' in
      let (text, dumped, made) =
        bind-some (json.dump d) (λ text. some (replaced L codec json true true stored file e text))
          h'' in
      (d, text, documented, dumped, made)

  -- In IsDocumented and IsTextual, where the closed file has the whole text, the log is intact, the
  -- names of the tables differ, each table stands under the name in its schema and each row under its
  -- key, and rows and columns ascend: after a snapshot of one or more tables was written without an
  -- exception, with its file renamed and so the log truncated, a restart over the two does not fail,
  -- and finds under each name the table that was there, as it comes back from its text, and no other.
  pub initialize-write_snapshot :
      (last_sequence : L.State → ℕ) (stored : Text → Text) (file : Option Text) (e : Engine L.State)
      (snapshot : Snapshot L.State) (clock : ℕ → ℕ)
      → ((text : Text) → stored text ≡ text)
      → L.Intact e.wal
      → AreTables e.tables
      → Distinct e.tables
      → is_empty e.tables ≡ false
      → write_snapshot L codec json last_sequence true true true stored file e ≡ some snapshot
      → (e' : Engine L.State) × (initialize L codec json clock snapshot.file
            (restarted L codec [] snapshot.engine)
          ≡ some e')
        × ((name : Text)
            → find name e'.tables ≡ Option.map (restored_table json) (find name e.tables))
  unfolding initialize recover_from_wal recover_changes
  initialize-write_snapshot last_sequence stored file e snapshot clock whole intact are distinct
        some_table h =
      let (d, text, documented, dumped, made) =
        write_snapshot-replaced last_sequence stored file e snapshot some_table h in
      let after : Engine L.State = record e { wal = L.truncate e.wal } in
      let (e', loaded, same_wal, finds) =
        load_snapshot-snapshot_document (last_sequence e.wal) e.tables d text
          (restarted L codec [] after) are distinct refl documented dumped in
      (
        e',
        ap (λ o. o >>= λ s. initialize L codec json clock s.file (restarted L codec [] s.engine))
              (sym made)
            ∙ rw (whole text, loaded, same_wal, (L.truncate_lem e.wal intact).1) refl,
        finds,
      )
