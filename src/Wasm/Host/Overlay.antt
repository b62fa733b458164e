-- ===== src/Wasm/Host/Overlay.antt =====
-- The staged writes of src/wasm/host_functions.cpp: what a call reads after it wrote, and what a module
-- without the permission cannot do.
use origindb.Prelude.{
  ℕ, ◌≡◌, true, false, ◌&&◌, Option, none, some, Text, ascii, text_eq, if◌then◌else◌, arith, find,
  insert_sorted, find-insert_sorted, text_eq_iff, text_eq_refl,
}
use origindb.Wasm.Guest.{read_bytes, read_c_string}
use mathlib.Core.Option
use origindb.Wasm.Host.{
  staged, reply_row, reply_out, host_table_read, max_table_name, table_allowed, i32, HostCall, Host,
  Capabilities, Services, stage, writes_of, with_call, read_row, host_table_write,
  host_table_delete, is_read_only,
}

module _ {J : Type 0} where
  -- The staged write of a table and key.
  abbrev pub staged_at : HostCall J → Text → Text → Option (Option J)
  staged_at call table key = find key (writes_of table call)

  pub staged_at-stage :
      (call : HostCall J) (table key t k : Text) (value : Option J)
      → staged_at (stage table key value call) t k
        ≡ (if text_eq table t && text_eq key k then some value else staged_at call t k)
  unfolding stage
  staged_at-stage call table key t k value = ground (
    arith,
    find-insert_sorted table t (insert_sorted key value (writes_of table call)) call.overlay,
    find-insert_sorted key k value (writes_of table call),
    text_eq_iff table t,
  )

  staged_at_self :
      (call : HostCall J) (table key : Text) (value : Option J)
      → staged_at (stage table key value call) table key ≡ some value
  staged_at_self call table key value =
      ground (
        arith,
        staged_at-stage call table key table key value,
        text_eq_refl table,
        text_eq_refl key,
      )

module _ {J : Type 0} (services : Services J) (caps : Option Capabilities) where
  -- The arguments are in bounds, and the module may write to the table.
  pub record MayWrite (table key key_len : ℕ) (name k : Text) (h : Host J) : Type 0 where
    pub table_read : read_c_string h.memory table max_table_name ≡ some name
    pub key_read : read_bytes h.memory key key_len ≡ some k
    pub writes : is_read_only caps ≡ false
    pub allowed : table_allowed caps name ≡ true

  -- What HostTableRead answers after the call staged a value or a delete at its arguments.
  read-stage :
      (table key key_len out_ptr out_len : ℕ) (name k : Text) (value : Option J) (call : HostCall J)
      (h : Host J)
      → MayWrite table key key_len name k h
      → host_table_read services caps table key key_len out_ptr out_len
          (staged h (stage name k value call))
        ≡ reply_row services caps out_ptr out_len
            (staged h (stage name k value call))
            (Option.map services.dump value)
  unfolding host_table_read read_row with_call
  read-stage table key key_len out_ptr out_len name k none call h may =
      rw (may.table_read, may.key_read, may.allowed, staged_at_self call name k none)
  read-stage table key key_len out_ptr out_len name k (some v) call h may =
      rw (may.table_read, may.key_read, may.allowed, staged_at_self call name k (some v))

  write-stage :
      (table key key_len value value_len : ℕ) (name k bytes : Text) (v : J) (call : HostCall J)
      (h : Host J)
      → MayWrite table key key_len name k h
      → read_bytes h.memory value value_len ≡ some bytes
      → services.parse bytes ≡ some v
      → services.is_object v ≡ true
      → host_table_write services caps table key key_len value value_len (staged h call)
        ≡ (staged h (stage name k (some v) call), i32 0)
  unfolding host_table_write with_call
  write-stage table key key_len value value_len name k bytes v call h may b p o =
      rw (may.table_read, may.key_read, b, may.writes, may.allowed, p, o)

  delete-stage :
      (table key key_len : ℕ) (name k : Text) (call : HostCall J) (h : Host J)
      → MayWrite table key key_len name k h
      → host_table_delete services caps table key key_len (staged h call)
        ≡ (staged h (stage name k none call), i32 0)
  unfolding host_table_delete with_call
  delete-stage table key key_len name k call h may =
      rw (may.table_read, may.key_read, may.writes, may.allowed)

  -- A call reads what it wrote, and misses what it deleted, whatever the tables hold.
  pub read-write :
      (table key key_len value value_len out_ptr out_len : ℕ) (name k bytes : Text) (v : J)
      (call : HostCall J) (h : Host J)
      → MayWrite table key key_len name k h
      → read_bytes h.memory value value_len ≡ some bytes
      → services.parse bytes ≡ some v
      → services.is_object v ≡ true
      → (let wrote =
            (host_table_write services caps table key key_len value value_len (staged h call)).0 in
          host_table_read services caps table key key_len out_ptr out_len wrote
          ≡ reply_out services caps
              (ascii "host_table_read: result write failed")
              (services.dump v)
              out_ptr
              out_len
              1
              wrote)
        × (let gone = (host_table_delete services caps table key key_len (staged h call)).0 in
            host_table_read services caps table key key_len out_ptr out_len gone ≡ (gone, i32 0))
  read-write table key key_len value value_len out_ptr out_len name k bytes v call h may b p o = (
    rw (write-stage table key key_len value value_len name k bytes v call h may b p o) (
        unfold reply_row in
        read-stage table key key_len out_ptr out_len name k (some v) call h may),
    rw (delete-stage table key key_len name k call h may)
        (unfold reply_row in read-stage table key key_len out_ptr out_len name k none call h may),
  )

  -- A write and a delete of a read-only module change nothing that the host functions reach.
  pub read_only-keeps :
      (table key key_len value value_len : ℕ) (h : Host J)
      → is_read_only caps ≡ true
      → ((host_table_write services caps table key key_len value value_len h).0 ≡ h)
        × ((host_table_delete services caps table key key_len h).0 ≡ h)
  unfolding host_table_write host_table_delete with_call
  read_only-keeps table key key_len value value_len h r = (ground arith, ground arith)
