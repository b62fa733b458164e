-- ===== src/Wasm/Calls.antt =====
-- src/wasm/host_functions.cpp: the host functions that do not touch tables. `HostLog` replies only, since
-- what it logs is not modelled; `HostFree` does nothing.
use origindb.Prelude.{
  ℕ, ◌+◌, ◌*◌, ◌/◌, ◌%◌, ◌^◌, true, Option, none, some, Text, [], ◌∷◌, ◌++◌, length, ltb, ◌==◌,
  if◌then◌else◌, ascii,
}
use origindb.Wasm.Guest.{Memory, read_bytes, read_c_string, is_empty}
use origindb.Wasm.Host.{
  HostCall, Host, Reply, trap, i32, i64, done, Capabilities, Services, StagedEvent, max_table_name,
  max_log_msg, max_result, with_call, two_arguments, with_bytes, staged, reply_out,
}

-- The fields of ReducerContext that the host functions read.
pub record ReducerContext : Type 0 where
  pub timestamp_micros : ℕ
  pub sender_identity : Text

-- The 20 low bits are those of the counter, which are free after the shift.
unfoldable pub generated_id : ℕ → ℕ → ℕ
generated_id micros counter = micros / 1000 * 2 ^ 20 % 2 ^ 64 + counter % 2 ^ 20

abbrev message_or : Text → Option Text → Text
message_or other none = other
message_or other (some message) = message

module _ {J : Type 0} where
  unfoldable pub host_emit_event : ℕ → ℕ → ℕ → ℕ → ℕ → Host J → Host J × Reply
  unfolding with_call
  host_emit_event topic key key_len payload payload_len h = with_call body h
    where
      body : HostCall J → Host J × Reply
      body call =
          let message = ascii "host_emit_event: out-of-bounds argument" in
          two_arguments h message (read_c_string h.memory topic max_table_name)
            (read_bytes h.memory key key_len)
            λ name key_text. with_bytes h message (read_bytes h.memory payload payload_len) λ bytes.
              let event : StagedEvent = record { topic = name; key = key_text; payload = bytes } in
              (staged h (record call { events = call.events ++ event ∷ [] }), i32 0)

  unfoldable pub host_now_ms : ReducerContext → Host J → Host J × Reply
  unfolding with_call
  host_now_ms context h = with_call (λ call. (h, i64 (context.timestamp_micros / 1000))) h

  unfoldable pub host_generate_id : ReducerContext → Host J → Host J × Reply
  unfolding with_call generated_id
  host_generate_id context h = with_call body h
    where
      body : HostCall J → Host J × Reply
      body call = (
        record h { id_counter = (h.id_counter + 1) % 2 ^ 64 },
        i64 (generated_id context.timestamp_micros h.id_counter),
      )

  unfoldable pub host_abort : ℕ → Host J → Host J × Reply
  unfolding with_call
  host_abort msg h = with_call body h
    where
      body : HostCall J → Host J × Reply
      body call =
          let text =
            message_or (ascii "(unreadable abort message)")
              (read_c_string h.memory msg max_log_msg) in
          (staged h (record call { abort_msg = text }), trap (ascii "aborted: " ++ text))

  unfoldable pub host_log : ℕ → Host J → Host J × Reply
  host_log msg h = logged (read_c_string h.memory msg max_log_msg)
    where
      logged : Option Text → Host J × Reply
      logged none = (h, trap (ascii "host_log: out-of-bounds message"))
      logged (some message) = (h, done)

  unfoldable pub host_free : Host J → Host J × Reply
  host_free h = (h, done)

  -- `grow pages mem` is `wasmtime_memory_grow`: the number of pages before and the memory after, none on
  -- an error.
  unfoldable pub host_alloc : (ℕ → Memory → Option (ℕ × Memory)) → ℕ → Host J → Host J × Reply
  host_alloc grow size h =
      if size == 0 then (h, i32 0) else grown (grow ((size + 65535) / 65536) h.memory)
    where
      grown : Option (ℕ × Memory) → Host J × Reply
      grown none = (h, i32 0)
      grown (some (prev, memory)) = (record h { memory = memory }, i32 (prev * 65536 % 2 ^ 32))

  unfoldable pub host_set_result : ℕ → ℕ → Host J → Host J × Reply
  unfolding with_call
  host_set_result ptr len h = with_call body h
    where
      body : HostCall J → Host J × Reply
      body call =
          if ltb max_result len
          then (h, trap (ascii "host_set_result: payload exceeds 16MiB cap"))
          else with_bytes h (ascii "host_set_result: out-of-bounds payload")
              (read_bytes h.memory ptr len)
              λ bytes. (staged h (record call { result = bytes; has_result = true }), done)

module _ {J : Type 0} (services : Services J) (caps : Option Capabilities) where
  unfoldable pub host_sender : ReducerContext → ℕ → ℕ → Host J → Host J × Reply
  unfolding with_call reply_out
  host_sender context out_ptr out_len h = with_call body h
    where
      body : HostCall J → Host J × Reply
      body call =
          let who = context.sender_identity in
          if is_empty who
          then (h, i32 0)
          else reply_out services caps (ascii "host_sender: result write failed") who out_ptr
              out_len (length who % 2 ^ 32) h
