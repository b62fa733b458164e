-- ===== src/Wasm/Guest.antt =====
-- src/wasm/host_functions.cpp: the memory of a guest, from which the host reads its arguments and into
-- which it writes its results. The guest's allocator is a parameter; it calls no host function.
-- Pointers and lengths are 32-bit numbers. The results that are written are shorter than 4 GiB.
use origindb.Prelude.{
  ℕ, ◌+◌, ◌-◌, ◌%◌, ◌^◌, Bool, true, false, not, ◌&&◌, Option, none, some, Text, [], ◌∷◌, ◌++◌,
  length, take, drop, leb, ltb, ◌==◌, if◌then◌else◌,
}
use origindb.Codec.{put_u32}

-- The linear memory as its bytes.
abbrev pub Memory : Type 0
Memory = Text

unfoldable pub in_bounds : Memory → ℕ → ℕ → Bool
in_bounds mem ptr len = leb (ptr + len) (length mem)

unfoldable pub read_bytes : Memory → ℕ → ℕ → Option Text
unfolding in_bounds
read_bytes mem ptr len = if in_bounds mem ptr len then some (take len (drop ptr mem)) else none

-- The bytes in front of the first NUL, none where there is none.
unfoldable pub up_to_nul : Text → Option Text
up_to_nul [] = none
up_to_nul (c ∷ s) = if c == 0 then some [] else with_first (up_to_nul s)
  where
    with_first : Option Text → Option Text
    with_first none = none
    with_first (some t) = some (c ∷ t)

abbrev smaller : ℕ → ℕ → ℕ
smaller a b = if ltb b a then b else a

unfoldable pub read_c_string : Memory → ℕ → ℕ → Option Text
unfolding up_to_nul
read_c_string mem ptr cap =
    if leb (length mem) ptr
    then none
    else up_to_nul (take (smaller (length mem - ptr) cap) (drop ptr mem))

-- The memory after the write; none leaves it as it is and is false.
unfoldable pub write_bytes : Memory → ℕ → Text → Option Memory
unfolding in_bounds
write_bytes mem ptr bytes =
    if in_bounds mem ptr (length bytes % 2 ^ 32)
    then some (take ptr mem ++ (bytes ++ drop (ptr + length bytes) mem))
    else none

unfoldable pub write_u32 : Memory → ℕ → ℕ → Option Memory
unfolding write_bytes put_u32
write_u32 mem ptr value = write_bytes mem ptr (put_u32 value)

-- Memory goes on with what a write leaves; false where it failed.
abbrev pub kept : Memory → Option Memory → Memory × Bool
kept mem none = (mem, false)
kept mem (some written) = (written, true)

-- The two words of a result: the second is written only after the first.
unfoldable pub write_words : Memory → ℕ → ℕ → ℕ → ℕ → Memory × Bool
unfolding write_u32
write_words mem out_ptr buf out_len size = first (write_u32 mem out_ptr buf)
  where
    first : Option Memory → Memory × Bool
    first none = (mem, false)
    first (some written) = kept written (write_u32 written out_len size)

abbrev pub is_empty : Text → Bool
is_empty [] = true
is_empty (c ∷ s) = false

-- `alloc size mem` is the call of the guest's `origindb_alloc`: the address and the memory that it
-- leaves, none on an error or a trap.
module _ (alloc : ℕ → Memory → Option (ℕ × Memory)) where
  abbrev allocated : Memory → Option (ℕ × Memory) → ℕ × Memory
  allocated mem none = (0, mem)
  allocated mem (some (buf, mem')) = (buf % 2 ^ 32, mem')

  unfoldable pub guest_alloc : ℕ → Memory → ℕ × Memory
  guest_alloc size mem = allocated mem (alloc (size % 2 ^ 32) mem)

  abbrev pub write_payload : Text → ℕ → ℕ → ℕ → Memory → Memory × Bool
  unfolding write_bytes write_words
  write_payload bytes buf out_ptr out_len mem =
      if is_empty bytes
      then write_words mem out_ptr buf out_len (length bytes % 2 ^ 32)
      else behind (write_bytes mem buf bytes)
    where
      behind : Option Memory → Memory × Bool
      behind none = (mem, false)
      behind (some written) = write_words written out_ptr buf out_len (length bytes % 2 ^ 32)

  unfoldable pub write_out : Text → ℕ → ℕ → Memory → Memory × Bool
  unfolding guest_alloc write_payload
  write_out bytes out_ptr out_len mem =
      let (buf, grown) = guest_alloc (length bytes) mem in
      if (buf == 0) && not (is_empty bytes)
      then (grown, false)
      else write_payload bytes buf out_ptr out_len grown
